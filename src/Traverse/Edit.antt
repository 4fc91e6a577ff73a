-- ===== src/Traverse/Edit.antt =====
-- `insert`, `extend`, `update` and `remove` of `TraverseHelper`.
use murano_temp.Base.{List, String, [], if◌then◌else◌, none, some, suc, zero, ℕ, ◌+◌, ◌-◌, ◌∷◌}
use murano_temp.Base.Num.{ltb, ℤ}
use murano_temp.Base.Result.{
  Result, attribute_error, err, from_option, index_error, key_error, ok, type_error, value_error,
  ◌>>=◌, ◌>>◌,
}
use murano_temp.Json.{
  Items, Value, append_item, append_items, boolean, cons, delete_item, dict, int, list, lookup, nil,
  null, set_key, store_item, str,
}
use murano_temp.Text.{isdigit, join, split, to_number}
use murano_temp.Text.Number.{int_text, parse_int}
use murano_temp.Traverse.{find_item, item_at, position, segments}

unfoldable pub replace_at : ℕ → Value → Items → Items
replace_at n y nil = nil
replace_at zero y (cons x xs) = cons y xs
replace_at (suc n) y (cons x xs) = cons x (replace_at n y xs)

unfoldable pub remove_at : ℕ → Items → Items
remove_at n nil = nil
remove_at zero (cons x xs) = xs
remove_at (suc n) (cons x xs) = cons x (remove_at n xs)

-- The source after `edit` has changed the node that the segments select. Nothing that is reached
-- through the item `None` can be changed.
unfoldable pub modify : List String → (Value → Result Value) → Value → Result Value
unfolding position find_item replace_at
modify [] edit source = edit source
modify (segment ∷ queue) edit (list xs) = do
  at ← position segment xs
  elim at [
    | none ↦ (do modify queue edit null; ok (list xs))
    | some n ↦ (do
      x ← from_option (item_at xs n) index_error
      y ← modify queue edit x
      ok (list (replace_at n y xs)))
  ]
modify (segment ∷ queue) edit (dict fs) = do
  v ← from_option (lookup segment fs) key_error
  w ← modify queue edit v
  ok (dict (set_key segment w fs))
modify (segment ∷ queue) edit null = err value_error
modify (segment ∷ queue) edit (boolean b) = edit (boolean b)
modify (segment ∷ queue) edit (int n) = edit (int n)
modify (segment ∷ queue) edit (str s) = edit (str s)

-- `node.append(value)`
unfoldable pub append : Value → Value → Result Value
append value (list xs) = ok (list (append_item xs value))
append value _ = err attribute_error

-- `node.extend(values)`
unfoldable pub extend_node : Items → Value → Result Value
extend_node values (list xs) = ok (list (append_items xs values))
extend_node values _ = err attribute_error

unfoldable pub insert : String → Value → Value → Result Value
unfolding modify segments append
insert path value source = modify (segments path) (append value) source

unfoldable pub extend : String → Items → Value → Result Value
unfolding modify segments extend_node
extend path values source = modify (segments path) (extend_node values) source

-- `pieces[:-1]`
abbrev pub init : List String → List String
init [] = []
init (piece ∷ []) = []
init (piece ∷ other ∷ pieces) = piece ∷ init (other ∷ pieces)

-- `pieces[-1]` of what `split` returns, which is never empty
abbrev pub last : List String → String
last [] = ""
last (piece ∷ []) = piece
last (piece ∷ other ∷ pieces) = last (other ∷ pieces)

-- `'/'.join(path.split('/')[:-1])`
unfoldable pub parent_path : String → String
unfolding split join
parent_path path = join (init (split path))

-- `path[1:]`
abbrev tail_of : String → String
tail_of String.[] = String.[]
tail_of (String.◌∷◌ c s) = s

-- `path[1:].split('/')[-1]`
unfoldable pub key_of : String → String
unfolding split
key_of path = last (split (tail_of path))

items_length : Items → ℕ
items_length nil = 0
items_length (cons x xs) = suc (items_length xs)

-- `node[i] = value` of a list, a negative `i` counted from the end
set_index : ℤ → Value → Items → Result Value
unfolding items_length replace_at
set_index (ℤ.pos n) value xs =
    if ltb n (items_length xs) then ok (list (replace_at n value xs)) else err index_error
set_index (ℤ.negsuc n) value xs =
    if ltb n (items_length xs)
    then ok (list (replace_at (items_length xs - (n + 1)) value xs))
    else err index_error

-- `node[int(key)] = value`; a dict gets the number as its key, which JSON writes as a text.
set_number : ℤ → Value → Value → Result Value
unfolding set_index int_text
set_number i value (list xs) = set_index i value xs
set_number i value (dict fs) = ok (dict (set_key (int_text i) value fs))
set_number i value _ = err type_error

unfoldable pub set_node : String → Value → Value → Result Value
unfolding set_number parse_int
set_node key value node = elim (parse_int key) [
  | some i ↦ set_number i value node
  | none ↦ store_item node key value
]

unfoldable pub update : String → Value → Value → Result Value
unfolding modify segments parent_path key_of set_node
update path value source =
    modify (segments (parent_path path)) (set_node (key_of path) value) source

-- `del node[i]` for a list
del_index : ℕ → Items → Result Value
unfolding items_length remove_at
del_index n xs = if ltb n (items_length xs) then ok (list (remove_at n xs)) else err index_error

-- What `remove` does to the parent node. An item that is found is the first one equal to itself.
unfoldable pub remove_from : String → Value → Result Value
unfolding find_item del_index remove_at
remove_from key (list xs) = do
  found ← find_item key 0 xs
  elim found [
    | some n ↦ ok (list (remove_at n xs))
    | none ↦ if isdigit key then del_index (to_number key) xs else err value_error
  ]
remove_from key (dict fs) = delete_item (dict fs) key
remove_from key _ = err value_error

unfoldable pub remove : String → Value → Result Value
unfolding modify segments parent_path key_of remove_from
remove path source = modify (segments (parent_path path)) (remove_from (key_of path)) source

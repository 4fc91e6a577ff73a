-- ===== src/Traverse.antt =====
-- `TraverseHelper` of murano/common/utils.py: a path selects a node of an object model, by key in a
-- dict and by the item's id (or position) in a list. The source changes the node in place; here
-- the changed model is rebuilt along the path.
pub mod Edit
pub mod Lens
use murano_temp.Base.{
  Bool, List, Option, String, [], false, filter, if◌then◌else◌, none, not, some, suc, true, zero, ℕ,
  ◌+◌, ◌==◌, ◌∷◌,
}
use murano_temp.Base.Result.{
  Result, err, from_option, index_error, key_error, ok, value_error, ◌>>=◌, ◌>>◌,
}
use murano_temp.Json.{
  Items, Value, boolean, cons, dict, end, get_default, int, is_text, list, lookup, nil, null, str,
}
use murano_temp.Text.{isdigit, split, to_number}

-- `i.get('?', {}).get('id')`
item_id : Value → Result Value
item_id i = do meta ← get_default i "?" (dict end); get_default meta "id" null

-- `next((i for i in items if i.get('?', {}).get('id') == id), None)`, as the position counted from
-- `n`; an item before the match that has no `get` raises.
unfoldable pub find_item : String → ℕ → Items → Result (Option ℕ)
unfolding item_id
find_item id n nil = ok none
find_item id n (cons x xs) = do
  found ← item_id x
  let rest = find_item id (n + 1) xs
  if is_text found id then ok (some n) else rest

unfoldable pub item_at : Items → ℕ → Option Value
item_at nil n = none
item_at (cons x xs) zero = some x
item_at (cons x xs) (suc n) = item_at xs n

-- The position that a path's segment selects in a list; `none` is the item `None`.
unfoldable pub position : String → Items → Result (Option ℕ)
position segment xs = do
  found ← find_item segment 0 xs
  elim found [
    | some n ↦ ok (some n)
    | none ↦
        if isdigit segment
        then (do
          x ← from_option (item_at xs (to_number segment)) index_error
          ok (some (to_number segment)))
        else ok none
  ]

abbrev is_scalar : Value → Bool
is_scalar (boolean b) = true
is_scalar (int n) = true
is_scalar (str s) = true
is_scalar _ = false

-- One turn of the loop: `none` ends it, at a text, a number or a Boolean.
unfoldable pub select : String → Value → Result (Option Value)
select segment (list xs) = do
  at ← position segment xs
  elim at [ none ↦ ok (some null) | some n ↦ ok (item_at xs n) ]
select segment (dict fs) = do v ← from_option (lookup segment fs) key_error; ok (some v)
select segment null = err value_error
select segment (boolean b) = ok none
select segment (int n) = ok none
select segment (str s) = ok none

-- The loop over the segments.
unfoldable pub walk : List String → Value → Result Value
unfolding select position find_item
walk [] source = ok source
walk (segment ∷ queue) source = do
  selected ← select segment source
  elim selected [ none ↦ ok source | some v ↦ walk queue v ]

-- `filter(lambda x: x, path.split('/'))`
unfoldable pub segments : String → List String
unfolding split filter
segments path = filter (λ s. not (s == "")) (split path)

unfoldable pub get : String → Value → Result Value
unfolding walk segments
get path source = walk (segments path) source

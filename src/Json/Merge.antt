-- ===== src/Json/Merge.antt =====
-- `merge_lists` and `merge_dicts` of murano/dsl/helpers.py.
pub mod Union
pub mod Meaning
pub mod Lookup
use murano_temp.Base.{
  Bool, false, if◌then◌else◌, is_some, none, some, suc, true, zero, ℕ, ◌&&◌, ◌==◌, ◌||◌,
}
use murano_temp.Base.Result.{Result, err, ok, type_error, ◌>>=◌, ◌>>◌}
use murano_temp.Json.{
  append_item, append_items, boolean, cons, dict, end, field, int, list, nil, null, str,
}
use murano_temp.Json.Data.{Fields, Items, Value, lookup, set_key}
use murano_temp.Json.Equal.{equal}

-- `item not in result`
unfoldable pub in_items : Value → Items → Bool
in_items v nil = false
in_items v (cons x xs) = equal x v || in_items v xs

-- The items that the result has not yet are put at its end.
unfoldable pub add_items : Items → Items → Items
unfolding in_items append_item
add_items result nil = result
add_items result (cons x xs) =
    add_items (if in_items x result then result else append_item result x) xs

unfoldable pub merge_lists : Items → Items → Items
unfolding add_items append_items
merge_lists xs ys = add_items nil (append_items xs ys)

-- `isinstance(v, six.string_types) or v is None`
unfoldable pub is_text_or_null : Value → Bool
is_text_or_null null = true
is_text_or_null (str s) = true
is_text_or_null _ = false

-- `type(v) == type(w)`
unfoldable pub same_type : Value → Value → Bool
same_type null w = elim w [ null ↦ true | _ ↦ false ]
same_type (boolean b) w = elim w [ boolean c ↦ true | _ ↦ false ]
same_type (int n) w = elim w [ int m ↦ true | _ ↦ false ]
same_type (str s) w = elim w [ str t ↦ true | _ ↦ false ]
same_type (list xs) w = elim w [ list ys ↦ true | _ ↦ false ]
same_type (dict fs) w = elim w [ dict gs ↦ true | _ ↦ false ]

-- The levels below: 0 is no bound.
unfoldable pub next_level : ℕ → ℕ
next_level zero = zero
next_level (suc n) = n

-- Two values of a key that are not of one type.
unfoldable pub mismatch : Value → Value → Result Value
unfolding is_text_or_null
mismatch v w = if is_text_or_null v && is_text_or_null w then ok v else err type_error

-- The second loop of `merge_dicts`: what the second dict has besides.
unfoldable pub add_missing : Fields → Fields → Fields
add_missing result end = result
add_missing result (field k v fs) =
    add_missing (if is_some (lookup k result) then result else set_key k v result) fs

unfoldable mutual
  unfolding merge_lists mismatch next_level add_missing same_type

  -- The value of a key that both dicts have.
  pub merge_value : ℕ → Value → Value → Result Value
  merge_value levels (dict fs) w = elim w [
    | dict gs ↦
        if murano_temp.Base.Num.◌==◌ levels 1
        then ok (dict gs)
        else (do rest ← merge_fields (next_level levels) fs gs; ok (dict (add_missing rest gs)))
    | _ ↦ err type_error
  ]
  merge_value levels (list xs) w = elim w [
    | list ys ↦
        if murano_temp.Base.Num.◌==◌ levels 1 then ok (list ys) else ok (list (merge_lists xs ys))
    | _ ↦ err type_error
  ]
  merge_value levels null w = if same_type null w then ok w else mismatch null w
  merge_value levels (boolean b) w =
      if same_type (boolean b) w then ok w else mismatch (boolean b) w
  merge_value levels (int n) w = if same_type (int n) w then ok w else mismatch (int n) w
  merge_value levels (str s) w = if same_type (str s) w then ok w else mismatch (str s) w

  -- The first loop: the first dict's keys.
  pub merge_fields : ℕ → Fields → Fields → Result Fields
  merge_fields levels end gs = ok end
  merge_fields levels (field k v fs) gs = do
    x ← elim (lookup k gs) [ none ↦ ok v | some w ↦ merge_value levels v w ]
    rest ← merge_fields levels fs gs
    ok (field k x rest)

unfoldable pub merge_dicts : ℕ → Fields → Fields → Result Fields
unfolding merge_fields add_missing
merge_dicts levels fs gs = do rest ← merge_fields levels fs gs; ok (add_missing rest gs)

-- ===== src/Json.antt =====
-- JSON values as the API and the database hold them, with Python's operations on them: what
-- `v[k]`, `v[k] = x`, `v.get(k, d)`, `v.pop(k, d)` and `k in v` do at each kind of value.
mod Data
pub mod Dict
pub mod Equal
pub mod Merge
pub use Data.{Value, Items, Fields, null, boolean, int, str, list, dict, nil, cons, end, field}
unfoldable pub use Data.{lookup, set_key, del_key}
use murano_temp.Base.{
  String, ◌==◌, Bool, true, false, not, ◌||◌, none, some, List, [], ◌∷◌, if◌then◌else◌,
}
use murano_temp.Base.Num.{ℤ}
use murano_temp.Base.Result.{Result, ok, err, key_error, type_error, attribute_error, from_option}
use text.Mathlib.Text.{starts_with}
use mathlib.Core.Option.{Option}

abbrev pub is_none : Value → Bool
is_none null = true
is_none _ = false

abbrev pub is_list : Value → Bool
is_list (list xs) = true
is_list _ = false

-- `bool(v)`: zero, the empty text and the empty containers are false.
unfoldable pub truthy : Value → Bool
truthy null = false
truthy (boolean b) = b
truthy (int (ℤ.pos n)) = not (murano_temp.Base.Num.◌==◌ n 0)
truthy (int (ℤ.negsuc n)) = true
truthy (str s) = not (s == "")
truthy (list nil) = false
truthy (list (cons x xs)) = true
truthy (dict end) = false
truthy (dict (field k v fs)) = true

-- `value == text`
abbrev pub is_text : Value → String → Bool
is_text (str s) k = s == k
is_text _ k = false

has_item : Items → String → Bool
has_item nil k = false
has_item (cons x xs) k = is_text x k || has_item xs k

substring : String → String → Bool
substring k String.[] = k == ""
substring k (String.◌∷◌ c s) = starts_with (String.◌∷◌ c s) k || substring k s

-- `k in v`
unfoldable pub contains : Value → String → Result Bool
unfolding has_item substring
contains (dict fs) k = elim (lookup k fs) [ none ↦ ok false | some v ↦ ok true ]
contains (list xs) k = ok (has_item xs k)
contains (str s) k = ok (substring k s)
contains _ k = err type_error

-- `v[k]`
unfoldable pub subscript : Value → String → Result Value
subscript (dict fs) k = from_option (lookup k fs) key_error
subscript _ k = err type_error

-- `v[k] = x`, the new value of `v`
unfoldable pub store_item : Value → String → Value → Result Value
store_item (dict fs) k x = ok (dict (set_key k x fs))
store_item _ k x = err type_error

-- `del v[k]`, the new value of `v`
unfoldable pub delete_item : Value → String → Result Value
delete_item (dict fs) k = elim (lookup k fs) [
  | none ↦ err key_error
  | some v ↦ ok (dict (del_key k fs))
]
delete_item _ k = err type_error

abbrev or_default : Option Value → Value → Value
or_default none d = d
or_default (some v) d = v

-- `v.get(k, d)`
unfoldable pub get_default : Value → String → Value → Result Value
get_default (dict fs) k d = ok (or_default (lookup k fs) d)
get_default _ k d = err attribute_error

-- `v.pop(k, d)`: what is taken out, and the new value of `v`
unfoldable pub pop_default : Value → String → Value → Result (Value × Value)
pop_default (dict fs) k d = ok (or_default (lookup k fs) d, dict (del_key k fs))
pop_default (list xs) k d = err type_error
pop_default _ k d = err attribute_error

unfoldable pub append_item : Items → Value → Items
append_item nil v = cons v nil
append_item (cons x xs) v = cons x (append_item xs v)

unfoldable pub append_items : Items → Items → Items
append_items nil ys = ys
append_items (cons x xs) ys = cons x (append_items xs ys)

abbrev pub to_list : Items → List Value
to_list nil = []
to_list (cons x xs) = x ∷ to_list xs

-- ===== src/Patch.antt =====
-- The changes of a package that a request asks for: `JSONPatchDeserializer` of murano/common/wsgi.py,
-- from the decoded body on.
pub mod Pointer
pub mod Escape
pub mod Allowed
use murano_temp.Base.{
  Bool, List, Option, String, [], false, if◌then◌else◌, length, none, some, ◌==◌, ◌||◌, ◌∷◌,
}
use murano_temp.Base.Num.{leb}
use murano_temp.Base.Result.{
  Result, attribute_error, err, from_option, guard, http_bad_request, http_forbidden, index_error,
  ok, type_error, ◌>>=◌, ◌>>◌,
}
use murano_temp.Json.{Fields, Items, Value, cons, dict, end, field, is_text, list, lookup, nil, str}
use murano_temp.Patch.Pointer.{decode_json_pointer}
use murano_temp.Types.{methods}

-- `allowed_operations.get(name)`
unfoldable pub allowed_operations : String → Option (List String)
allowed_operations name =
    if name == "categories" || name == "tags"
    then some ("add" ∷ "replace" ∷ "remove" ∷ [])
    else if name == "is_public" || name == "enabled" || name == "description" || name == "name"
    then some ("replace" ∷ [])
    else none

pub record Change : Type 0 where
  pub op : Value
  pub path : List String
  pub change_value : Value

-- A member of the change, without which the request is bad.
unfoldable pub required : String → Fields → Result Value
required k fs = from_option (lookup k fs) http_bad_request

-- The pointer is a text, as it is asked how it starts.
unfoldable pub parse_pointer : Value → Result (List String)
unfolding decode_json_pointer
parse_pointer (str pointer) = decode_json_pointer pointer
parse_pointer _ = err attribute_error

-- `change_op not in allowed_methods`
unfoldable pub is_method : Value → List String → Bool
is_method op [] = false
is_method op (m ∷ ms) = is_text op m || is_method op ms

-- `valid` is the validation of the schema of package updates, for one property and its value.
module _ (valid : String → Value → Bool) where
  unfoldable pub validate_change : Value → List String → Value → Result (Unit {0})
  unfolding allowed_operations is_method
  validate_change op [] v = err index_error
  validate_change op (name ∷ names) v = do
    methods ← from_option (allowed_operations name) http_forbidden
    guard (is_method op methods) http_forbidden
    guard (valid name v) http_bad_request

  -- A turn of the loop. A path of more than one name is refused.
  unfoldable pub parse_change : Value → Result Change
  unfolding required parse_pointer validate_change
  parse_change (dict fs) = do
    op ← required "op" fs
    pointer ← required "path" fs
    path ← parse_pointer pointer
    guard (leb (length path) 1) http_bad_request
    change_value ← required "value" fs
    validate_change op path change_value
    ok (record { op = op; path = path; change_value = change_value })
  parse_change _ = err http_bad_request

  unfoldable pub parse_changes : Items → Result (List Change)
  unfolding parse_change
  parse_changes nil = ok []
  parse_changes (cons x xs) = do
    change ← parse_change x
    changes ← parse_changes xs
    ok (change ∷ changes)

  -- `_from_json_patch`. What is iterated over a dict is its keys, and over a text its characters: both
  -- are texts, and refused; an empty one has no change.
  unfoldable pub from_json_patch : Value → Result (List Change)
  unfolding parse_changes
  from_json_patch (list xs) = parse_changes xs
  from_json_patch (dict end) = ok []
  from_json_patch (dict (field k v fs)) = err http_bad_request
  from_json_patch (str s) = if s == "" then ok [] else err http_bad_request
  from_json_patch _ = err type_error

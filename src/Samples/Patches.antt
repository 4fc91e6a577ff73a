-- ===== src/Samples/Patches.antt =====
-- The theorems on the changes of a package, at a change of its tags.
use murano_temp.Base.{All, Bool, String, [], refl, true, ◌↔◌, ◌∷◌, ◌≡◌}
use murano_temp.Base.Result.{err, http_bad_request, http_forbidden, ok}
use murano_temp.Json.{Items, Value, cons, dict, end, field, list, lookup, nil, str}
use murano_temp.Patch.{Change, from_json_patch}
use murano_temp.Patch.Allowed.{IsAllowed, from_json_patch-IsAllowed}
use murano_temp.Patch.Escape.{decode_json_pointer-escape, escape}
use murano_temp.Patch.Pointer.{decode_json_pointer, strip}

abbrev any_value : String → Value → Bool
any_value name v = true

abbrev tag_change : Change
tag_change = record { op = str "add"; path = "tags" ∷ []; change_value = str "sql" }

from_json_patch-IsAllowed_example :
    ((xs : Items) × (from_json_patch any_value (list xs) ≡ ok (tag_change ∷ [])))
    ↔ All (IsAllowed any_value) (tag_change ∷ [])
from_json_patch-IsAllowed_example = from_json_patch-IsAllowed any_value (tag_change ∷ [])

decode_json_pointer-escape_example :
    decode_json_pointer (String.◌∷◌ "/" (escape "a/b~c")) ≡ ok ("a/b~c" ∷ [])
unfolding strip
decode_json_pointer-escape_example = decode_json_pointer-escape "a/b~c" refl

abbrev operation : String → String → Value
operation op path =
    dict (field "op" (str op) (field "path" (str path) (field "value" (str "x") end)))

from_json_patch_examples :
    (from_json_patch any_value (list (cons (operation "replace" "/name") nil))
      ≡ ok (record { op = str "replace"; path = "name" ∷ []; change_value = str "x" } ∷ []))
    × (from_json_patch any_value (list (cons (operation "add" "/name") nil)) ≡ err http_forbidden)
    × (from_json_patch any_value (list (cons (operation "add" "/owner") nil)) ≡ err http_forbidden)
    × (from_json_patch any_value (list (cons (operation "add" "/tags/a") nil))
        ≡ err http_bad_request)
unfolding from_json_patch decode_json_pointer lookup
from_json_patch_examples = (refl, refl, refl, refl)

-- ===== src/Sanitize.antt =====
-- murano/common/helpers/token_sanitizer.py: the texts under keys that look like a token or a
-- password are replaced before an object is logged or stored with a task. `lower` is that of
-- ASCII letters; a tuple of the source is an entry of a dict.
pub mod Secrets
use Prim.Native.Char.{Char, code}
use text.Mathlib.Text.{starts_with}
use murano_temp.Base.{ℕ, ◌+◌, String, Bool, true, false, ◌&&◌, ◌||◌, List, [], ◌∷◌, if◌then◌else◌}
use murano_temp.Base.Num.{leb}
use murano_temp.Json.{
  Value, Items, Fields, null, boolean, int, str, list, dict, nil, cons, end, field,
}

abbrev pub tokens : List String
tokens = "token" ∷ "pass" ∷ "trustid" ∷ []

abbrev pub message : String
message = "*** SANITIZED ***"

-- Two code points that differ by the case of an ASCII letter at most.
unfoldable pub same_letter : Char → Char → Bool
same_letter lower c =
    murano_temp.Base.Num.◌==◌ (code lower) (code c)
    || (leb b'A' (code c)
        && leb (code c) b'Z'
        && murano_temp.Base.Num.◌==◌ (code lower) (code c + 32))

-- `value.lower().startswith(token)`, for a token in lower case
lower_starts_with : String → String → Bool
unfolding same_letter
lower_starts_with s String.[] = true
lower_starts_with String.[] (String.◌∷◌ t token) = false
lower_starts_with (String.◌∷◌ c s) (String.◌∷◌ t token) =
    same_letter t c && lower_starts_with s token

-- `token in value.lower()`
lower_contains : String → String → Bool
unfolding lower_starts_with
lower_contains String.[] token = lower_starts_with String.[] token
lower_contains (String.◌∷◌ c s) token =
    lower_starts_with (String.◌∷◌ c s) token || lower_contains s token

contains_any : String → List String → Bool
unfolding lower_contains
contains_any value [] = false
contains_any value (token ∷ rest) = lower_contains value token || contains_any value rest

unfoldable pub contains_token : String → Bool
unfolding contains_any
contains_token value = contains_any value tokens

abbrev pub is_str : Value → Bool
is_str (str s) = true
is_str _ = false

unfoldable mutual
  pub sanitize : Value → Value
  sanitize (dict fs) = dict (sanitize_fields fs)
  sanitize (list xs) = list (sanitize_items xs)
  sanitize null = null
  sanitize (boolean b) = boolean b
  sanitize (int n) = int n
  sanitize (str s) = str s

  pub sanitize_items : Items → Items
  sanitize_items nil = nil
  sanitize_items (cons x xs) = cons (sanitize x) (sanitize_items xs)

  pub sanitize_fields : Fields → Fields
  sanitize_fields end = end
  sanitize_fields (field k v fs) =
      field k (if contains_token k && is_str v then str message else sanitize v)
        (sanitize_fields fs)

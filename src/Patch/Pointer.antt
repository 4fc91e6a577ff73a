-- ===== src/Patch/Pointer.antt =====
-- The pointers of `JSONPatchDeserializer` of murano/common/wsgi.py. White space is that of ASCII.
use murano_temp.Base.{
  Bool, List, String, [], false, if◌then◌else◌, map, not, refl, true, ℕ, ◌&&◌, ◌==◌, ◌||◌, ◌∷◌, ◌≡◌,
}
use murano_temp.Base.Num.{leb}
use murano_temp.Base.Result.{Result, err, guard, http_bad_request, ok, ◌>>◌}
use murano_temp.Text.{is_char, split}
use Prim.Native.Char.{Char, code}

abbrev pub slash : ℕ
slash = 47

abbrev pub tilde : ℕ
tilde = 126

unfoldable pub is_space : Char → Bool
is_space c = (leb 9 (code c) && leb (code c) 13) || (leb 28 (code c) && leb (code c) 32)

-- `s.lstrip()`
unfoldable pub lstrip : (Char → Bool) → String → String
lstrip p String.[] = String.[]
lstrip p (String.◌∷◌ c s) = let rest = lstrip p s in if p c then rest else String.◌∷◌ c s

-- `s.rstrip()`
unfoldable pub rstrip : String → String
unfolding is_space
rstrip String.[] = String.[]
rstrip (String.◌∷◌ c s) =
    let rest = rstrip s in if is_space c && rest == "" then String.[] else String.◌∷◌ c rest

unfoldable pub strip : String → String
unfolding lstrip rstrip is_space
strip s = lstrip is_space (rstrip s)

-- The text starts with white space, none perhaps, and a slash.
spaces_and_slash : String → Bool
unfolding is_space is_char
spaces_and_slash String.[] = false
spaces_and_slash (String.◌∷◌ c s) = is_char slash c || (is_space c && spaces_and_slash s)

-- `re.search('/\s*?/', s)`
unfoldable pub has_adjacent : String → Bool
unfolding spaces_and_slash is_char
has_adjacent String.[] = false
has_adjacent (String.◌∷◌ c s) = (is_char slash c && spaces_and_slash s) || has_adjacent s

-- `s.endswith(c)`
unfoldable pub ends_with : ℕ → String → Bool
unfolding is_char
ends_with n String.[] = false
ends_with n (String.◌∷◌ c String.[]) = is_char n c
ends_with n (String.◌∷◌ c (String.◌∷◌ d s)) = ends_with n (String.◌∷◌ d s)

-- `re.search('~[^01]', s) or s.endswith('~')`
unfoldable pub has_bad_escape : String → Bool
unfolding is_char
has_bad_escape String.[] = false
has_bad_escape (String.◌∷◌ c String.[]) = is_char tilde c
has_bad_escape (String.◌∷◌ c (String.◌∷◌ d s)) =
    (is_char tilde c && not (is_char b'0' d || is_char b'1' d)) || has_bad_escape (String.◌∷◌ d s)

tail_of : String → String
tail_of String.[] = String.[]
tail_of (String.◌∷◌ c s) = s

starts_with_slash : String → Bool
unfolding is_char
starts_with_slash String.[] = false
starts_with_slash (String.◌∷◌ c s) = is_char slash c

unfoldable pub validate_json_pointer : String → Result (Unit {0})
unfolding starts_with_slash has_adjacent ends_with has_bad_escape strip tail_of
validate_json_pointer pointer = do
  guard (starts_with_slash pointer) http_bad_request
  guard (not (has_adjacent (tail_of pointer))) http_bad_request
  guard (not (not (tail_of pointer == "") && ends_with slash pointer)) http_bad_request
  guard (not (strip (tail_of pointer) == "/")) http_bad_request
  guard (not (has_bad_escape pointer)) http_bad_request

-- `s.replace('~n', c)`, of the character with the code `n`
unfoldable pub replace : ℕ → Char → String → String
unfolding is_char
replace n x String.[] = String.[]
replace n x (String.◌∷◌ c String.[]) = String.◌∷◌ c String.[]
replace n x (String.◌∷◌ c (String.◌∷◌ d s)) = elim (is_char tilde c && is_char n d) [
  | true ↦ String.◌∷◌ x (replace n x s)
  | false ↦ String.◌∷◌ c (replace n x (String.◌∷◌ d s))
]

unfoldable pub decode_part : String → String
unfolding replace strip
decode_part part = strip (replace b'0' "~" (replace b'1' "/" part))

unfoldable pub decode_json_pointer : String → Result (List String)
unfolding validate_json_pointer decode_part split lstrip is_char
decode_json_pointer pointer = do
  validate_json_pointer pointer
  ok (map decode_part (split (lstrip (is_char slash) pointer)))

decode_json_pointer_examples :
    (decode_json_pointer "/name" ≡ ok ("name" ∷ []))
    × (decode_json_pointer "/a/b~1c~0" ≡ ok ("a" ∷ "b/c~" ∷ []))
    × (decode_json_pointer "/a~2" ≡ err http_bad_request)
    × (decode_json_pointer "/a/ /b" ≡ err http_bad_request)
    × (decode_json_pointer "/a/" ≡ err http_bad_request)
    × (decode_json_pointer "a" ≡ err http_bad_request)
unfolding decode_json_pointer
decode_json_pointer_examples = (refl, refl, refl, refl, refl, refl)

-- ===== src/Text/TypeName.antt =====
-- `parse_type_string` of murano/dsl/helpers.py, with its regular expression:
-- a name, then `/` and a version, then `@` and a package, both optional.
use murano_temp.Base.{
  Bool, Option, String, if◌then◌else◌, none, not, refl, some, ◌&&◌, ◌==◌, ◌||◌, ◌≡◌,
}
use murano_temp.Base.Num.{leb}
use murano_temp.Text.{is_char, is_digit}
use Prim.Native.Char.{Char, code}

-- [a-zA-Z0-9_.]
is_name_char : Char → Bool
is_name_char c =
    (leb b'a' (code c) && leb (code c) b'z')
    || (leb b'A' (code c) && leb (code c) b'Z')
    || is_digit c
    || is_char b'_' c
    || is_char b'.' c

-- The longest part whose characters pass the test, and the rest.
unfoldable pub span : (Char → Bool) → String → String × String
span p String.[] = (String.[], String.[])
span p (String.◌∷◌ c s) =
    let (taken, rest) = span p s in
    if p c then (String.◌∷◌ c taken, rest) else (String.[], String.◌∷◌ c s)

-- What the `$` of a regular expression accepts.
at_end : String → Bool
at_end s = s == "" || s == "\n"

pub record TypeParts : Type 0 where
  pub name : String
  pub version : Option String
  pub package_name : Option String

-- The part from `@` on.
with_package : String → Option String → String → Option TypeParts
with_package name version String.[] =
    some (record { name = name; version = version; package_name = none })
with_package name version (String.◌∷◌ c rest) =
    let (owner, after) = span is_name_char rest in
    if is_char b'@' c && not (owner == "") && at_end after
    then some (record { name = name; version = version; package_name = some owner })
    else if at_end (String.◌∷◌ c rest)
    then some (record { name = name; version = version; package_name = none })
    else none

-- The part from `/` on.
with_version : String → String → Option TypeParts
with_version name String.[] = some (record { name = name; version = none; package_name = none })
with_version name (String.◌∷◌ c rest) =
    let (version, after) = span (λ d. not (is_char b'@' d)) rest in
    if is_char b'/' c
    then (if version == "" then none else with_package name (some version) after)
    else with_package name none (String.◌∷◌ c rest)

unfoldable pub parse_type : String → Option TypeParts
unfolding span is_name_char at_end with_package with_version is_char is_digit
parse_type s =
    let (name, rest) = span is_name_char s in if name == "" then none else with_version name rest

parse_type_examples :
    (parse_type "a.B" ≡ some (record { name = "a.B"; version = none; package_name = none }))
    × (parse_type "a.B/1.2@c"
        ≡ some (record { name = "a.B"; version = some "1.2"; package_name = some "c" }))
    × (parse_type "a.B@c" ≡ some (record { name = "a.B"; version = none; package_name = some "c" }))
    × (parse_type "a B" ≡ none)
    × (parse_type "a.B/" ≡ none)
unfolding parse_type
parse_type_examples = (refl, refl, refl, refl, refl)

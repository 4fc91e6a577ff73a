-- ===== src/Text.antt =====
-- The text functions of the paths: splitting at `/`, joining, `isdigit` and `int`. The digits are
-- those of ASCII.
pub mod Number
pub mod Quotes
pub mod TypeName
use murano_temp.Base.{
  Bool, List, String, [], if◌then◌else◌, not, true, ℕ, ◌&&◌, ◌*◌, ◌++◌, ◌+◌, ◌-◌, ◌==◌, ◌∷◌,
}
use murano_temp.Base.Num.{leb}
use Prim.Native.Char.{Char, code}

unfoldable pub is_char : ℕ → Char → Bool
is_char n c = murano_temp.Base.Num.◌==◌ (code c) n

-- `c` goes before the first piece.
abbrev pub onto_first : Char → List String → List String
onto_first c [] = String.◌∷◌ c String.[] ∷ []
onto_first c (piece ∷ pieces) = String.◌∷◌ c piece ∷ pieces

-- `s.split('/')`
unfoldable pub split : String → List String
unfolding is_char
split String.[] = String.[] ∷ []
split (String.◌∷◌ c s) =
    let rest = split s in if is_char b'/' c then String.[] ∷ rest else onto_first c rest

abbrev slash : Char
slash = "/"

-- `'/'.join(pieces)`
unfoldable pub join : List String → String
join [] = ""
join (piece ∷ []) = piece
join (piece ∷ next ∷ pieces) =
    Prim.Native.String.◌++◌ piece (String.◌∷◌ slash (join (next ∷ pieces)))

unfoldable pub is_digit : Char → Bool
is_digit c = leb b'0' (code c) && leb (code c) b'9'

all_digits : String → Bool
all_digits String.[] = true
all_digits (String.◌∷◌ c s) = is_digit c && all_digits s

-- `s.isdigit()`
unfoldable pub isdigit : String → Bool
unfolding is_digit all_digits
isdigit s = not (s == "") && all_digits s

digits_value : ℕ → String → ℕ
digits_value n String.[] = n
digits_value n (String.◌∷◌ c s) = digits_value (n * 10 + (code c - 48)) s

-- `int(s)` of a text of digits
unfoldable pub to_number : String → ℕ
unfolding digits_value
to_number s = digits_value 0 s

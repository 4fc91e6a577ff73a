-- ===== src/Text/Number.antt =====
-- `int(s)` of any text (murano/common/utils.py, `is_number`), and the text of an integer.
use murano_temp.Base.{
  Bool, Option, String, false, if◌then◌else◌, none, refl, some, suc, true, zero, ℕ, ◌%◌, ◌&&◌, ◌*◌,
  ◌+◌, ◌-◌, ◌/◌, ◌||◌, ◌≡◌,
}
use murano_temp.Base.Num.{leb, ltb, ℤ}
use murano_temp.Text.{is_char, is_digit}
use mathlib.Core.Option
use Prim.Native.Char.{Char, code}

is_space : Char → Bool
is_space c = is_char b' ' c || (leb 9 (code c) && leb (code c) 13)

all_space : String → Bool
all_space String.[] = true
all_space (String.◌∷◌ c s) = is_space c && all_space s

-- The digits, `seen` of them so far, and then nothing but white space.
digits_of : ℕ → Bool → String → Option ℕ
digits_of n seen String.[] = if seen then some n else none
digits_of n seen (String.◌∷◌ c s) =
    let rest = digits_of (n * 10 + (code c - 48)) true s in
    if is_digit c then rest else if seen && all_space (String.◌∷◌ c s) then some n else none

negative : ℕ → ℤ
negative zero = ℤ.pos 0
negative (suc n) = ℤ.negsuc n

signed : String → Option ℤ
signed String.[] = none
signed (String.◌∷◌ c s) =
    if is_char b'-' c
    then Option.map negative (digits_of 0 false s)
    else if is_char b'+' c
    then Option.map ℤ.pos (digits_of 0 false s)
    else Option.map ℤ.pos (digits_of 0 false (String.◌∷◌ c s))

-- `int(s)`, `none` where it raises
unfoldable pub parse_int : String → Option ℤ
unfolding signed negative digits_of is_space all_space is_char is_digit
parse_int String.[] = none
parse_int (String.◌∷◌ c s) =
    let rest = parse_int s in if is_space c then rest else signed (String.◌∷◌ c s)

digit : ℕ → Char
digit zero = "0"
digit (suc zero) = "1"
digit (suc (suc zero)) = "2"
digit (suc (suc (suc zero))) = "3"
digit (suc (suc (suc (suc zero)))) = "4"
digit (suc (suc (suc (suc (suc zero))))) = "5"
digit (suc (suc (suc (suc (suc (suc zero)))))) = "6"
digit (suc (suc (suc (suc (suc (suc (suc zero))))))) = "7"
digit (suc (suc (suc (suc (suc (suc (suc (suc zero)))))))) = "8"
digit _ = "9"

-- The digits of `n` before `rest`; `n` itself is fuel enough.
decimal : ℕ → ℕ → String → String
unfolding digit
decimal zero n rest = String.◌∷◌ (digit (n % 10)) rest
decimal (suc fuel) n rest =
    let shorter = decimal fuel (n / 10) (String.◌∷◌ (digit (n % 10)) rest) in
    if ltb n 10 then String.◌∷◌ (digit n) rest else shorter

-- `str(n)`, which `json.dumps` makes of a key that is a number
unfoldable pub int_text : ℤ → String
unfolding decimal
int_text (ℤ.pos n) = decimal n n ""
int_text (ℤ.negsuc n) = String.◌∷◌ "-" (decimal (suc n) (suc n) "")

parse_int_examples :
    (parse_int " -12 " ≡ some (ℤ.negsuc 11))
    × (parse_int "1 2" ≡ none)
    × (int_text (ℤ.negsuc 1204) ≡ "-1205")
unfolding parse_int int_text
parse_int_examples = (refl, refl, refl)

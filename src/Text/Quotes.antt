-- ===== src/Text/Quotes.antt =====
-- `validate_quotes` of murano/common/utils.py: the quotation marks of a filter's value.
use murano_temp.Base.{
  All, Bool, List, String, [], arith, false, if◌then◌else◌, not, refl, suc, true, zero, ℕ, ◌&&◌,
  ◌+◌, ◌∙◌, ◌∷◌, ◌≡◌,
}
use murano_temp.Base.Result.{Result, err, guard, ok, value_error, ◌>>=◌}
use murano_temp.Text.{is_char}
use Prim.Native.Char.{Char}

-- `open_quotes`, `count_backslash_in_row`, and whether the place before is the start or a comma.
pub record Scan : Type 0 where
  pub open_quotes : Bool
  pub count_backslash : ℕ
  pub after_comma : Bool

is_odd : ℕ → Bool
is_odd zero = false
is_odd (suc n) = not (is_odd n)

-- `i + 1 == len(value) or value[i + 1] == ','`
before_comma : String → Bool
before_comma String.[] = true
before_comma (String.◌∷◌ c s) = is_char b',' c

-- One turn of the loop, at `c` with `rest` after it.
scan_step : Scan → Char → String → Result Scan
scan_step scan c rest =
    if is_char b'"' c
    then (if is_odd scan.count_backslash
        then ok (record scan { after_comma = false })
        else if scan.open_quotes
        then (if scan.after_comma
            then ok (record scan { open_quotes = false; after_comma = false })
            else err value_error)
        else (if before_comma rest
            then ok (record scan { open_quotes = true; after_comma = false })
            else err value_error))
    else if is_char b'\\' c
    then ok (record scan { count_backslash = scan.count_backslash + 1; after_comma = false })
    else ok (record scan { count_backslash = 0; after_comma = is_char b',' c })

scan_loop : Scan → String → Result (Unit {0})
scan_loop scan String.[] = guard scan.open_quotes value_error
scan_loop scan (String.◌∷◌ c s) = do next ← scan_step scan c s; scan_loop next s

unfoldable pub validate_quotes : String → Result (Unit {0})
unfolding scan_loop scan_step before_comma is_odd is_char
validate_quotes text =
    scan_loop (record { open_quotes = true; count_backslash = 0; after_comma = true }) text

-- A closing mark after an escaped one is taken for escaped too, since the count stays odd.
validate_quotes_examples :
    (validate_quotes "a,\"b\"" ≡ ok tt)
    × (validate_quotes "a\"b" ≡ err value_error)
    × (validate_quotes "\"a\\\"b\"" ≡ ok tt)
    × (validate_quotes "\"a\\\"\"" ≡ err value_error)
unfolding validate_quotes is_char
validate_quotes_examples = (refl, refl, refl, refl)

abbrev mark : Char
mark = "\""

abbrev comma : Char
comma = ","

-- A text with no mark and no backslash in it.
abbrev pub is_plain : String → Bool
is_plain String.[] = true
is_plain (String.◌∷◌ c s) = not (is_char b'"' c) && not (is_char b'\\' c) && is_plain s

-- `s` in marks, before `rest`.
abbrev pub then_rest : String → String → String
then_rest String.[] rest = String.◌∷◌ mark rest
then_rest (String.◌∷◌ c s) rest = String.◌∷◌ c (then_rest s rest)

abbrev pub in_marks : String → String → String
in_marks s rest = String.◌∷◌ mark (then_rest s rest)

-- The items in marks, with commas between them.
unfoldable pub quoted : List String → String
quoted [] = ""
quoted (s ∷ []) = in_marks s ""
quoted (s ∷ t ∷ rest) = in_marks s (String.◌∷◌ comma (quoted (t ∷ rest)))

abbrev inside : Bool → Scan
inside free = record { open_quotes = false; count_backslash = 0; after_comma = free }

abbrev outside : Bool → Scan
outside free = record { open_quotes = true; count_backslash = 0; after_comma = free }

scan_plain :
    (s rest : String) (free : Bool)
    → is_plain s ≡ true
    → before_comma rest ≡ true
    → scan_loop (inside free) (then_rest s rest) ≡ scan_loop (outside false) rest
unfolding scan_loop scan_step is_odd is_char
scan_plain String.[] rest free h e = rw e refl
scan_plain (String.◌∷◌ c s) rest free h e =
    let mark_free : is_char b'"' c ≡ false = ground arith in
    let slash_free : is_char b'\\' c ≡ false = ground arith in
    rw (mark_free, slash_free) (scan_plain s rest (is_char b',' c) (ground arith) e)

scan_quoted :
    (items : List String)
    → All (λ s. is_plain s ≡ true) items
    → scan_loop (outside true) (quoted items) ≡ ok tt
unfolding scan_loop scan_step is_odd quoted before_comma is_char
scan_quoted [] h = refl
scan_quoted (s ∷ []) h = scan_plain s "" false h.0 refl
scan_quoted (s ∷ t ∷ rest) h =
    scan_plain s (String.◌∷◌ comma (quoted (t ∷ rest))) false h.0 refl ∙ scan_quoted (t ∷ rest) h.1

-- Items that hold no quotation mark and no backslash, each in marks, with commas between them, pass
-- the validation, whatever commas they hold.
pub validate_quotes-quoted :
    (items : List String)
    → All (λ s. is_plain s ≡ true) items
    → validate_quotes (quoted items) ≡ ok tt
unfolding validate_quotes is_char
validate_quotes-quoted = scan_quoted

-- ===== src/Patch/Escape.antt =====
-- A name, escaped as the pointers' specification says, against decode_json_pointer.
use murano_temp.Base.{
  Bool, Bool-cases, String, [], ap, arith, false, if◌then◌else◌, inl, inr, map, not, refl, sym,
  text_cases, true, ℕ, ◌&&◌, ◌==◌, ◌∙◌, ◌∷◌, ◌≡◌,
}
use murano_temp.Base.Num.{==_iff}
use murano_temp.Base.Result.{ok, ◌>>=◌}
use murano_temp.Patch.Pointer.{
  decode_json_pointer, decode_part, ends_with, has_adjacent, has_bad_escape, is_space, lstrip,
  replace, rstrip, slash, strip, tilde, validate_json_pointer,
}
use murano_temp.Text.{is_char, split}
use Prim.Native.Char.{Char, code}
use text.Mathlib.TextEquality.{Char-path}

-- `~` is written `~0`, and `/` is written `~1`.
unfoldable pub escape : String → String
escape String.[] = String.[]
escape (String.◌∷◌ c s) =
    let rest = escape s in
    if is_char tilde c
    then String.◌∷◌ "~" (String.◌∷◌ "0" rest)
    else if is_char slash c
    then String.◌∷◌ "~" (String.◌∷◌ "1" rest)
    else String.◌∷◌ c rest

-- Only the first of these.
half : String → String
half String.[] = String.[]
half (String.◌∷◌ c s) =
    let rest = half s in
    if is_char tilde c then String.◌∷◌ "~" (String.◌∷◌ "0" rest) else String.◌∷◌ c rest

no_slash : String → Bool
no_slash String.[] = true
no_slash (String.◌∷◌ c s) = not (is_char slash c) && no_slash s

char_of : (c d : Char) → is_char (code d) c ≡ true → c ≡ d
unfolding is_char
char_of c d h =
    let e : code c ≡ code d = (murano_temp.Base.Num.==_iff (code c) (code d)).0 h in Char-path c d e

no_slash-escape : (s : String) → no_slash (escape s) ≡ true
unfolding escape no_slash is_char
no_slash-escape String.[] = refl
no_slash-escape (String.◌∷◌ c s) = elim (Bool-cases (is_char tilde c)) [
  | inl y ↦ rw y (no_slash-escape s)
  | inr n ↦ elim (Bool-cases (is_char slash c)) [
    | inl y ↦ rw (n, y) (no_slash-escape s)
    | inr k ↦ rw (n, k, k) (no_slash-escape s)
  ]
]

has_adjacent-no_slash : (s : String) → no_slash s ≡ true → has_adjacent s ≡ false
unfolding no_slash has_adjacent
has_adjacent-no_slash String.[] h = refl
has_adjacent-no_slash (String.◌∷◌ c s) h = ground (arith, has_adjacent-no_slash s)

ends_with-no_slash : (s : String) → no_slash s ≡ true → ends_with slash s ≡ false
unfolding no_slash ends_with
ends_with-no_slash String.[] h = refl
ends_with-no_slash (String.◌∷◌ c String.[]) h = ground arith
ends_with-no_slash (String.◌∷◌ c (String.◌∷◌ d s)) h =
    ends_with-no_slash (String.◌∷◌ d s) (ground arith)

no_slash-lstrip : (p : Char → Bool) (s : String) → no_slash s ≡ true → no_slash (lstrip p s) ≡ true
unfolding no_slash lstrip
no_slash-lstrip p String.[] h = refl
no_slash-lstrip p (String.◌∷◌ c s) h = elim (Bool-cases (p c)) [
  | inl y ↦ rw y (no_slash-lstrip p s (ground arith))
  | inr n ↦ rw n h
]

no_slash-rstrip : (s : String) → no_slash s ≡ true → no_slash (rstrip s) ≡ true
unfolding no_slash rstrip
no_slash-rstrip String.[] h = refl
no_slash-rstrip (String.◌∷◌ c s) h = elim (Bool-cases (is_space c && rstrip s == "")) [
  | inl y ↦ rw y refl
  | inr n ↦ let k = no_slash-rstrip s (ground arith) in rw n (ground arith)
]

lstrip-no_slash : (s : String) → no_slash s ≡ true → lstrip (is_char slash) s ≡ s
unfolding no_slash lstrip
lstrip-no_slash String.[] h = refl
lstrip-no_slash (String.◌∷◌ c s) h = let n : is_char slash c ≡ false = ground arith in rw n refl

split-no_slash : (s : String) → no_slash s ≡ true → split s ≡ s ∷ []
unfolding no_slash split
split-no_slash String.[] h = refl
split-no_slash (String.◌∷◌ c s) h =
    let n : is_char slash c ≡ false = ground arith in rw (n, split-no_slash s (ground arith)) refl

has_bad_escape-escape :
    (c : Char) (s : String)
    → is_char tilde c ≡ false
    → has_bad_escape (String.◌∷◌ c (escape s)) ≡ false
unfolding escape has_bad_escape is_char
has_bad_escape-escape c String.[] h = h
has_bad_escape-escape c (String.◌∷◌ d s) h = elim (Bool-cases (is_char tilde d)) [
  | inl y ↦ rw (y, h) (has_bad_escape-escape "0" s refl)
  | inr n ↦ elim (Bool-cases (is_char slash d)) [
    | inl y ↦ rw (n, y, h) (has_bad_escape-escape "1" s refl)
    | inr k ↦ rw (n, k, h) (has_bad_escape-escape d s n)
  ]
]

replace-skip :
    (n : ℕ) (x c : Char) (t : String)
    → is_char tilde c ≡ false
    → replace n x (String.◌∷◌ c t) ≡ String.◌∷◌ c (replace n x t)
unfolding replace
replace-skip n x c String.[] h = refl
replace-skip n x c (String.◌∷◌ d t) h = rw (h, replace) refl

onto : (c : Char) {s t : String} → s ≡ t → String.◌∷◌ c s ≡ String.◌∷◌ c t
onto c e = ap (λ u. String.◌∷◌ c u) e

-- The first replacement of the decoder undoes the second rule.
replace-escape : (s : String) → replace b'1' "/" (escape s) ≡ half s
unfolding replace escape half is_char
replace-escape String.[] = refl
replace-escape (String.◌∷◌ c s) = elim (Bool-cases (is_char tilde c)) [
  | inl y ↦
      rw y (onto "~" (replace-skip b'1' "/" "0" (escape s) refl ∙ onto "0" (replace-escape s)))
  | inr n ↦ elim (Bool-cases (is_char slash c)) [
    | inl y ↦
        rw (n, y)
          (onto "/" (replace-escape s) ∙ ap (λ d. String.◌∷◌ d (half s)) (sym (char_of c "/" y)))
    | inr k ↦ rw (n, k) (replace-skip b'1' "/" c (escape s) n ∙ onto c (replace-escape s))
  ]
]

-- The second one undoes the first rule.
replace-half : (s : String) → replace b'0' "~" (half s) ≡ s
unfolding replace half is_char
replace-half String.[] = refl
replace-half (String.◌∷◌ c s) = elim (Bool-cases (is_char tilde c)) [
  | inl y ↦ rw y (onto "~" (replace-half s) ∙ ap (λ d. String.◌∷◌ d s) (sym (char_of c "~" y)))
  | inr n ↦ rw n (replace-skip b'0' "~" c (half s) n ∙ onto c (replace-half s))
]

no_slash-strip : (s : String) → no_slash s ≡ true → no_slash (strip s) ≡ true
unfolding strip
no_slash-strip s h = no_slash-lstrip is_space (rstrip s) (no_slash-rstrip s h)

ne_slash : (s : String) → no_slash s ≡ true → (s == "/") ≡ false
unfolding no_slash is_char
ne_slash s h = elim (text_cases s "/") [
  | inl (e, same) ↦ let k : false ≡ true = ap no_slash (sym same) ∙ h in cc
  | inr (e, differ) ↦ e
]

not_ended :
    (t : String) → no_slash t ≡ true → (not (t == "") && ends_with slash (String.◌∷◌ "/" t)) ≡ false
unfolding ends_with
not_ended String.[] h = refl
not_ended (String.◌∷◌ c t) h = let k = ends_with-no_slash (String.◌∷◌ c t) h in ground arith

-- The pointer of an escaped name passes the checks.
validate_json_pointer-escape :
    (t : String)
    → no_slash t ≡ true
    → has_bad_escape (String.◌∷◌ "/" t) ≡ false
    → validate_json_pointer (String.◌∷◌ "/" t) ≡ ok tt
unfolding validate_json_pointer
validate_json_pointer-escape t h k =
    rw (has_adjacent-no_slash t h, not_ended t h, ne_slash (strip t) (no_slash-strip t h), k) refl

-- A name that has no white space around it is what its pointer decodes to.
pub decode_json_pointer-escape :
    (s : String) → strip s ≡ s → decode_json_pointer (String.◌∷◌ "/" (escape s)) ≡ ok (s ∷ [])
unfolding decode_json_pointer
decode_json_pointer-escape s h =
    let t : String = escape s in
    let plain : no_slash t ≡ true = no_slash-escape s in
    let passes : validate_json_pointer (String.◌∷◌ "/" t) ≡ ok tt =
      validate_json_pointer-escape t plain (has_bad_escape-escape "/" s refl) in
    let pieces : split (lstrip (is_char slash) t) ≡ t ∷ [] =
      ap split (lstrip-no_slash t plain) ∙ split-no_slash t plain in
    let part : decode_part t ≡ s =
      ap (λ u. strip (replace b'0' "~" u)) (replace-escape s) ∙ ap strip (replace-half s) ∙ h in
    ap (λ m. m >>= λ _. ok (map decode_part (split (lstrip (is_char slash) t)))) passes
    ∙ ap (λ l. ok (map decode_part l)) pieces
    ∙ ap (λ u. ok (u ∷ [])) part

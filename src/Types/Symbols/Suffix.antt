-- ===== src/Types/Symbols/Suffix.antt =====
-- The comparison of two chains from their ends on.
use murano_temp.Base.{
  Bool-cases, List, [], ap, ap₂, arith, if◌then◌else◌, inl, inr, length, length-reverse, refl, suc,
  sym, true, ◌++◌, ◌==◌, ◌↔◌, ◌∙◌, ◌∷◌, ◌≡◌,
}
use murano_temp.Base.Equality.{Equality}
use murano_temp.Base.Num.{==_iff}
use murano_temp.Types.Symbols.{common, is_covered}
use mathlib.Core.List.{Memᴰ, reverse, reverse-append, reverse-reverse}
use mathlib.Core.List.Memᴰ
use mathlib.Core.Path.{subst}

-- The chain `d` ends with the chain `c`.
abbrev pub Extends : {S : Type 0} → List S → List S → Type 0
Extends {S} d c = (front : List S) × (d ≡ front ++ c)

module _ {S : Type 0} (identity : Equality S) where
  common-fore : (xs ys : List S) → common identity xs ys ≡ length xs → (t : List S) × (ys ≡ xs ++ t)
  unfolding common
  common-fore [] ys h = (ys, refl)
  common-fore (x ∷ xs) [] h = absurd (omega arith)
  common-fore (x ∷ xs) (y ∷ ys) h = elim (Bool-cases (identity.eq x y)) [
    | inl e ↦
        let h' : suc (common identity xs ys) ≡ suc (length xs) =
          subst (λ b. (if b then suc (common identity xs ys) else 0) ≡ suc (length xs)) e h in
        let (t, e') = common-fore xs ys (omega arith) in
        (t, ap₂ (λ a l. a ∷ l) (sym ((identity.eq_iff x y).0 e)) e')
    | inr n ↦
        let h' : 0 ≡ suc (length xs) =
          subst (λ b. (if b then suc (common identity xs ys) else 0) ≡ suc (length xs)) n h in
        absurd (omega arith)
  ]

  common-append : (xs t : List S) → common identity xs (xs ++ t) ≡ length xs
  unfolding common
  common-append [] t = refl
  common-append (x ∷ xs) t = rw ((identity.eq_iff x x).1 refl) (ap suc (common-append xs t))

  pub ends_with_iff :
      (c d : List S)
      → (murano_temp.Base.Num.◌==◌ (common identity (reverse c) (reverse d)) (length c) ≡ true)
        ↔ Extends d c
  ends_with_iff c d = (
    λ h.
        let e : common identity (reverse c) (reverse d) ≡ length c =
          (murano_temp.Base.Num.==_iff _ _).0 h in
        let (t, e') = common-fore (reverse c) (reverse d) (e ∙ sym (length-reverse c)) in
        (
          reverse t,
          sym (reverse-reverse d)
              ∙ ap reverse e'
              ∙ reverse-append (reverse c) t
              ∙ ap (λ l. reverse t ++ l) (reverse-reverse c),
        ),
    λ x. (murano_temp.Base.Num.==_iff _ _).1 (
        ap (λ l. common identity (reverse c) l) (ap reverse x.1 ∙ reverse-append x.0 c)
        ∙ common-append (reverse c) (reverse x.0)
        ∙ length-reverse c),
  )

  pub is_covered-fore :
      (c : List S) (later : List (List S))
      → is_covered identity c later ≡ true
      → (d : List S) × Memᴰ d later × Extends d c
  unfolding is_covered
  is_covered-fore c [] h = cc
  is_covered-fore c (d ∷ later) h =
      elim (Bool-cases
        (murano_temp.Base.Num.◌==◌ (common identity (reverse c) (reverse d)) (length c))) [
          | inl e ↦ (d, Memᴰ.head refl, (ends_with_iff c d).0 e)
          | inr n ↦
              let (x, at, ext) = is_covered-fore c later (ground arith) in (x, Memᴰ.tail at, ext)
        ]

  pub is_covered-back :
      (c d : List S) (later : List (List S))
      → Memᴰ d later
      → Extends d c
      → is_covered identity c later ≡ true
  unfolding is_covered
  is_covered-back c d [] m x = absurd (Memᴰ.not-nil m)
  is_covered-back c d (e ∷ later) m x = elim (Memᴰ.cases_cons m) [
    | inl i ↦
        let y : murano_temp.Base.Num.◌==◌ (common identity (reverse c) (reverse e)) (length c)
            ≡ true =
          (ends_with_iff c e).1 (subst (λ l. Extends l c) i x) in
        ground arith
    | inr k ↦ let y = is_covered-back c d later k x in ground arith
  ]

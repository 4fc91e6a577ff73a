-- ===== src/Types/Symbols/Chosen.antt =====
-- Which symbols `_choose_symbol` returns: the first ones of the chains with which no other chain ends.
use murano_temp.Base.{
  Bool, List, List-cases, Option, [], arith, false, if◌then◌else◌, inl, inr, refl, some, sym, true,
  ◌++◌, ◌||◌, ◌↔◌, ◌∷◌, ◌≡◌, ◌≢◌,
}
use murano_temp.Base.Equality.{Equality}
use murano_temp.Types.{Class}
use murano_temp.Types.Symbols.{choose_loop, choose_symbol, is_covered, member, sort_by_len}
use murano_temp.Types.Symbols.Chains.{Line, find_symbol_chains-Line}
use murano_temp.Types.Symbols.Kept.{
  Kept, Kept-Maximal, Kept-in, Kept-last, Maximal, Maximal-Kept, choose_loop-back, choose_loop-fore,
}
use murano_temp.Types.Symbols.Sorted.{sort_by_len-Ascending, sort_by_len-in}
use murano_temp.Types.Symbols.Suffix.{Extends}
use mathlib.Core.Path.{subst}
use mathlib.Core.List.{Memᴰ}
use mathlib.Core.List.Memᴰ

-- No item stands in the list twice.
abbrev pub Distinct {ℓ} : {S : Type ℓ} → List S → Type ℓ
Distinct [] = Unit
Distinct (s ∷ ss) = ¬ Memᴰ s ss × Distinct ss

module _ {S : Type 0} (identity : Equality S) where
  pub member-back : (s : S) (ts : List S) → Memᴰ s ts → member identity s ts ≡ true
  unfolding member
  member-back s [] m = absurd (Memᴰ.not-nil m)
  member-back s (t ∷ ts) m = elim (Memᴰ.cases_cons m) [
    | inl i ↦ let e = (identity.eq_iff t s).1 (sym i) in ground arith
    | inr k ↦ let e = member-back s ts k in ground arith
  ]

  Distinct-append :
      (result : List S) (u : S)
      → Distinct result
      → member identity u result ≡ false
      → Distinct (result ++ (u ∷ []))
  unfolding member
  Distinct-append [] u d h = (λ m. Memᴰ.not-nil m, tt)
  Distinct-append (s ∷ result) u (fresh, d) h = (
    λ m. elim (Memᴰ.append_cases result m) [
      | inl k ↦ fresh k
      | inr k ↦ let e = (identity.eq_iff s u).1 (Memᴰ.eq_of_singleton k) in absurd (ground arith)
    ],
    Distinct-append result u d (ground (arith, h)),
  )

  Distinct-if :
      (b c : Bool) (u : S) (result : List S)
      → Distinct result
      → member identity u result ≡ b
      → Distinct (if b || c then result else result ++ (u ∷ []))
  Distinct-if true c u result d h = d
  Distinct-if false true u result d h = d
  Distinct-if false false u result d h = Distinct-append result u d h

  choose_loop-Distinct :
      (l : List (List S)) (result : List S)
      → Distinct result
      → Distinct (choose_loop identity l result)
  unfolding choose_loop
  choose_loop-Distinct [] result d = d
  choose_loop-Distinct ([] ∷ later) result d = choose_loop-Distinct later result d
  choose_loop-Distinct ((u ∷ c) ∷ later) result d =
      choose_loop-Distinct later _
        (Distinct-if _ (is_covered identity (u ∷ c) later) u result d refl)

-- The first symbol of a line of the class with which no other line ends.
abbrev pub Leads : {S : Type 0} → (Class → Option S) → Class → S → Type 0
Leads {S} func cls s =
    (t : List S) × Line func cls (s ∷ t)
    × ((d : List S) → Line func cls d → Extends d (s ∷ t) → d ≡ s ∷ t)

Extends-ne-nil : {S : Type 0} (d front t : List S) (s : S) → d ≡ front ++ (s ∷ t) → d ≢ []
Extends-ne-nil d [] t s e n = cc
Extends-ne-nil d (x ∷ front) t s e n = cc

-- In any order, the chains that are kept are those of the lines that lead.
kept-Leads :
    {S : Type 0} (identity : Equality S) (func : Class → Option S) (cls : Class) (l : List (List S))
    → ((c : List S) → Memᴰ c l ↔ (Line func cls c × (c ≢ [])))
    → (s : S) → Memᴰ s (choose_loop identity (sort_by_len l) []) ↔ Leads func cls s
unfolding Maximal
kept-Leads identity func cls l same s = (
  λ m. elim (choose_loop-fore identity (sort_by_len l) [] s m) [
    | inl k ↦ absurd (Memᴰ.not-nil k)
    | inr (t, k) ↦ (
      t,
      ((same (s ∷ t)).0 ((sort_by_len-in (s ∷ t) l).0 (Kept-in identity k))).0,
      λ d line x.
          Kept-Maximal identity (sort_by_len-Ascending l) k d
            ((sort_by_len-in d l).1 ((same d).1 (line, Extends-ne-nil d x.0 t s x.1))) x,
    )
  ],
  λ leads.
      let (t, line, only) = leads in
      choose_loop-back identity (sort_by_len l) [] s t (
        Maximal-Kept identity (sort_by_len l) (s ∷ t)
          ((sort_by_len-in (s ∷ t) l).1 ((same (s ∷ t)).1 (line, λ n. cc)))
          (λ d m x. only d ((same d).0 ((sort_by_len-in d l).0 m)).0 x)),
)

-- A symbol is looked for along the lines from a class up to the classes without parents: the search
-- ends, and finds, each once, exactly the symbols that lead a line with which no other line ends.
pub choose_symbol-Leads :
    {S : Type 0} (identity : Equality S) (func : Class → Option S) (cls : Class)
    → (r : List S) × (choose_symbol identity func cls ≡ some r)
      × Distinct r
      × ((s : S) → Memᴰ s r ↔ Leads func cls s)
unfolding choose_symbol
choose_symbol-Leads identity func cls =
    let (l, ran, same) = find_symbol_chains-Line func cls in
    (
      choose_loop identity (sort_by_len l) [],
      rw ran refl,
      choose_loop-Distinct identity (sort_by_len l) [] tt,
      kept-Leads identity func cls l same,
    )

-- A class with a line that is not empty has a symbol that leads one.
pub Line-Leads :
    {S : Type 0} (identity : Equality S) (func : Class → Option S) (cls : Class) (c : List S)
    → Line func cls c
    → c ≢ []
    → (s : S) × Leads func cls s
Line-Leads identity func cls c line n =
    let (l, ran, same) = find_symbol_chains-Line func cls in
    let at : Memᴰ c (sort_by_len l) = (sort_by_len-in c l).1 ((same c).1 (line, n)) in
    elim (List-cases (sort_by_len l)) [
      | inl e ↦ absurd (Memᴰ.not-nil (subst (λ m. Memᴰ c m) e at))
      | inr (d, rest, e) ↦
          let (k, kept) = Kept-last identity d rest in
          let kept' : Kept identity (sort_by_len l) k =
            subst (λ m. Kept identity m k) (sym e) kept in
          let (line', n') = (same k).0 ((sort_by_len-in k l).0 (Kept-in identity kept')) in
          elim (List-cases k) [
            | inl e' ↦ absurd (n' e')
            | inr (s, t, e') ↦ (
              s,
              (kept-Leads identity func cls l same s).0 (
                  choose_loop-back identity (sort_by_len l) [] s t
                    (subst (λ m. Kept identity (sort_by_len l) m) e' kept')),
            )
          ]
    ]

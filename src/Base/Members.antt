-- ===== src/Base/Members.antt =====
-- The items of a filtered list, and those that `find` returns.
use mathlib.Core.Path.{◌≡◌, refl, sym, ap, ◌∙◌}
use mathlib.Core.Logic.{◌↔◌, inl, inr}
use mathlib.Core.Bool.{Bool, true, false, not}
use mathlib.Core.Option.{some}
use mathlib.Core.List.{List, [], ◌∷◌, Memᴰ}
use mathlib.Core.List.Memᴰ
use native.Mathlib.Omega.{arith}
use murano_temp.Base.Lists.{filter, find, update_where}
use murano_temp.Base.Tests.{Bool-cases}

pub in_filter {ℓ} :
    {A : Type ℓ} (predicate : A → Bool) (m : A) (l : List A)
    → Memᴰ m (filter predicate l) ↔ (Memᴰ m l × (predicate m ≡ true))
unfolding filter
in_filter predicate m [] = (λ k. absurd (Memᴰ.not-nil k), λ s. s.0)
in_filter predicate m (x ∷ l) = elim (Bool-cases (predicate x)) [
  | inl y ↦
      let (fore, back) = in_filter predicate m l in
      rw y (
        λ k. elim (Memᴰ.cases_cons k) [
          | inl e ↦ (Memᴰ.head e, ap predicate e ∙ y)
          | inr k' ↦ let s = fore k' in (Memᴰ.tail s.0, s.1)
        ],
        λ s. elim (Memᴰ.cases_cons s.0) [ inl e ↦ Memᴰ.head e | inr k ↦ Memᴰ.tail (back (k, s.1)) ],
      )
  | inr n ↦
      let (fore, back) = in_filter predicate m l in
      rw n (
        λ k. let s = fore k in (Memᴰ.tail s.0, s.1),
        λ s. elim (Memᴰ.cases_cons s.0) [
          | inl e ↦ let k : true ≡ false = sym s.1 ∙ ap predicate e ∙ n in absurd cc
          | inr k ↦ back (k, s.1)
        ],
      )
]

pub find-Memᴰ {ℓ} : {A : Type ℓ} (q : A → Bool) (l : List A) (a : A) → find q l ≡ some a → Memᴰ a l
unfolding find
find-Memᴰ q [] a e = cc
find-Memᴰ q (x ∷ l) a e = elim (Bool-cases (q x)) [
  | inl y ↦ Memᴰ.head (ground arith)
  | inr n ↦ Memᴰ.tail (find-Memᴰ q l a (ground arith))
]

-- An update of the items that the filter drops.
pub filter-update_where {ℓ} :
    {A : Type ℓ} (q : A → Bool) (f : A → A) (l : List A)
    → ((x : A) → q (f x) ≡ q x)
    → filter (λ x. not (q x)) (update_where q f l) ≡ filter (λ x. not (q x)) l
unfolding filter update_where
filter-update_where q f [] h = refl
filter-update_where q f (x ∷ l) h = elim (Bool-cases (q x)) [
  | inl y ↦ rw (y, h x, y, filter-update_where q f l h) refl
  | inr n ↦ rw (n, n, filter-update_where q f l h) refl
]

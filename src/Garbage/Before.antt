-- ===== src/Garbage/Before.antt =====
-- Which item comes before which, and how often one comes, in lists that are put together.
use murano_temp.Base.{List, [], inl, inr, sym, ◌++◌, ◌∷◌, ◌≡◌, ◌⊎◌}
use mathlib.Core.List.{Memᴰ, reverse, reverse-cons}
use mathlib.Core.List.Memᴰ

module _ {A : Type 0} where
  abbrev pub Before : A → A → List A → Type 0
  Before x y [] = ⊥
  Before x y (z ∷ l) = (z ≡ x) × Memᴰ y l ⊎ Before x y l

  pub Before-append : (x y : A) (l m : List A) → Memᴰ x l → Memᴰ y m → Before x y (l ++ m)
  Before-append x y [] m at at' = absurd (Memᴰ.not-nil at)
  Before-append x y (z ∷ l) m at at' = elim (Memᴰ.cases_cons at) [
    | inl i ↦ inl (sym i, Memᴰ.append_right l at')
    | inr k ↦ inr (Before-append x y l m k at')
  ]

  pub Before-append_right : (x y : A) (l m : List A) → Before x y m → Before x y (l ++ m)
  Before-append_right x y [] m b = b
  Before-append_right x y (z ∷ l) m b = inr (Before-append_right x y l m b)

  Before-append_left : (x y : A) (l m : List A) → Before x y l → Before x y (l ++ m)
  Before-append_left x y [] m b = absurd b
  Before-append_left x y (z ∷ l) m (inl (i, at)) = inl (i, Memᴰ.append_left m at)
  Before-append_left x y (z ∷ l) m (inr b) = inr (Before-append_left x y l m b)

  pub Memᴰ-reverse : (x : A) (l : List A) → Memᴰ x l → Memᴰ x (reverse l)
  Memᴰ-reverse x [] at = absurd (Memᴰ.not-nil at)
  Memᴰ-reverse x (z ∷ l) at = rw (reverse-cons z l) (elim (Memᴰ.cases_cons at) [
    | inl i ↦ Memᴰ.append_right (reverse l) (Memᴰ.head i)
    | inr k ↦ Memᴰ.append_left (z ∷ []) (Memᴰ-reverse x l k)
  ])

  pub Before-reverse : (x y : A) (l : List A) → Before x y l → Before y x (reverse l)
  Before-reverse x y [] b = absurd b
  Before-reverse x y (z ∷ l) (inl (i, at)) =
      rw (reverse-cons z l)
        (Before-append y x (reverse l) (z ∷ []) (Memᴰ-reverse y l at) (Memᴰ.head (sym i)))
  Before-reverse x y (z ∷ l) (inr b) =
      rw (reverse-cons z l) (Before-append_left y x (reverse l) (z ∷ []) (Before-reverse x y l b))

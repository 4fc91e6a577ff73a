-- ===== src/Types/Ancestors/Ends.antt =====
-- The loop of `traverse` ends, over items that produce less than they weigh.
use murano_temp.Base.{
  Bool, Bool-cases, List, [], arith, false, inl, inr, refl, some, suc, true, zero, ℕ, ◌++◌, ◌+◌,
  ◌<◌, ◌∷◌, ◌≡◌,
}
use murano_temp.Types.Ancestors.{traverse_loop, visits}
use murano_temp.Types.Ancestors.Visits.{Yields, Yields-nil, Yields-skip, Yields-visit}
use mathlib.Core.List.{Memᴰ}

module _ {A : Type 0} (same : A → A → Bool) (producer : A → List A)
    (reflexive : (a : A) → same a a ≡ true) (weight_of : A → ℕ) where
  unfoldable pub load : List A → ℕ
  load [] = 0
  load (x ∷ xs) = weight_of x + load xs

  load-append : (l m : List A) → load (l ++ m) ≡ load l + load m
  unfolding load
  load-append [] m = omega arith
  load-append (x ∷ l) m = omega (arith, load-append l m)

  -- No item stands before one that is the same.
  abbrev pub Apart : List A → Type 0
  Apart [] = Unit
  Apart (x ∷ xs) = ((y : A) → Memᴰ y xs → same x y ≡ false) × Apart xs

  pub traverse_loop-Yields :
      ((x : A) → load (producer x) < weight_of x)
      → (fuel : ℕ) (queue visited : List A) → load queue < fuel
      → (r : List A) × (traverse_loop same producer fuel queue visited ≡ some r)
        × Yields same producer queue visited r
        × Apart r
  unfolding traverse_loop load
  traverse_loop-Yields less zero queue visited h = absurd (omega arith)
  traverse_loop-Yields less (suc fuel) [] visited h =
      ([], refl, Yields-nil same producer visited, tt)
  traverse_loop-Yields less (suc fuel) (x ∷ queue) visited h =
      elim (Bool-cases (visits same producer x visited)) [
        | inl e ↦
            let k : load queue < fuel = let l = less x in omega arith in
            let (r, ran, yields, apart) = traverse_loop-Yields less fuel queue visited k in
            (
              r,
              rw (e, traverse_loop) ran,
              Yields-skip same producer x queue visited r e yields,
              apart,
            )
        | inr n ↦
            let k : load (queue ++ producer x) < fuel =
              let l = less x in omega (arith, load-append queue (producer x)) in
            let (r, ran, yields, apart) =
              traverse_loop-Yields less fuel (queue ++ producer x) (x ∷ visited) k in
            (
              x ∷ r,
              rw (n, traverse_loop, ran) refl,
              Yields-visit same producer reflexive x queue visited r n yields,
              ((λ y m. yields.fresh y x m (Memᴰ.head refl)), apart),
            )
      ]

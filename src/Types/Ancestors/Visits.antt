-- ===== src/Types/Ancestors/Visits.antt =====
-- What the loop of `traverse` yields.
use murano_temp.Base.{
  Bool, Bool-cases, List, [], arith, false, inl, inr, refl, suc, sym, true, ℕ, ◌++◌, ◌∷◌, ◌≡◌, ◌⊎◌,
}
use murano_temp.Types.Ancestors.{traverse_loop, visits}
use murano_temp.Types.Symbols.{map_option}
use mathlib.Core.List.{Memᴰ}
use mathlib.Core.List.Memᴰ
use mathlib.Core.Path.{subst}

module _ {A : Type 0} (same : A → A → Bool) (producer : A → List A) where
  -- The item is the first one, or produced by an item that is reached.
  pub data Reached (x : A) : A → Type 0 where
    origin : Reached x x
    produced : {y z : A} → Reached x y → Memᴰ z (producer y) → Reached x z

  Reached-before : {x y z : A} → Memᴰ y (producer x) → Reached y z → Reached x z
  Reached-before m origin = produced origin m
  Reached-before m (produced k at) = produced (Reached-before m k) at

  -- An item of one of the lists is the same.
  abbrev pub Covered : A → List A → List A → Type 0
  Covered q visited r = (y : A) × (Memᴰ y visited ⊎ Memᴰ y r) × (same y q ≡ true)

  pub visits-fore :
      (x : A) (l : List A)
      → visits same producer x l ≡ true
      → (y : A) × Memᴰ y l × (same y x ≡ true)
  unfolding visits
  visits-fore x [] h = cc
  visits-fore x (y ∷ l) h = elim (Bool-cases (same y x)) [
    | inl e ↦ (y, Memᴰ.head refl, e)
    | inr n ↦ let (z, at, e) = visits-fore x l (ground arith) in (z, Memᴰ.tail at, e)
  ]

  pub visits-back :
      (x y : A) (l : List A) → Memᴰ y l → same y x ≡ true → visits same producer x l ≡ true
  unfolding visits
  visits-back x y [] m h = absurd (Memᴰ.not-nil m)
  visits-back x y (z ∷ l) m h = elim (Memᴰ.cases_cons m) [
    | inl i ↦ let h' : same z x ≡ true = subst (λ w. same w x ≡ true) i h in ground arith
    | inr k ↦ let h' = visits-back x y l k h in ground arith
  ]

  -- What the items that are yielded have in common with the queue and with those that were visited.
  pub record Yields (queue visited r : List A) : Type 0 where
    pub covers : (q : A) → Memᴰ q queue → Covered q visited r
    pub closed : (x p : A) → Memᴰ x r → Memᴰ p (producer x) → Covered p visited r
    pub sound : (x : A) → Memᴰ x r → (q : A) × Memᴰ q queue × Reached q x
    pub fresh : (x y : A) → Memᴰ x r → Memᴰ y visited → same y x ≡ false

  pub Yields-nil : (visited : List A) → Yields [] visited []
  Yields-nil visited = record {
    covers = λ q m. absurd (Memᴰ.not-nil m);
    closed = λ x p m. absurd (Memᴰ.not-nil m);
    sound = λ x m. absurd (Memᴰ.not-nil m);
    fresh = λ x y m. absurd (Memᴰ.not-nil m);
  }

  -- An item that was visited is passed over.
  pub Yields-skip :
      (x : A) (queue visited r : List A)
      → visits same producer x visited ≡ true
      → Yields queue visited r
      → Yields (x ∷ queue) visited r
  Yields-skip x queue visited r h y = record {
    covers = λ q m. elim (Memᴰ.cases_cons m) [
      | inl i ↦
          let (z, at, e) = visits-fore x visited h in
          (z, inl at, subst (λ w. same z w ≡ true) (sym i) e)
      | inr k ↦ y.covers q k
    ];
    closed = y.closed;
    sound = λ z m. let (q, at, k) = y.sound z m in (q, Memᴰ.tail at, k);
    fresh = y.fresh;
  }

  moved : {q x : A} {visited r : List A} → Covered q (x ∷ visited) r → Covered q visited (x ∷ r)
  moved (y, inl m, e) =
      (y, elim (Memᴰ.cases_cons m) [ inl i ↦ inr (Memᴰ.head i) | inr k ↦ inl k ], e)
  moved (y, inr m, e) = (y, inr (Memᴰ.tail m), e)

  pub Yields-visit :
      ((a : A) → same a a ≡ true)
      → (x : A) (queue visited r : List A) → visits same producer x visited ≡ false
      → Yields (queue ++ producer x) (x ∷ visited) r
      → Yields (x ∷ queue) visited (x ∷ r)
  Yields-visit reflexive x queue visited r h y = record {
    covers = λ q m. elim (Memᴰ.cases_cons m) [
      | inl i ↦ (x, inr (Memᴰ.head refl), subst (λ w. same x w ≡ true) (sym i) (reflexive x))
      | inr k ↦ moved (y.covers q (Memᴰ.append_left (producer x) k))
    ];
    closed = λ z p m at. elim (Memᴰ.cases_cons m) [
      | inl i ↦ moved (y.covers p (Memᴰ.append_right queue (subst (λ w. Memᴰ p (producer w)) i at)))
      | inr k ↦ moved (y.closed z p k at)
    ];
    sound = λ z m. elim (Memᴰ.cases_cons m) [
      | inl i ↦ (x, Memᴰ.head refl, subst (λ w. Reached x w) (sym i) origin)
      | inr k ↦
          let (q, at, way) = y.sound z k in
          elim (Memᴰ.append_cases queue at) [
            | inl at' ↦ (q, Memᴰ.tail at', way)
            | inr at' ↦ (x, Memᴰ.head refl, Reached-before at' way)
          ]
    ];
    fresh = λ z v m at. elim (Memᴰ.cases_cons m) [
      | inl i ↦ elim (Bool-cases (same v z)) [
        | inl e ↦ let e' = visits-back x v visited at (subst (λ w. same v w ≡ true) i e) in cc
        | inr n ↦ n
      ]
      | inr k ↦ y.fresh z v k (Memᴰ.tail at)
    ];
  }

  -- A turn of the loop.
  pub traverse_loop-skip :
      (fuel : ℕ) (x : A) (queue visited : List A)
      → visits same producer x visited ≡ true
      → traverse_loop same producer (suc fuel) (x ∷ queue) visited
        ≡ traverse_loop same producer fuel queue visited
  unfolding traverse_loop
  traverse_loop-skip fuel x queue visited h = rw (h, traverse_loop) refl

  pub traverse_loop-visit :
      (fuel : ℕ) (x : A) (queue visited : List A)
      → visits same producer x visited ≡ false
      → traverse_loop same producer (suc fuel) (x ∷ queue) visited
        ≡ map_option
            (λ r. x ∷ r)
            (traverse_loop same producer fuel (queue ++ producer x) (x ∷ visited))
  unfolding traverse_loop
  traverse_loop-visit fuel x queue visited h = rw (h, traverse_loop) refl

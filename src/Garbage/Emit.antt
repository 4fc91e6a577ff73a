-- ===== src/Garbage/Emit.antt =====
-- What the yield of an object does to the marks.
use murano_temp.Base.{
  Bool-cases, List, Option, [], ap, arith, count, false, inl, inr, refl, some, suc, sym, ℕ, ◌++◌,
  ◌+◌, ◌∙◌, ◌∷◌, ◌≡◌, ◌≤◌, ◌⊎◌,
}
use murano_temp.Base.Equality.{Equality}
use murano_temp.Garbage.Marks.{IsOrdered, Later, Settled}
use murano_temp.Garbage.Topological.{Marks, emit}
use murano_temp.Traverse.Edit.{last}
use mathlib.Core.List.{Memᴰ}
use mathlib.Core.List.Memᴰ
use mathlib.Core.Path.{subst}

module _ {N : Type 0} (e : Equality N) (graph : N → Option (List N)) where
  abbrev pub times : N → List (N × ℕ) → ℕ
  times x l = count (λ p. e.eq x p.0) l

  pub times-append : (x : N) (l m : List (N × ℕ)) → times x (l ++ m) ≡ times x l + times x m
  unfolding count
  times-append x [] m = omega arith
  times-append x (p ∷ l) m = omega (arith, times-append x l m)

  pub times-none : (x : N) (l : List (N × ℕ)) → ((k : ℕ) → ¬ Memᴰ (x, k) l) → times x l ≡ 0
  unfolding count
  times-none x [] h = refl
  times-none x ((y, k) ∷ l) h = elim (Bool-cases (e.eq x y)) [
    | inl i ↦ absurd (h k (Memᴰ.head (ap (λ z. (z, k)) ((e.eq_iff x y).0 i))))
    | inr n ↦ rw n (omega (arith, times-none x l (λ j m. h j (Memᴰ.tail m))))
  ]

  pub times-some : (x : N) (k : ℕ) (l : List (N × ℕ)) → Memᴰ (x, k) l → 1 ≤ times x l
  unfolding count
  times-some x k [] m = absurd (Memᴰ.not-nil m)
  times-some x k (p ∷ l) m = elim (Memᴰ.cases_cons m) [
    | inl i ↦ rw ((e.eq_iff x p.0).1 (ap (λ q. q.0) i)) (omega arith)
    | inr t ↦ omega (arith, times-some x k l t)
  ]

  pub times-place : (x : N) (l : List (N × ℕ)) → 1 ≤ times x l → (k : ℕ) × Memᴰ (x, k) l
  unfolding count
  times-place x [] h = absurd (omega arith)
  times-place x ((y, k) ∷ l) h = elim (Bool-cases (e.eq x y)) [
    | inl i ↦ (k, Memᴰ.head (ap (λ z. (z, k)) ((e.eq_iff x y).0 i)))
    | inr n ↦
        let h' = rw n at h in let (j, at) = times-place x l (omega (arith, h')) in (j, Memᴰ.tail at)
  ]

  module _ (x : N) (m : ℕ) (s : Marks N) (new : ¬ Settled e graph x s) where
    emitted :
        (y : N) (k : ℕ)
        → Memᴰ (y, k) (emit e x m s).yielded
        → Memᴰ (y, k) s.yielded ⊎ (y ≡ x) × (k ≡ m + 1)
    unfolding emit
    emitted y k at = elim (Memᴰ.append_cases s.yielded at) [
      | inl old ↦ inl old
      | inr last ↦ let i = Memᴰ.eq_of_singleton last in inr (ap (λ p. p.0) i, ap (λ p. p.1) i)
    ]

    other : (y : N) → Settled e graph y s → e.eq x y ≡ false
    other y d = elim (Bool-cases (e.eq x y)) [
      | inl i ↦ absurd (new (subst (λ z. Settled e graph z s) (sym ((e.eq_iff x y).0 i)) d))
      | inr n ↦ n
    ]

    same_index : (y : N) → Settled e graph y s → (emit e x m s).indexes y ≡ s.indexes y
    unfolding emit
    same_index y d = rw (other y d) refl

    pub emit-Later : (rank : N → ℕ) → Later e graph rank (suc (rank x)) s (emit e x m s)
    unfolding emit
    emit-Later rank = record {
      frame = λ y h. elim (Bool-cases (e.eq x y)) [
        | inl i ↦ absurd (omega (arith, ap rank ((e.eq_iff x y).0 i)))
        | inr n ↦ rw n refl
      ];
      kept = λ p at. Memᴰ.append_left ((x, m + 1) ∷ []) at;
      fixed = λ y d. same_index y d;
    }

    stays : (y : N) → Settled e graph y s → Settled e graph y (emit e x m s)
    unfolding emit
    stays y (inl out) = inl out
    stays y (inr (k, at)) = inr (k, Memᴰ.append_left ((x, m + 1) ∷ []) at)

    own_marks : (emit e x m s).indexes x ≡ m + 1
    unfolding emit
    own_marks = rw ((e.eq_iff x x).1 refl) refl

    own_visits : (emit e x m s).visited x ≡ s.visited x + 1
    unfolding emit
    own_visits = rw ((e.eq_iff x x).1 refl) refl

    old_visits : (y : N) → Settled e graph y s → (emit e x m s).visited y ≡ s.visited y
    unfolding emit
    old_visits y d = rw (other y d) refl

    pub emit_visited : (y : N) → e.eq x y ≡ false → (emit e x m s).visited y ≡ s.visited y
    unfolding emit
    emit_visited y n = rw n refl

    pub emit-once : ((y : N) → times y s.yielded ≤ 1) → (y : N) → times y (emit e x m s).yielded ≤ 1
    unfolding emit count
    emit-once h y = rw (times-append y s.yielded ((x, m + 1) ∷ [])) (elim (Bool-cases (e.eq y x)) [
      | inl i ↦
          let none_of = times-none x s.yielded (λ k at. new (inr (k, at))) in
          let none_yet : times y s.yielded ≡ 0 =
            subst (λ z. times z s.yielded ≡ 0) (sym ((e.eq_iff y x).0 i)) none_of in
          rw i (omega arith)
      | inr n ↦ rw n (omega (arith, h y))
    ])

    pub emit-IsOrdered :
        (xs : List N)
        → graph x ≡ some xs
        → 1 ≤ s.visited x
        → ((y : N) → Memᴰ y xs → (s.indexes y ≤ m) × Settled e graph y s)
        → IsOrdered e graph s
        → IsOrdered e graph (emit e x m s)
    emit-IsOrdered xs g v below o = record {
      placed = λ y k at. elim (emitted y k at) [
        | inl old ↦
            let (i, w) = o.placed y k old in
            (same_index y (inr (k, old)) ∙ i, omega (arith, old_visits y (inr (k, old))))
        | inr (i, j) ↦
            subst (λ z. ((emit e x m s).indexes z ≡ k) × (2 ≤ (emit e x m s).visited z)) (sym i)
              (own_marks ∙ sym j, omega (arith, own_visits))
      ];
      listed = λ y k at. elim (emitted y k at) [
        | inl old ↦ o.listed y k old
        | inr (i, _) ↦ λ out. let g' = ap graph i in cc
      ];
      above = λ y k ys z at h in_ys. elim (emitted y k at) [
        | inl old ↦
            let (b, d) = o.above y k ys z old h in_ys in (omega (arith, same_index z d), stays z d)
        | inr (i, j) ↦
            let g' = ap graph i in
            let same : ys ≡ xs = cc in
            let (b, d) = below z (subst (λ l. Memᴰ z l) same in_ys) in
            (omega (arith, same_index z d), stays z d)
      ];
      once = emit-once o.once;
    }

    pub emit-Settled : Settled e graph x (emit e x m s)
    unfolding emit
    emit-Settled = inr (m + 1, Memᴰ.append_right s.yielded (Memᴰ.head refl))

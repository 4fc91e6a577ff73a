-- ===== src/Garbage/Grouped.antt =====
-- The groups in the order of their keys hold what was grouped, in that order.
use murano_temp.Base.{
  count-append, Bool, Bool-cases, List, [], ap, arith, count, false, if◌then◌else◌, inl, inr, refl,
  sym, true, ℕ, ◌+◌, ◌<◌, ◌∷◌, ◌≡◌, ◌⊎◌,
}
use murano_temp.Base.Num.{==_iff, ltb, ltb→lt, ◌==◌}
use murano_temp.Garbage.Before.{Before, Before-append, Before-append_right}
use murano_temp.Garbage.Groups.{gather, group, insert_key, sorted_keys}
use mathlib.Core.List.{Memᴰ}
use mathlib.Core.List.Memᴰ
use mathlib.Core.Path.{subst}

abbrev pub Ascending : List ℕ → Type 0
Ascending [] = Unit
Ascending (k ∷ ks) = ((j : ℕ) → Memᴰ j ks → k < j) × Ascending ks

in_insert_key : (i k : ℕ) (ks : List ℕ) → Memᴰ i (insert_key k ks) → (i ≡ k) ⊎ Memᴰ i ks
unfolding insert_key
in_insert_key i k [] at = inl (Memᴰ.eq_of_singleton at)
in_insert_key i k (j ∷ js) at = elim (Bool-cases (k == j)) [
  | inl same ↦ inr (rw (same, insert_key) at at)
  | inr other ↦ elim (Bool-cases (ltb k j)) [
    | inl low ↦ Memᴰ.cases_cons (rw (other, low) at at)
    | inr high ↦ elim (Memᴰ.cases_cons (rw (other, high) at at)) [
      | inl i ↦ inr (Memᴰ.head i)
      | inr t ↦ elim (in_insert_key i k js t) [ inl e ↦ inl e | inr t' ↦ inr (Memᴰ.tail t') ]
    ]
  ]
]

insert_key_has : (k : ℕ) (ks : List ℕ) → Memᴰ k (insert_key k ks)
unfolding insert_key
insert_key_has k [] = Memᴰ.head refl
insert_key_has k (j ∷ js) = elim (Bool-cases (k == j)) [
  | inl same ↦ rw same (Memᴰ.head ((==_iff k j).0 same))
  | inr other ↦ elim (Bool-cases (ltb k j)) [
    | inl low ↦ rw (other, low) (Memᴰ.head refl)
    | inr high ↦ rw (other, high) (Memᴰ.tail (insert_key_has k js))
  ]
]

insert_key_keeps : (i k : ℕ) (ks : List ℕ) → Memᴰ i ks → Memᴰ i (insert_key k ks)
unfolding insert_key
insert_key_keeps i k [] at = absurd (Memᴰ.not-nil at)
insert_key_keeps i k (j ∷ js) at = elim (Bool-cases (k == j)) [
  | inl same ↦ rw same at
  | inr other ↦ elim (Bool-cases (ltb k j)) [
    | inl low ↦ rw (other, low) (Memᴰ.tail at)
    | inr high ↦
        rw (other, high)
          (elim (Memᴰ.cases_cons at) [
            | inl e ↦ Memᴰ.head e
            | inr t ↦ Memᴰ.tail (insert_key_keeps i k js t)
          ])
  ]
]

insert_key-Ascending : (k : ℕ) (ks : List ℕ) → Ascending ks → Ascending (insert_key k ks)
unfolding insert_key
insert_key-Ascending k [] a = (λ j at. absurd (Memᴰ.not-nil at), tt)
insert_key-Ascending k (j ∷ js) (b, a) = elim (Bool-cases (k == j)) [
  | inl same ↦ rw same (b, a)
  | inr other ↦ elim (Bool-cases (ltb k j)) [
    | inl low ↦
        let rest : Ascending (j ∷ js) = (b, a) in
        let past : (i : ℕ) → Memᴰ i (j ∷ js) → k < i = λ i at. elim (Memᴰ.cases_cons at) [
          | inl e ↦ omega (arith, e, ltb→lt k j low)
          | inr t ↦ omega (arith, b i t, ltb→lt k j low)
        ] in
        rw (other, low) (past, rest)
    | inr high ↦
        rw (other, high)
          (
            λ i at. elim (in_insert_key i k js at) [
              | inl e ↦ let past : j < k = ground arith in omega arith
              | inr t ↦ b i t
            ],
            insert_key-Ascending k js a,
          )
  ]
]

pub Ascending-Before :
    (j k : ℕ) (ks : List ℕ) → Ascending ks → Memᴰ j ks → Memᴰ k ks → j < k → Before j k ks
Ascending-Before j k [] a at at' h = absurd (Memᴰ.not-nil at)
Ascending-Before j k (i ∷ ks) (b, a) at at' h = elim (Memᴰ.cases_cons at) [
  | inl e ↦ elim (Memᴰ.cases_cons at') [ inl e' ↦ absurd (omega arith) | inr t' ↦ inl (sym e, t') ]
  | inr t ↦ elim (Memᴰ.cases_cons at') [
    | inl e' ↦ absurd (omega (arith, b j t))
    | inr t' ↦ inr (Ascending-Before j k ks a t t' h)
  ]
]

above_all : (k : ℕ) (ks : List ℕ) → ((j : ℕ) → Memᴰ j ks → k < j) → count (λ j. k == j) ks ≡ 0
unfolding count
above_all k [] h = refl
above_all k (j ∷ js) h =
    let low = h j (Memᴰ.head refl) in
    let other : (k == j) ≡ false = ground arith in
    rw other (omega (arith, above_all k js (λ i at. h i (Memᴰ.tail at))))

pub Ascending-once : (k : ℕ) (ks : List ℕ) → Ascending ks → Memᴰ k ks → count (λ j. k == j) ks ≡ 1
unfolding count
Ascending-once k [] a at = absurd (Memᴰ.not-nil at)
Ascending-once k (j ∷ js) (b, a) at = elim (Memᴰ.cases_cons at) [
  | inl e ↦
      let first : (k == j) ≡ true = (==_iff k j).1 e in
      let rest : count (λ i. k == i) js ≡ 0 = above_all k js (λ i t. omega (arith, b i t)) in
      rw first (omega arith)
  | inr t ↦
      let low = b k t in
      let other : (k == j) ≡ false = ground arith in
      rw other (omega (arith, Ascending-once k js a t))
]

module _ {N : Type 0} where
  pub sorted_keys-Ascending : (l : List (N × ℕ)) → Ascending (sorted_keys l)
  unfolding sorted_keys
  sorted_keys-Ascending [] = tt
  sorted_keys-Ascending ((x, k) ∷ l) =
      insert_key-Ascending k (sorted_keys l) (sorted_keys-Ascending l)

  pub sorted_keys_has : (x : N) (k : ℕ) (l : List (N × ℕ)) → Memᴰ (x, k) l → Memᴰ k (sorted_keys l)
  unfolding sorted_keys
  sorted_keys_has x k [] at = absurd (Memᴰ.not-nil at)
  sorted_keys_has x k ((y, j) ∷ l) at = elim (Memᴰ.cases_cons at) [
    | inl i ↦
        subst (λ n. Memᴰ n (insert_key j (sorted_keys l))) (sym (ap (λ p. p.1) i))
          (insert_key_has j (sorted_keys l))
    | inr t ↦ insert_key_keeps k j (sorted_keys l) (sorted_keys_has x k l t)
  ]

  in_group : (x : N) (k : ℕ) (l : List (N × ℕ)) → Memᴰ (x, k) l → Memᴰ x (group k l)
  unfolding group
  in_group x k [] at = absurd (Memᴰ.not-nil at)
  in_group x k ((y, j) ∷ l) at = elim (Memᴰ.cases_cons at) [
    | inl i ↦
        let same : (j == k) ≡ true = (==_iff j k).1 (sym (ap (λ p. p.1) i)) in
        rw same (Memᴰ.head (ap (λ p. p.0) i))
    | inr t ↦ elim (Bool-cases (j == k)) [
      | inl same ↦ rw same (Memᴰ.tail (in_group x k l t))
      | inr other ↦ rw other (in_group x k l t)
    ]
  ]

  pub in_gather :
      (x : N) (k : ℕ) (ks : List ℕ) (l : List (N × ℕ))
      → Memᴰ (x, k) l
      → Memᴰ k ks
      → Memᴰ x (gather ks l)
  unfolding gather
  in_gather x k [] l at key = absurd (Memᴰ.not-nil key)
  in_gather x k (j ∷ ks) l at key = elim (Memᴰ.cases_cons key) [
    | inl e ↦ Memᴰ.append_left (gather ks l) (subst (λ n. Memᴰ x (group n l)) e (in_group x k l at))
    | inr t ↦ Memᴰ.append_right (group j l) (in_gather x k ks l at t)
  ]

  pub gather-Before :
      (x y : N) (j k : ℕ) (ks : List ℕ) (l : List (N × ℕ))
      → Memᴰ (x, j) l
      → Memᴰ (y, k) l
      → Before j k ks
      → Before x y (gather ks l)
  unfolding gather
  gather-Before x y j k [] l at at' b = absurd b
  gather-Before x y j k (i ∷ ks) l at at' (inl (e, key)) =
      Before-append x y (group i l) (gather ks l)
        (subst (λ n. Memᴰ x (group n l)) (sym e) (in_group x j l at)) (in_gather y k ks l at' key)
  gather-Before x y j k (i ∷ ks) l at at' (inr b) =
      Before-append_right x y (group i l) (gather ks l) (gather-Before x y j k ks l at at' b)

  gather-cons :
      (p : N → Bool) (y : N) (k : ℕ) (ks : List ℕ) (l : List (N × ℕ))
      → count p (gather ks ((y, k) ∷ l))
        ≡ (if p y then count (λ j. k == j) ks else 0) + count p (gather ks l)
  unfolding gather group count
  gather-cons p y k [] l = ground arith
  gather-cons p y k (j ∷ ks) l = ground (
    arith,
    gather-cons p y k ks l,
    count-append p (group j ((y, k) ∷ l)) (gather ks ((y, k) ∷ l)),
    count-append p (group j l) (gather ks l),
  )

  gather-nil : (p : N → Bool) (ks : List ℕ) → count p (gather ks []) ≡ 0
  unfolding gather group count
  gather-nil p [] = refl
  gather-nil p (k ∷ ks) = gather-nil p ks

  pub count-gather :
      (p : N → Bool) (ks : List ℕ) (l : List (N × ℕ))
      → ((x : N) (k : ℕ) → Memᴰ (x, k) l → count (λ j. k == j) ks ≡ 1)
      → count p (gather ks l) ≡ count (λ q. p q.0) l
  unfolding count
  count-gather p ks [] h = gather-nil p ks
  count-gather p ks ((y, k) ∷ l) h = ground (
    arith,
    gather-cons p y k ks l,
    h y k (Memᴰ.head refl),
    count-gather p ks l (λ x j at. h x j (Memᴰ.tail at)),
  )

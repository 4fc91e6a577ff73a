-- ===== src/Policy/Closure/Correct.antt =====
-- `transitive_closure` against the paths of the graph.
use murano_temp.Base.{
  Bool-cases, List, [], ap, arith, inl, inr, refl, some, suc, sym, true, zero, ℕ, ◌++◌, ◌||◌, ◌↔◌,
  ◌∙◌, ◌∷◌, ◌≡◌, ◌⊎◌,
}
use murano_temp.Base.Equality.{Equality}
use murano_temp.Policy.Closure.{
  close, has, joined, new_relations, same_pair, same_set, subset, union,
}
use mathlib.Core.Path.{subst}

-- There is a path of one or more relations.
pub data Connected {A : Type 0} (nodes : Equality A) (l : List (A × A)) : A → A → Type 0 where
  related : {a b : A} → has nodes (a, b) l ≡ true → Connected nodes l a b
  through : {a b c : A} → Connected nodes l a b → Connected nodes l b c → Connected nodes l a c

module _ {A : Type 0} (nodes : Equality A) where
  pub same_pair_iff : (p q : A × A) → (same_pair nodes p q ≡ true) ↔ (p ≡ q)
  unfolding same_pair
  same_pair_iff (a, b) (c, d) = ground (arith, nodes.eq_iff a c, nodes.eq_iff b d)

  pub has-cons :
      (p q : A × A) (l : List (A × A))
      → has nodes p (q ∷ l) ≡ true
      → (p ≡ q) ⊎ (has nodes p l ≡ true)
  unfolding has
  has-cons p q l h = elim (Bool-cases (same_pair nodes q p)) [
    | inl e ↦ inl (sym ((same_pair_iff q p).0 e))
    | inr e ↦ inr (ground arith)
  ]

  pub has_here : (p : A × A) (l : List (A × A)) → has nodes p (p ∷ l) ≡ true
  unfolding has
  has_here p l = ground (arith, same_pair_iff p p)

  pub has_there :
      (p q : A × A) (l : List (A × A)) → has nodes p l ≡ true → has nodes p (q ∷ l) ≡ true
  unfolding has
  has_there p q l h = ground arith

  pub has-append :
      (p : A × A) (l m : List (A × A)) → has nodes p (l ++ m) ≡ (has nodes p l || has nodes p m)
  unfolding has
  has-append p [] m = refl
  has-append p (q ∷ l) m = ground (arith, has-append p l m)

  pub has-union :
      (p : A × A) (s t : List (A × A))
      → has nodes p (union nodes s t) ≡ (has nodes p s || has nodes p t)
  unfolding union has
  has-union p s [] = ground arith
  has-union p s (q ∷ t) = elim (Bool-cases (has nodes q s)) [
    | inl e ↦ rw e (has-union p s t ∙ ground (arith, same_pair_iff q p))
    | inr e ↦ rw e (has-union p (q ∷ s) t ∙ ground arith)
  ]

  -- What is joined at `p`: the pairs that continue it.
  joined-has :
      (p q : A × A) (l : List (A × A))
      → has nodes q l ≡ true
      → q.0 ≡ p.1
      → has nodes (p.0, q.1) (joined nodes p l) ≡ true
  unfolding joined
  joined-has p q [] h e = unfold has in cc
  joined-has p q (r ∷ l) h e = elim (has-cons q r l h) [
    | inl same ↦
        let meets : nodes.eq r.0 p.1 ≡ true =
          (nodes.eq_iff r.0 p.1).1 (ap (λ (x : A × A). x.0) (sym same) ∙ e) in
        rw (meets, ap (λ (x : A × A). x.1) same) (has_here (p.0, r.1) (joined nodes p l))
    | inr later ↦ elim (Bool-cases (nodes.eq r.0 p.1)) [
      | inl y ↦ rw y (has_there (p.0, q.1) (p.0, r.1) (joined nodes p l) (joined-has p q l later e))
      | inr n ↦ rw n (joined-has p q l later e)
    ]
  ]

  has-joined :
      (r p : A × A) (l : List (A × A))
      → has nodes r (joined nodes p l) ≡ true
      → (q : A × A) × (has nodes q l ≡ true) × (q.0 ≡ p.1) × (r ≡ (p.0, q.1))
  unfolding joined
  has-joined r p [] h = unfold has in cc
  has-joined r p (q ∷ l) h = elim (Bool-cases (nodes.eq q.0 p.1)) [
    | inl y ↦ elim (has-cons r (p.0, q.1) (joined nodes p l) (rw y at h)) [
      | inl same ↦ (q, has_here q l, (nodes.eq_iff q.0 p.1).0 y, same)
      | inr later ↦
          let (t, there, meets, same) = has-joined r p l later in
          (t, has_there t q l there, meets, same)
    ]
    | inr n ↦
        let (t, there, meets, same) = has-joined r p l (rw n at h) in
        (t, has_there t q l there, meets, same)
  ]

  pub new_relations-has :
      (p q : A × A) (l m : List (A × A))
      → has nodes p l ≡ true
      → has nodes q m ≡ true
      → q.0 ≡ p.1
      → has nodes (p.0, q.1) (new_relations nodes l m) ≡ true
  unfolding new_relations
  new_relations-has p q [] m h k e = unfold has in cc
  new_relations-has p q (r ∷ l) m h k e = elim (has-cons p r l h) [
    | inl same ↦
        rw (has-append, same)
          (ground (arith, joined-has r q m k (e ∙ ap (λ (x : A × A). x.1) same)))
    | inr later ↦ rw has-append (ground (arith, new_relations-has p q l m later k e))
  ]

  pub has-new_relations :
      (r : A × A) (l m : List (A × A))
      → has nodes r (new_relations nodes l m) ≡ true
      → (p q : A × A) × (has nodes p l ≡ true)
        × (has nodes q m ≡ true)
        × (q.0 ≡ p.1)
        × (r ≡ (p.0, q.1))
  unfolding new_relations
  has-new_relations r [] m h = unfold has in cc
  has-new_relations r (p ∷ l) m h = elim (Bool-cases (has nodes r (joined nodes p m))) [
    | inl y ↦
        let (q, there, meets, same) = has-joined r p m y in (p, q, has_here p l, there, meets, same)
    | inr n ↦
        let rest : has nodes r (new_relations nodes l m) ≡ true =
          ground (arith, has-append r (joined nodes p m) (new_relations nodes l m)) in
        let (s, q, first, there, meets, same) = has-new_relations r l m rest in
        (s, q, has_there s p l first, there, meets, same)
  ]

  pub subset-has :
      (p : A × A) (s t : List (A × A))
      → subset nodes s t ≡ true
      → has nodes p s ≡ true
      → has nodes p t ≡ true
  unfolding subset
  subset-has p [] t h k = unfold has in cc
  subset-has p (q ∷ s) t h k = elim (has-cons p q s k) [
    | inl same ↦ rw same (ground arith)
    | inr later ↦ subset-has p s t (ground arith) later
  ]

  -- The set has the relations, nothing that is not connected, and what is joined in it.
  pub record IsClosed (l c : List (A × A)) : Type 0 where
    pub holds : (p : A × A) → has nodes p l ≡ true → has nodes p c ≡ true
    pub sound : (p : A × A) → has nodes p c ≡ true → Connected nodes l p.0 p.1
    pub joins :
        (p q : A × A)
        → has nodes p c ≡ true
        → has nodes q c ≡ true
        → q.0 ≡ p.1
        → has nodes (p.0, q.1) c ≡ true

  joined-Connected :
      (l : List (A × A)) (p q : A × A)
      → Connected nodes l p.0 p.1
      → Connected nodes l q.0 q.1
      → q.0 ≡ p.1
      → Connected nodes l p.0 q.1
  joined-Connected l p q h k e = through h (subst (λ x. Connected nodes l x q.1) e k)

  pub close-IsClosed :
      (l : List (A × A)) (fuel : ℕ) (c r : List (A × A))
      → ((p : A × A) → has nodes p l ≡ true → has nodes p c ≡ true)
      → ((p : A × A) → has nodes p c ≡ true → Connected nodes l p.0 p.1)
      → close nodes fuel c ≡ some r
      → IsClosed l r
  unfolding close same_set
  close-IsClosed l zero c r holds sound e = cc
  close-IsClosed l (suc fuel) c r holds sound e =
      let u : List (A × A) = union nodes c (new_relations nodes c c) in
      elim (Bool-cases (same_set nodes u c)) [
        | inl y ↦
            let same : c ≡ r = ground arith in
            rw (← same) (record {
              holds = holds;
              sound = sound;
              joins = λ p q h k meets.
                  subset-has (p.0, q.1) u c (ground arith)
                    (ground (
                      arith,
                      has-union (p.0, q.1) c (new_relations nodes c c),
                      new_relations-has p q c c h k meets,
                    ));
            })
        | inr n ↦
            close-IsClosed l fuel u r
              (λ p h. ground (arith, has-union p c (new_relations nodes c c), holds p h))
              (λ p h. elim (Bool-cases (has nodes p c)) [
                | inl old ↦ sound p old
                | inr new ↦
                    let (s, t, first, second, meets, same) =
                      has-new_relations p c c
                        (ground (arith, has-union p c (new_relations nodes c c))) in
                    rw same (joined-Connected l s t (sound s first) (sound t second) meets)
              ])
              (ground arith)
      ]

  pub Connected-has :
      (l c : List (A × A)) {a b : A}
      → IsClosed l c
      → Connected nodes l a b
      → has nodes (a, b) c ≡ true
  Connected-has l c h (related e) = h.holds _ e
  Connected-has l c h (through {a} {b} {c = e} p q) =
      h.joins (a, b) (b, e) (Connected-has l c h p) (Connected-has l c h q) refl

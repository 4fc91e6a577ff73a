-- ===== src/Policy/Closure/Rounds.antt =====
-- How many rounds the loop of `transitive_closure` takes.
use murano_temp.Base.{
  Bool, Bool-cases, List, [], arith, count, false, inl, inr, length, length-append, not, refl, some,
  suc, true, zero, ℕ, ◌*◌, ◌++◌, ◌<◌, ◌||◌, ◌↔◌, ◌∷◌, ◌≡◌, ◌≤◌,
}
use murano_temp.Base.Equality.{Equality}
use murano_temp.Policy.Closure.{
  close, has, new_relations, same_pair, same_set, subset, transitive_closure, union,
}
use murano_temp.Policy.Closure.Correct.{
  Connected, Connected-has, IsClosed, close-IsClosed, has-append, has-cons, has-new_relations,
  has-union, has_here, has_there, related,
}
use mathlib.Core.Path.{subst}

module _ {A : Type 0} (nodes : Equality A) where
  -- `a` is an end of one of the pairs.
  is_end : A → List (A × A) → Bool
  is_end a [] = false
  is_end a (p ∷ l) = nodes.eq p.0 a || nodes.eq p.1 a || is_end a l

  -- All pairs of `a` with the ends of `m`, and of the ends of `l` with those of `m`.
  pairs_from : A → List (A × A) → List (A × A)
  pairs_from a [] = []
  pairs_from a (p ∷ m) = (a, p.0) ∷ (a, p.1) ∷ pairs_from a m

  all_pairs : List (A × A) → List (A × A) → List (A × A)
  all_pairs [] m = []
  all_pairs (p ∷ l) m = pairs_from p.0 m ++ (pairs_from p.1 m ++ all_pairs l m)

  length-pairs_from : (a : A) (m : List (A × A)) → length (pairs_from a m) ≡ 2 * length m
  unfolding pairs_from
  length-pairs_from a [] = refl
  length-pairs_from a (p ∷ m) = omega (arith, length-pairs_from a m)

  length-all_pairs : (l m : List (A × A)) → length (all_pairs l m) ≡ (2 * length l) * (2 * length m)
  unfolding all_pairs
  length-all_pairs [] m = omega arith
  length-all_pairs (p ∷ l) m = grind (arith, length-append, length-pairs_from, length-all_pairs l m)

  eq_self : (a : A) → nodes.eq a a ≡ true
  eq_self a = (nodes.eq_iff a a).1 refl

  has-pairs_from :
      (a b : A) (m : List (A × A)) → is_end b m ≡ true → has nodes (a, b) (pairs_from a m) ≡ true
  unfolding pairs_from is_end has same_pair
  has-pairs_from a b [] h = cc
  has-pairs_from a b (p ∷ m) h = ground (arith, eq_self a, has-pairs_from a b m)

  has-all_pairs :
      (a b : A) (l m : List (A × A))
      → is_end a l ≡ true
      → is_end b m ≡ true
      → has nodes (a, b) (all_pairs l m) ≡ true
  unfolding all_pairs is_end
  has-all_pairs a b [] m h k = cc
  has-all_pairs a b (p ∷ l) m h k =
      rw (has-append nodes, has-append nodes)
        (ground (
          arith,
          nodes.eq_iff p.0 a,
          nodes.eq_iff p.1 a,
          has-pairs_from a b m,
          has-all_pairs a b l m,
        ))

  -- Every pair has its ends among those of `l`.
  abbrev IsWithin : List (A × A) → List (A × A) → Type 0
  IsWithin l c = (p : A × A) → has nodes p c ≡ true → (is_end p.0 l ≡ true) × (is_end p.1 l ≡ true)

  ends-IsWithin : (l : List (A × A)) → IsWithin l l
  unfolding is_end
  ends-IsWithin [] p h = unfold has in cc
  ends-IsWithin (q ∷ l) p h = elim (has-cons nodes p q l h) [
    | inl same ↦ rw same (ground (arith, eq_self q.0), ground (arith, eq_self q.1))
    | inr later ↦ ground (arith, ends-IsWithin l p later)
  ]

  round-IsWithin :
      (l c : List (A × A)) → IsWithin l c → IsWithin l (union nodes c (new_relations nodes c c))
  round-IsWithin l c h r k = elim (Bool-cases (has nodes r c)) [
    | inl old ↦ h r old
    | inr new ↦
        let found : has nodes r (new_relations nodes c c) ≡ true =
          ground (arith, has-union nodes r c (new_relations nodes c c)) in
        let (p, q, first, second, meets, same) = has-new_relations nodes r c c found in
        rw same ((h p first).0, (h q second).1)
  ]

  -- The pairs that are still missing.
  abbrev missing : List (A × A) → List (A × A) → ℕ
  missing c all = count (λ p. not (has nodes p c)) all

  missing-le :
      (c u all : List (A × A))
      → ((p : A × A) → has nodes p c ≡ true → has nodes p u ≡ true)
      → missing u all ≤ missing c all
  unfolding count
  missing-le c u [] h = omega arith
  missing-le c u (p ∷ all) h = ground (arith, h p, missing-le c u all h)

  missing-lt :
      (c u all : List (A × A)) (p : A × A)
      → ((q : A × A) → has nodes q c ≡ true → has nodes q u ≡ true)
      → has nodes p all ≡ true
      → has nodes p c ≡ false
      → has nodes p u ≡ true
      → missing u all < missing c all
  unfolding count
  missing-lt c u [] p h there old new = unfold has in cc
  missing-lt c u (q ∷ all) p h there old new = elim (has-cons nodes p q all there) [
    | inl same ↦
        let old' : has nodes q c ≡ false = subst (λ x. has nodes x c ≡ false) same old in
        let new' : has nodes q u ≡ true = subst (λ x. has nodes x u ≡ true) same new in
        rw (old', new') (omega (arith, missing-le c u all h))
    | inr later ↦ ground (arith, h q, missing-lt c u all p h later old new)
  ]

  missing-le-length : (c all : List (A × A)) → missing c all ≤ length all
  unfolding count
  missing-le-length c [] = omega arith
  missing-le-length c (p ∷ all) = ground (arith, missing-le-length c all)

  subset-false :
      (s t : List (A × A))
      → subset nodes s t ≡ false
      → (p : A × A) × (has nodes p s ≡ true) × (has nodes p t ≡ false)
  unfolding subset
  subset-false [] t h = cc
  subset-false (p ∷ s) t h = elim (Bool-cases (has nodes p t)) [
    | inl y ↦
        let (q, there, new) = subset-false s t (ground arith) in
        (q, has_there nodes q p s there, new)
    | inr n ↦ (p, has_here nodes p s, n)
  ]

  has-subset :
      (s t : List (A × A))
      → ((p : A × A) → has nodes p s ≡ true → has nodes p t ≡ true)
      → subset nodes s t ≡ true
  unfolding subset
  has-subset [] t h = refl
  has-subset (p ∷ s) t h =
      ground
        (arith, h p (has_here nodes p s), has-subset s t (λ q k. h q (has_there nodes q p s k)))

  grown :
      (c : List (A × A)) (p : A × A)
      → has nodes p c ≡ true
      → has nodes p (union nodes c (new_relations nodes c c)) ≡ true
  grown c p h = ground (arith, has-union nodes p c (new_relations nodes c c))

  -- With fuel for each missing pair, the loop ends.
  close_ends :
      (l : List (A × A)) (fuel : ℕ) (c : List (A × A))
      → IsWithin l c
      → missing c (all_pairs l l) < fuel
      → (r : List (A × A)) × (close nodes fuel c ≡ some r)
  unfolding close same_set
  close_ends l zero c within enough = absurd (omega arith)
  close_ends l (suc fuel) c within enough =
      let u : List (A × A) = union nodes c (new_relations nodes c c) in
      elim (Bool-cases (subset nodes u c)) [
        | inl y ↦ (c, rw (y, has-subset c u (grown c)) refl)
        | inr n ↦
            let (p, new, old) = subset-false u c n in
            let ends = round-IsWithin l c within p new in
            let less : missing u (all_pairs l l) < missing c (all_pairs l l) =
              missing-lt c u (all_pairs l l) p (grown c) (has-all_pairs p.0 p.1 l l ends.0 ends.1)
                old new in
            rw n (close_ends l fuel u (round-IsWithin l c within) (omega arith))
      ]

  transitive_closure_ends :
      (l : List (A × A)) → (r : List (A × A)) × (transitive_closure nodes l ≡ some r)
  unfolding transitive_closure
  transitive_closure_ends l =
      close_ends l (suc ((2 * length l) * (2 * length l))) (union nodes [] l)
        (λ p h. ends-IsWithin l p (unfold has in ground (arith, has-union nodes p [] l)))
        (omega (arith, missing-le-length (union nodes [] l) (all_pairs l l), length-all_pairs l l))

  transitive_closure-IsClosed :
      (l r : List (A × A)) → transitive_closure nodes l ≡ some r → IsClosed nodes l r
  unfolding transitive_closure has
  transitive_closure-IsClosed l r e =
      close-IsClosed nodes l (suc ((2 * length l) * (2 * length l))) (union nodes [] l) r
        (λ p h. ground (arith, has-union nodes p [] l))
        (λ p h. related (ground (arith, has-union nodes p [] l))) e

-- The transitive closure is computed, in the fuel that it is given; and it has exactly the pairs of
-- nodes between which there is a path of one or more relations.
pub transitive_closure-Connected :
    {A : Type 0} (nodes : Equality A) (l : List (A × A))
    → (r : List (A × A)) × (transitive_closure nodes l ≡ some r)
      × ((a b : A) → (has nodes (a, b) r ≡ true) ↔ Connected nodes l a b)
transitive_closure-Connected nodes l =
    let (r, e) = transitive_closure_ends nodes l in
    let closed : IsClosed nodes l r = transitive_closure-IsClosed nodes l r e in
    (r, e, λ a b. (closed.sound (a, b), Connected-has nodes l r closed))

-- ===== src/Policy/Closure.antt =====
-- `transitive_closure` of murano/policy/congress_rules.py. A set is a list; `eq` is the equality of
-- the nodes.
pub mod Correct
pub mod Rounds
use murano_temp.Base.{
  Bool, List, Option, [], false, if◌then◌else◌, length, none, some, suc, true, zero, ℕ, ◌&&◌, ◌*◌,
  ◌++◌, ◌||◌, ◌∷◌,
}
use murano_temp.Base.Equality.{Equality}

module _ {A : Type 0} (nodes : Equality A) where
  unfoldable pub same_pair : A × A → A × A → Bool
  same_pair p q = nodes.eq p.0 q.0 && nodes.eq p.1 q.1

  -- `p in relations`
  unfoldable pub has : A × A → List (A × A) → Bool
  unfolding same_pair
  has p [] = false
  has p (q ∷ l) = same_pair q p || has p l

  -- `{(p.0, w) for q, w in l if q == p.1}`
  unfoldable pub joined : A × A → List (A × A) → List (A × A)
  joined p [] = []
  joined p (q ∷ l) = let rest = joined p l in if nodes.eq q.0 p.1 then (p.0, q.1) ∷ rest else rest

  -- `{(x, w) for x, y in l for q, w in m if q == y}`
  unfoldable pub new_relations : List (A × A) → List (A × A) → List (A × A)
  unfolding joined
  new_relations [] m = []
  new_relations (p ∷ l) m = joined p m ++ new_relations l m

  -- `s | t`, without repetitions of what `s` has.
  unfoldable pub union : List (A × A) → List (A × A) → List (A × A)
  unfolding has
  union s [] = s
  union s (p ∷ t) = union (if has p s then s else p ∷ s) t

  unfoldable pub subset : List (A × A) → List (A × A) → Bool
  unfolding has
  subset [] t = true
  subset (p ∷ s) t = has p t && subset s t

  unfoldable pub same_set : List (A × A) → List (A × A) → Bool
  unfolding subset
  same_set s t = subset s t && subset t s

  -- The loop; `none` says that the fuel ran out.
  unfoldable pub close : ℕ → List (A × A) → Option (List (A × A))
  unfolding new_relations union same_set
  close zero closure = none
  close (suc fuel) closure =
      let closure_until_now = union closure (new_relations closure closure) in
      let rest = close fuel closure_until_now in
      if same_set closure_until_now closure then some closure else rest

  -- One round for each pair of nodes that the relations name, and one more.
  unfoldable pub transitive_closure : List (A × A) → Option (List (A × A))
  unfolding close
  transitive_closure relations =
      close (suc ((2 * length relations) * (2 * length relations))) (union [] relations)

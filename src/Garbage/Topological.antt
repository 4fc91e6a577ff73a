-- ===== src/Garbage/Topological.antt =====
-- The topological sort inside `ObjectStore._destroy_garbage` (murano/dsl/object_store.py), over a
-- graph that maps an object to its subscribers, the owner first.
use murano_temp.Base.{
  Bool, List, Option, [], false, if◌then◌else◌, none, some, suc, true, zero, ℕ, ◌++◌, ◌+◌, ◌||◌,
  ◌∷◌,
}
use murano_temp.Base.Equality.{Equality}
use murano_temp.Base.Num.{leb, ◌==◌}
use mathlib.Core.Option
use Prim.Native.Nat.{max}

-- The two dicts of counters, and what was yielded, in order. A missing key counts as 0.
pub record Marks (N : Type 0) : Type 0 where
  pub visited : N → ℕ
  pub indexes : N → ℕ
  pub yielded : List (N × ℕ)

module _ {N : Type 0} (e : Equality N) where
  unfoldable pub assign : (N → ℕ) → N → ℕ → N → ℕ
  assign f x n y = if e.eq x y then n else f y

  -- `visited[obj] += 1`
  unfoldable pub mark : N → Marks N → Marks N
  unfolding assign
  mark x s = record s { visited = assign s.visited x (s.visited x + 1) }

  -- `indexes[obj] = m + 1`, and the yield
  unfoldable pub emit : N → ℕ → Marks N → Marks N
  unfolding assign
  emit x m s = record s {
    visited = assign s.visited x (s.visited x + 1);
    indexes = assign s.indexes x (m + 1);
    yielded = s.yielded ++ (x, m + 1) ∷ [];
  }

  unfoldable pub close : N → ℕ → Marks N → Marks N
  unfolding emit
  close x m s = if leb (s.visited x) 2 then emit x m s else s

  -- The loop over the subscribers: the greatest index of one, and the marks after it.
  unfoldable pub visit_all :
      (N → Marks N → Option (Marks N)) → Bool → List N → ℕ → Marks N → Option (ℕ × Marks N)
  visit_all visit is_first [] m s = some (m, s)
  visit_all visit is_first (x ∷ xs) m s =
      let here = if is_first || s.visited x == 0 then visit x s else some s in
      Option.bind here (λ s'. visit_all visit false xs (max m (s'.indexes x)) s')

  -- `none` says that the recursion went deeper than the fuel.
  unfoldable pub dfs : (N → Option (List N)) → ℕ → N → Marks N → Option (Marks N)
  unfolding mark visit_all close
  dfs graph zero x s = none
  dfs graph (suc fuel) x s = elim (graph x) [
    | none ↦ some (mark x s)
    | some subscribers ↦
        Option.bind (visit_all (dfs graph fuel) true subscribers 0 (mark x s))
          (λ r. some (close x r.0 r.1))
  ]

  unfoldable pub visit_keys : (N → Option (List N)) → ℕ → List N → Marks N → Option (Marks N)
  unfolding dfs
  visit_keys graph fuel [] s = some s
  visit_keys graph fuel (x ∷ xs) s =
      let here = if s.visited x == 0 then dfs graph fuel x s else some s in
      Option.bind here (visit_keys graph fuel xs)

  unfoldable pub topological : (N → Option (List N)) → ℕ → List N → Option (List (N × ℕ))
  unfolding visit_keys
  topological graph fuel objects =
      Option.bind
        (visit_keys graph fuel objects
          (record { visited = λ x. 0; indexes = λ x. 0; yielded = [] }))
        (λ s. some s.yielded)

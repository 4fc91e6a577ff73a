-- ===== src/Garbage/Cleanup.antt =====
-- `ObjectStore.cleanup` of murano/dsl/object_store.py, the loop of `_collect_garbage`.
use murano_temp.Base.{
  Bool-cases, List, Option, String, [], any_of, ap, ap₂, arith, count, false, filter, if◌then◌else◌,
  inl, inr, length, none, not, refl, some, suc, true, zero, ℕ, ◌++◌, ◌+◌, ◌-◌, ◌<◌, ◌∙◌, ◌∷◌, ◌≡◌,
}
use murano_temp.Base.Num.{◌==◌}
use murano_temp.Garbage.{Event, Object, destroy_garbage, key_of, same_key, subscribed}
use murano_temp.Garbage.Acyclic.{bind-some}
use murano_temp.Garbage.Destroyed.{IsDestroyed, destroy_garbage-IsDestroyed}
use murano_temp.Garbage.Graph.{Follows, IsKeyed}
use mathlib.Core.Option
use mathlib.Core.List.{Memᴰ, append-nil}
use mathlib.Core.List.Memᴰ

-- Those that were not yielded stay pending.
unfoldable pub remaining : List (Option String) → List Object → List Object
unfolding subscribed
remaining yielded objects = filter (λ o. not (subscribed (key_of o) yielded)) objects

-- `mark_destroyed`, as the later reads see it.
unfoldable pub marked : List (Option String) → (String → Option Object) → String → Option Object
unfolding subscribed
marked yielded store i =
    Option.map (λ o. if subscribed (key_of o) yielded then record o { destroyed = true } else o)
      (store i)

-- `_collect_garbage`, where Python's collector leaves nothing in `gc.garbage` and no object is
-- scheduled meanwhile: the calls, and the count of the objects. `none` says that `rounds` or `fuel`
-- did not suffice.
unfoldable pub collect_garbage :
    ℕ → ℕ → (String → Option Object) → List Object → Option (List Event × ℕ)
unfolding destroy_garbage remaining marked
collect_garbage zero fuel store sentenced = none
collect_garbage (suc rounds) fuel store [] = some ([], 0)
collect_garbage (suc rounds) fuel store (o ∷ os) =
    Option.bind (destroy_garbage fuel store (o ∷ os)) (λ (events, yielded).
      let left = remaining yielded (o ∷ os) in
      let removed = length (o ∷ os) - length left in
      let rest = collect_garbage rounds fuel (marked yielded store) left in
      if removed == 0
      then some (events, 0)
      else Option.map (λ r. (events ++ r.0, removed + r.1)) rest)

nothing_remains :
    (yielded : List (Option String)) (objects : List Object)
    → ((o : Object) → Memᴰ o objects → subscribed (key_of o) yielded ≡ true)
    → remaining yielded objects ≡ []
unfolding remaining filter
nothing_remains yielded [] h = refl
nothing_remains yielded (o ∷ objects) h =
    rw (h o (Memᴰ.head refl)) (nothing_remains yielded objects (λ p at. h p (Memᴰ.tail at)))

subscribed_of :
    (x : Option String) (xs : List (Option String))
    → count (same_key x) xs ≡ 1
    → subscribed x xs ≡ true
unfolding subscribed count any_of
subscribed_of x [] h = absurd (omega arith)
subscribed_of x (y ∷ xs) h = elim (Bool-cases (same_key x y)) [
  | inl e ↦ rw e refl
  | inr n ↦ let h' = rw n at h in rw n (subscribed_of x xs (omega (arith, h')))
]

-- Where the ids are distinct, and a rank falls from each object to its owner and to those that
-- subscribe to its destruction, and Python's collector adds nothing, the cleanup ends, with two
-- rounds and any fuel above the ranks, after the calls of one destruction of all the objects that
-- are pending, and returns their count.
pub collect_garbage-ends :
    (fuel : ℕ) (store : String → Option Object) (objects : List Object) (rank : String → ℕ)
    → IsKeyed objects
    → ((o : Object) (i : String) → Memᴰ o objects → Follows i o → rank i < rank o.object_id)
    → ((i : String) → suc (rank i) < fuel)
    → (events : List Event) × (yielded : List (Option String)) × (collect_garbage 2 fuel store
          objects
        ≡ some (events, length objects))
      × IsDestroyed store objects events yielded
unfolding collect_garbage
collect_garbage-ends fuel store [] rank keyed falls low = (
  [],
  [],
  refl,
  record {
    each = λ o at. absurd (Memᴰ.not-nil at);
    first = λ o p at. absurd (Memᴰ.not-nil at);
    told = λ o p s d i h at. absurd (Memᴰ.not-nil at);
  },
)
collect_garbage-ends fuel store (o ∷ os) rank keyed falls low =
    let (events, yielded, e, d) =
      destroy_garbage-IsDestroyed fuel store (o ∷ os) rank keyed falls low in
    let left : remaining yielded (o ∷ os) ≡ [] =
      nothing_remains yielded (o ∷ os) (λ p at. subscribed_of (key_of p) yielded (d.each p at)) in
    let all : (length (o ∷ os) - length (remaining yielded (o ∷ os)) == 0) ≡ false =
      let n : length (remaining yielded (o ∷ os)) ≡ 0 = ap length left in ground arith in
    let whole : length (o ∷ os) - 0 + 0 ≡ length (o ∷ os) = omega arith in
    (
      events,
      yielded,
      bind-some _ _ (events, yielded) e
          ∙ rw (all, left) (ap₂ (λ a b. some (a, b)) (append-nil events) whole),
      d,
    )

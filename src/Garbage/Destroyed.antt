-- ===== src/Garbage/Destroyed.antt =====
-- In which order the sentenced objects are signalled and destroyed.
use murano_temp.Base.{
  count-reverse, List, Option, String, [], ap, arith, count, false, inl, inr, map, none, not,
  not_same, refl, some, suc, sym, true, ℕ, ◌&&◌, ◌++◌, ◌<◌, ◌∙◌, ◌∷◌, ◌≡◌, ◌≢◌,
}
use murano_temp.Base.Num.{◌==◌}
use murano_temp.Garbage.{
  Dependency, Event, Object, dd_graph, destroy, destroy_garbage, destroy_object, destroy_order,
  find_object, key_of, keys_equality, notifications, notified, notify, on_objects, order, same_key,
  signal_destruction_dependencies, signal_order, subscribers,
}
use murano_temp.Garbage.Before.{Before, Before-append, Before-reverse, Memᴰ-reverse}
use murano_temp.Garbage.Emit.{times-place}
use murano_temp.Garbage.Graph.{
  Follows, IsKeyed, dd_graph-falls, rank_of, rank_of-below, subscribers-Follows,
}
use murano_temp.Garbage.Grouped.{
  Ascending-Before, Ascending-once, count-gather, gather-Before, in_gather, sorted_keys-Ascending,
  sorted_keys_has,
}
use murano_temp.Garbage.Groups.{sorted_keys}
use murano_temp.Garbage.Sorted.{IsTopological, topological-IsTopological}
use mathlib.Core.List.{Memᴰ, reverse}
use mathlib.Core.List.Memᴰ
use mathlib.Core.Option
use mathlib.Core.Path.{subst}

-- The calls before and after, in terms of the objects' keys.
pub record IsDestroyed (store : String → Option Object) (objects : List Object)
    (events : List Event) (yielded : List (Option String)) : Type 0 where
  pub each : (o : Object) → Memᴰ o objects → count (same_key (key_of o)) yielded ≡ 1
  pub first :
      (o p : Object)
      → Memᴰ o objects
      → Memᴰ p objects
      → Follows p.object_id o
      → Before (key_of o) (key_of p) yielded
  pub told :
      (o p s : Object) (d : Dependency) (i h : String)
      → Memᴰ o objects
      → Memᴰ p objects
      → Memᴰ d o.dependencies
      → d.subscriber ≡ some i
      → d.handler ≡ some h
      → h ≢ ""
      → store i ≡ some s
      → s.initialized && not s.destroyed ≡ true
      → o.destroyed ≡ false
      → p.destroyed ≡ false
      → Before (notify s.object_id h o.object_id) (destroy p.object_id) events

in_on_objects :
    (objects : List Object) (f : Object → List Event) (ks : List (Option String)) (o : Object)
    (event : Event)
    → IsKeyed objects
    → Memᴰ o objects
    → Memᴰ (key_of o) ks
    → Memᴰ event (f o)
    → Memᴰ event (on_objects objects f ks)
unfolding on_objects
in_on_objects objects f [] o event keyed at key ev = absurd (Memᴰ.not-nil key)
in_on_objects objects f (none ∷ ks) o event keyed at key ev = elim (Memᴰ.cases_cons key) [
  | inl e ↦ cc
  | inr t ↦ in_on_objects objects f ks o event keyed at t ev
]
in_on_objects objects f (some i ∷ ks) o event keyed at key ev = elim (Memᴰ.cases_cons key) [
  | inl e ↦
      let same : o.object_id ≡ i = cc in
      let found : find_object i objects ≡ some o =
        subst (λ k. find_object k objects ≡ some o) same (keyed o at) in
      rw found (Memᴰ.append_left (on_objects objects f ks) ev)
  | inr t ↦
      Memᴰ.append_right (elim (find_object i objects) [ none ↦ [] | some p ↦ f p ])
        (in_on_objects objects f ks o event keyed at t ev)
]

notified_live :
    (store : String → Option Object) (d : Dependency) (s : Object) (i h id : String)
    → d.subscriber ≡ some i
    → d.handler ≡ some h
    → h ≢ ""
    → store i ≡ some s
    → s.initialized && not s.destroyed ≡ true
    → notified store id d ≡ notify s.object_id h id ∷ []
unfolding notified Option.bind
notified_live store d s i h id e e' named f live = simp (notified, e, e', not_same named, f, live)

in_notifications :
    (store : String → Option Object) (ds : List Dependency) (d : Dependency) (s : Object)
    (i h id : String)
    → Memᴰ d ds
    → d.subscriber ≡ some i
    → d.handler ≡ some h
    → h ≢ ""
    → store i ≡ some s
    → s.initialized && not s.destroyed ≡ true
    → Memᴰ (notify s.object_id h id) (notifications store id ds)
unfolding notifications
in_notifications store [] d s i h id at e e' named f live = absurd (Memᴰ.not-nil at)
in_notifications store (c ∷ ds) d s i h id at e e' named f live = elim (Memᴰ.cases_cons at) [
  | inl same ↦
      let sub : c.subscriber ≡ some i = ap (λ x. x.subscriber) (sym same) ∙ e in
      let han : c.handler ≡ some h = ap (λ x. x.handler) (sym same) ∙ e' in
      Memᴰ.append_left (notifications store id ds)
        (rw (notified_live store c s i h id sub han named f live) (Memᴰ.head refl))
  | inr t ↦
      Memᴰ.append_right (notified store id c)
        (in_notifications store ds d s i h id t e e' named f live)
]

keys_of :
    (o : Object) (objects : List Object) → Memᴰ o objects → Memᴰ (key_of o) (map key_of objects)
keys_of o [] at = absurd (Memᴰ.not-nil at)
keys_of o (p ∷ objects) at = elim (Memᴰ.cases_cons at) [
  | inl e ↦ Memᴰ.head (ap key_of e)
  | inr t ↦ Memᴰ.tail (keys_of o objects t)
]

module _ (objects : List Object) (keyed : IsKeyed objects) (l : List (Option String × ℕ))
    (sorted : IsTopological keys_equality (dd_graph objects) (map key_of objects) l) where
  in_graph : (o : Object) → Memᴰ o objects → dd_graph objects (key_of o) ≡ some (subscribers o)
  unfolding dd_graph
  in_graph o at = ap (Option.map subscribers) (keyed o at)

  known : (o : Object) → Memᴰ o objects → dd_graph objects (key_of o) ≢ none
  known o at out = let here = in_graph o at in cc

  -- The index that an object has.
  place : (o : Object) → Memᴰ o objects → (k : ℕ) × Memᴰ (key_of o, k) l
  place o at =
      times-place keys_equality (dd_graph objects) (key_of o) l
        (omega (arith, sorted.each (key_of o) (keys_of o objects at) (known o at)))

  once : (x : Option String) (k : ℕ) → Memᴰ (x, k) l → count (λ j. k == j) (sorted_keys l) ≡ 1
  once x k at =
      Ascending-once k (sorted_keys l) (sorted_keys-Ascending l) (sorted_keys_has x k l at)

  pub order_each : (o : Object) → Memᴰ o objects → count (same_key (key_of o)) (destroy_order l) ≡ 1
  unfolding destroy_order
  order_each o at =
      count-gather (same_key (key_of o)) (reverse (sorted_keys l)) l
        (λ x k here. count-reverse (λ j. k == j) (sorted_keys l) ∙ once x k here)
      ∙ sorted.each (key_of o) (keys_of o objects at) (known o at)

  pub order_first :
      (o p : Object)
      → Memᴰ o objects
      → Memᴰ p objects
      → Follows p.object_id o
      → Before (key_of o) (key_of p) (destroy_order l)
  unfolding destroy_order
  order_first o p at at' f =
      let (k, here) = place o at in
      let (j, there) = place p at' in
      let low : j < k =
        sorted.above (key_of o) (key_of p) j k (subscribers o) here there (in_graph o at)
          ((subscribers-Follows p.object_id o).1 f) in
      gather-Before (key_of o) (key_of p) k j (reverse (sorted_keys l)) l here there (
        Before-reverse j k (sorted_keys l) (
          Ascending-Before j k (sorted_keys l) (sorted_keys-Ascending l)
            (sorted_keys_has (key_of p) j l there) (sorted_keys_has (key_of o) k l here) low))

  pub signalled : (o : Object) → Memᴰ o objects → Memᴰ (key_of o) (signal_order l)
  unfolding signal_order
  signalled o at =
      let (k, here) = place o at in
      in_gather (key_of o) k (sorted_keys l) l here (sorted_keys_has (key_of o) k l here)

  pub destroyed_once : (o : Object) → Memᴰ o objects → Memᴰ (key_of o) (destroy_order l)
  unfolding destroy_order
  destroyed_once o at =
      let (k, here) = place o at in
      in_gather (key_of o) k (reverse (sorted_keys l)) l here
        (Memᴰ-reverse k (sorted_keys l) (sorted_keys_has (key_of o) k l here))

  pub order_told :
      (store : String → Option Object)
      → IsDestroyed store objects
          (on_objects objects (signal_destruction_dependencies store) (signal_order l)
            ++ on_objects objects destroy_object (destroy_order l))
          (destroy_order l)
  unfolding signal_destruction_dependencies destroy_object
  order_told store = record {
    each = order_each;
    first = order_first;
    told = λ o p s d i h at at' dep e e' named f live o_lives p_lives.
        Before-append (notify s.object_id h o.object_id) (destroy p.object_id)
          (on_objects objects (signal_destruction_dependencies store) (signal_order l))
          (on_objects objects destroy_object (destroy_order l))
          (in_on_objects objects (signal_destruction_dependencies store) (signal_order l) o
            (notify s.object_id h o.object_id) keyed at (signalled o at)
            (rw o_lives
              (in_notifications store o.dependencies d s i h o.object_id dep e e' named f live)))
          (in_on_objects objects destroy_object (destroy_order l) p (destroy p.object_id) keyed at'
            (destroyed_once p at') (rw p_lives (Memᴰ.head refl)));
  }

-- Where the ids are distinct, and a rank falls from each object to its owner and to those that
-- subscribe to its destruction, so that no object is among these at any distance, the destruction
-- ends, in any fuel above the ranks: each sentenced object is yielded once, before its owner and
-- before its subscribers; and before any of them is destroyed each subscriber that is initialized
-- and not destroyed gets the call of its handler, if that has a name that is not empty.
pub destroy_garbage-IsDestroyed :
    (fuel : ℕ) (store : String → Option Object) (objects : List Object) (rank : String → ℕ)
    → IsKeyed objects
    → ((o : Object) (i : String) → Memᴰ o objects → Follows i o → rank i < rank o.object_id)
    → ((i : String) → suc (rank i) < fuel)
    → (events : List Event) × (yielded : List (Option String)) × (destroy_garbage fuel store objects
        ≡ some (events, yielded))
      × IsDestroyed store objects events yielded
unfolding destroy_garbage order
destroy_garbage-IsDestroyed fuel store objects rank keyed falls low =
    let (l, e, sorted) =
      topological-IsTopological keys_equality (dd_graph objects) (rank_of rank)
        (dd_graph-falls objects rank falls) fuel (map key_of objects)
        (rank_of-below rank fuel low) in
    (_, _, rw e refl, order_told objects keyed l sorted store)

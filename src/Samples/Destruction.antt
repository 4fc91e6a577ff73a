-- ===== src/Samples/Destruction.antt =====
-- Objects that are destroyed: a machine, an application that subscribes to its destruction, and the
-- environment that owns both.
use murano_temp.Base.{
  List, Option, String, [], ap, arith, count, false, find, if◌then◌else◌, inl, inr, none, refl,
  some, suc, sym, true, ℕ, ◌<◌, ◌==◌, ◌∷◌, ◌≡◌,
}
use murano_temp.Base.Result.{ok}
use murano_temp.Garbage.{
  Dependency, Event, Object, destroy, destroy_garbage, destroy_object, find_object, notify,
  signal_destruction_dependencies,
}
use murano_temp.Garbage.Cleanup.{collect_garbage, collect_garbage-ends}
use murano_temp.Garbage.Destroyed.{IsDestroyed, destroy_garbage-IsDestroyed}
use murano_temp.Garbage.Graph.{Follows, IsKeyed}
use murano_temp.Garbage.Subscriptions.{
  Call, is_of, is_subscribed, run, run-IsSubscribed, subscribe, subscribe_destruction, unsubscribe,
  unsubscribe_destruction,
}
use mathlib.Core.List.{Memᴰ}
use mathlib.Core.List.Memᴰ
use mathlib.Core.Option
use mathlib.Core.Path.{subst}

abbrev environment : Object
environment = record {
  object_id = "env";
  owner = none;
  dependencies = [];
  initialized = true;
  destroyed = false;
}

abbrev application : Object
application = record {
  object_id = "app";
  owner = some "env";
  dependencies = [];
  initialized = true;
  destroyed = false;
}

abbrev machine : Object
machine = record {
  object_id = "vm";
  owner = some "env";
  dependencies = record { subscriber = some "app"; handler = some "gone" } ∷ [];
  initialized = true;
  destroyed = false;
}

abbrev objects : List Object
objects = environment ∷ application ∷ machine ∷ []

abbrev store : String → Option Object
store i = find_object i objects

abbrev rank : String → ℕ
rank i = if i == "vm" then 2 else if i == "app" then 1 else 0

distinct_example : IsKeyed objects
unfolding find_object find
distinct_example o at = elim (Memᴰ.cases_cons at) [
  | inl e ↦ subst (λ p. find_object p.object_id objects ≡ some p) (sym e) refl
  | inr t ↦ elim (Memᴰ.cases_cons t) [
    | inl e ↦ subst (λ p. find_object p.object_id objects ≡ some p) (sym e) refl
    | inr u ↦
        subst (λ p. find_object p.object_id objects ≡ some p) (sym (Memᴰ.eq_of_singleton u)) refl
  ]
]

falls_example : (o : Object) (i : String) → Memᴰ o objects → Follows i o → rank i < rank o.object_id
falls_example o i at f = elim (Memᴰ.cases_cons at) [
  | inl e ↦ env_falls (subst (Follows i) e f)
  | inr t ↦ elim (Memᴰ.cases_cons t) [
    | inl e ↦ subst (λ p. rank i < rank p.object_id) (sym e) (app_falls (subst (Follows i) e f))
    | inr u ↦
        let e = Memᴰ.eq_of_singleton u in
        subst (λ p. rank i < rank p.object_id) (sym e) (vm_falls (subst (Follows i) e f))
  ]
]
  where
    env_falls : Follows i environment → rank i < rank o.object_id
    env_falls (inl e) = cc
    env_falls (inr (d, none_of, e)) = absurd (Memᴰ.not-nil none_of)

    app_falls : Follows i application → rank i < 1
    app_falls (inl e) = let same : "env" ≡ i = cc in subst (λ j. rank j < 1) same (omega arith)
    app_falls (inr (d, none_of, e)) = absurd (Memᴰ.not-nil none_of)

    vm_falls : Follows i machine → rank i < 2
    vm_falls (inl e) = let same : "env" ≡ i = cc in subst (λ j. rank j < 2) same (omega arith)
    vm_falls (inr (d, one, e)) =
        let which = ap (λ x. x.subscriber) (Memᴰ.eq_of_singleton one) in
        let same : "app" ≡ i = cc in subst (λ j. rank j < 2) same (omega arith)

low_example : (i : String) → suc (rank i) < 5
low_example i = ground arith

destroy_garbage-IsDestroyed_example :
    (events : List Event) × (yielded : List (Option String)) × (destroy_garbage 5 store objects
      ≡ some (events, yielded))
    × IsDestroyed store objects events yielded
destroy_garbage-IsDestroyed_example =
    destroy_garbage-IsDestroyed 5 store objects rank distinct_example falls_example low_example

collect_garbage-ends_example :
    (events : List Event) × (yielded : List (Option String)) × (collect_garbage 2 5 store objects
      ≡ some (events, 3))
    × IsDestroyed store objects events yielded
collect_garbage-ends_example =
    collect_garbage-ends 5 store objects rank distinct_example falls_example low_example

-- The machine goes first, after its subscriber was told.
destroy_garbage_run :
    destroy_garbage 5 store objects
    ≡ some (
      notify "app" "gone" "vm" ∷ destroy "vm" ∷ destroy "app" ∷ destroy "env" ∷ [],
      some "vm" ∷ some "app" ∷ some "env" ∷ [],
    )
unfolding destroy_garbage Option.bind signal_destruction_dependencies destroy_object
destroy_garbage_run = refl

-- A service, and two parts that it owns and that both subscribe to its destruction.
abbrev part : String → Object
part i = record {
  object_id = i;
  owner = some "service";
  dependencies = [];
  initialized = true;
  destroyed = false;
}

abbrev service : Object
service = record {
  object_id = "service";
  owner = none;
  dependencies =
      record { subscriber = some "a"; handler = some "gone" }
      ∷ record { subscriber = some "b"; handler = some "gone" }
      ∷ [];
  initialized = true;
  destroyed = false;
}

abbrev parts : List Object
parts = service ∷ part "a" ∷ part "b" ∷ []

-- The service is not yielded, nor are its subscribers told.
dropped_example :
    destroy_garbage 9 (λ i. find_object i parts) parts
    ≡ some (destroy "b" ∷ destroy "a" ∷ [], some "b" ∷ some "a" ∷ [])
unfolding destroy_garbage Option.bind signal_destruction_dependencies destroy_object
dropped_example = refl

-- `app` subscribes twice, and `vm` unsubscribes after it subscribed.
abbrev calls : List Call
calls =
    unsubscribe "vm" none
    ∷ subscribe "app" (some "gone")
    ∷ subscribe "vm" none
    ∷ subscribe "app" (some "gone")
    ∷ []

abbrev subscriptions : List Dependency
subscriptions = record { subscriber = some "app"; handler = some "gone" } ∷ []

calls_example : run (λ s h. ok tt) calls ≡ ok subscriptions
unfolding subscribe_destruction unsubscribe_destruction
calls_example = refl

run-IsSubscribed_example :
    count (is_of "app" (some "gone")) subscriptions
    ≡ (if is_subscribed "app" (some "gone") calls then 1 else 0)
run-IsSubscribed_example =
    run-IsSubscribed (λ s h. ok tt) calls subscriptions "app" (some "gone") calls_example

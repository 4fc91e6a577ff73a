-- ===== src/Garbage.antt =====
-- The destruction of objects: `_destroy_garbage` and `cleanup` of murano/dsl/object_store.py with
-- `signal_destruction_dependencies` and `destroy_objects` of murano/dsl/executor.py. An object is
-- known by its id. A weak reference stands for the id that it leads to now, if it leads to one. The
-- handlers' exceptions are muted, and what a handler does is left out.
pub mod Topological
pub mod Groups
pub mod Before
pub mod Grouped
pub mod Marks
pub mod Emit
pub mod Acyclic
pub mod Search
pub mod Sorted
pub mod Graph
pub mod Destroyed
pub mod Cleanup
pub mod Subscriptions
use murano_temp.Base.{
  Bool, List, Option, String, [], any_of, ap, eq_iff, false, find, if◌then◌else◌, map, none, not,
  refl, some, true, ℕ, ◌&&◌, ◌++◌, ◌==◌, ◌↔◌, ◌∷◌, ◌≡◌,
}
use murano_temp.Base.Equality.{Equality}
use murano_temp.Garbage.Groups.{gather, sorted_keys}
use murano_temp.Garbage.Topological.{topological}
use mathlib.Core.List.{reverse}
use mathlib.Core.Option

pub record Dependency : Type 0 where
  pub subscriber : Option String
  pub handler : Option String

pub record Object : Type 0 where
  pub object_id : String
  pub owner : Option String
  pub dependencies : List Dependency
  pub initialized : Bool
  pub destroyed : Bool

unfoldable pub same_key : Option String → Option String → Bool
same_key none none = true
same_key none (some j) = false
same_key (some i) none = false
same_key (some i) (some j) = i == j

pub same_key_iff : (a b : Option String) → (same_key a b ≡ true) ↔ (a ≡ b)
unfolding same_key
same_key_iff none none = (λ h. refl, λ h. refl)
same_key_iff none (some j) = (λ h. cc, λ h. cc)
same_key_iff (some i) none = (λ h. cc, λ h. cc)
same_key_iff (some i) (some j) = ((λ h. ap some ((eq_iff i j).0 h)), λ h. (eq_iff i j).1 (cc))

abbrev pub keys_equality : Equality (Option String)
keys_equality = record { eq = same_key; eq_iff = same_key_iff }

-- `subscriber in obj_subscribers`
unfoldable pub subscribed : Option String → List (Option String) → Bool
unfolding same_key
subscribed x xs = any_of (same_key x) xs

unfoldable pub add_subscribers : List Dependency → List (Option String) → List (Option String)
unfolding subscribed any_of
add_subscribers [] xs = xs
add_subscribers (d ∷ ds) xs = add_subscribers ds (elim d.subscriber [
  | none ↦ xs
  | some i ↦ if subscribed (some i) xs then xs else xs ++ some i ∷ []
])

-- The owner comes first, also where it is `None`.
unfoldable pub subscribers : Object → List (Option String)
unfolding add_subscribers
subscribers o = add_subscribers o.dependencies (o.owner ∷ [])

unfoldable pub find_object : String → List Object → Option Object
unfolding find
find_object i objects = find (λ o. o.object_id == i) objects

-- `dd_graph.get(key)`
unfoldable pub dd_graph : List Object → Option String → Option (List (Option String))
unfolding find_object subscribers
dd_graph objects none = none
dd_graph objects (some i) = Option.map subscribers (find_object i objects)

abbrev pub key_of : Object → Option String
key_of o = some o.object_id

-- The objects by index, `order`, as the list of what the sort yields.
unfoldable pub order : ℕ → List Object → Option (List (Option String × ℕ))
unfolding topological dd_graph
order fuel sentenced = topological keys_equality (dd_graph sentenced) fuel (map key_of sentenced)

-- A handler of a subscriber is looked up, and called if it is found, with the object, or `.destroy` of the object is.
pub data Event : Type 0 where
  notify : (subscriber handler object_id : String) → Event
  destroy : (object_id : String) → Event

-- No handler, and one with an empty name, is called.
unfoldable pub notified : (String → Option Object) → String → Dependency → List Event
notified store i d = elim d.handler [
  | none ↦ []
  | some h ↦ if h == "" then [] else elim (Option.bind d.subscriber store) [
    | none ↦ []
    | some o ↦ if o.initialized && not o.destroyed then notify o.object_id h i ∷ [] else []
  ]
]

unfoldable pub notifications : (String → Option Object) → String → List Dependency → List Event
unfolding notified
notifications store i [] = []
notifications store i (d ∷ ds) = notified store i d ++ notifications store i ds

-- Of one object; those of a group run side by side.
unfoldable pub signal_destruction_dependencies : (String → Option Object) → Object → List Event
unfolding notifications
signal_destruction_dependencies store o =
    if o.destroyed then [] else notifications store o.object_id o.dependencies

unfoldable pub destroy_object : Object → List Event
destroy_object o = if o.destroyed then [] else destroy o.object_id ∷ []

-- Every key of a group is that of a sentenced object.
unfoldable pub on_objects : List Object → (Object → List Event) → List (Option String) → List Event
unfolding find_object
on_objects objects f [] = []
on_objects objects f (none ∷ ks) = on_objects objects f ks
on_objects objects f (some i ∷ ks) =
    elim (find_object i objects) [ none ↦ [] | some o ↦ f o ] ++ on_objects objects f ks

-- The keys in the order in which their objects are signalled, and are destroyed and yielded.
unfoldable pub signal_order : List (Option String × ℕ) → List (Option String)
unfolding sorted_keys gather
signal_order l = gather (sorted_keys l) l

unfoldable pub destroy_order : List (Option String × ℕ) → List (Option String)
unfolding sorted_keys gather
destroy_order l = gather (reverse (sorted_keys l)) l

-- The calls, and the keys of the objects that are yielded.
unfoldable pub destroy_garbage :
    ℕ → (String → Option Object) → List Object → Option (List Event × List (Option String))
unfolding order signal_order destroy_order on_objects
destroy_garbage fuel store sentenced =
    Option.map
      (λ l. (
        on_objects sentenced (signal_destruction_dependencies store) (signal_order l)
            ++ on_objects sentenced destroy_object (destroy_order l),
        destroy_order l,
      ))
      (order fuel sentenced)

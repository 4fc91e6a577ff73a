-- ===== src/Garbage/Graph.antt =====
-- The graph of the sentenced objects: its edges lead to the owners and to the subscribers.
use murano_temp.Base.{
  Bool-cases, List, Option, Option-cases, String, [], any_of, ap, arith, eq_iff, find,
  if◌then◌else◌, inl, inr, none, refl, some, suc, sym, true, ℕ, ◌++◌, ◌<◌, ◌==◌, ◌↔◌, ◌∙◌, ◌∷◌, ◌≡◌,
  ◌⊎◌,
}
use murano_temp.Garbage.{
  Dependency, Object, add_subscribers, dd_graph, find_object, same_key, same_key_iff, subscribed,
  subscribers,
}
use mathlib.Core.List.{Memᴰ}
use mathlib.Core.List.Memᴰ
use mathlib.Core.Path.{subst}

-- `i` is the owner of the object, or subscribes to its destruction.
abbrev pub Follows : String → Object → Type 0
Follows i o =
    (o.owner ≡ some i) ⊎ ((d : Dependency) × Memᴰ d o.dependencies × (d.subscriber ≡ some i))

-- One more subscriber.
abbrev added : Option String → List (Option String) → List (Option String)
added x xs = elim x [
  | none ↦ xs
  | some i ↦ if subscribed (some i) xs then xs else xs ++ some i ∷ []
]

subscribed-in : (x : Option String) (xs : List (Option String)) → subscribed x xs ≡ true → Memᴰ x xs
unfolding subscribed any_of
subscribed-in x [] h = cc
subscribed-in x (y ∷ xs) h = elim (Bool-cases (same_key x y)) [
  | inl e ↦ Memᴰ.head ((same_key_iff x y).0 e)
  | inr n ↦ Memᴰ.tail (subscribed-in x xs (ground arith))
]

added_keeps : (x y : Option String) (xs : List (Option String)) → Memᴰ y xs → Memᴰ y (added x xs)
added_keeps none y xs at = at
added_keeps (some i) y xs at = elim (Bool-cases (subscribed (some i) xs)) [
  | inl e ↦ rw e at
  | inr n ↦ rw n (Memᴰ.append_left (some i ∷ []) at)
]

added_has : (i : String) (xs : List (Option String)) → Memᴰ (some i) (added (some i) xs)
added_has i xs = elim (Bool-cases (subscribed (some i) xs)) [
  | inl e ↦ rw e (subscribed-in (some i) xs e)
  | inr n ↦ rw n (Memᴰ.append_right xs (Memᴰ.head refl))
]

added_only :
    (x y : Option String) (xs : List (Option String)) → Memᴰ y (added x xs) → Memᴰ y xs ⊎ (x ≡ y)
added_only none y xs at = inl at
added_only (some i) y xs at = elim (Bool-cases (subscribed (some i) xs)) [
  | inl e ↦ inl (rw e at at)
  | inr n ↦ elim (Memᴰ.append_cases xs (rw n at at)) [
    | inl old ↦ inl old
    | inr new ↦ inr (sym (Memᴰ.eq_of_singleton new))
  ]
]

add_subscribers_keeps :
    (ds : List Dependency) (y : Option String) (xs : List (Option String))
    → Memᴰ y xs
    → Memᴰ y (add_subscribers ds xs)
unfolding add_subscribers
add_subscribers_keeps [] y xs at = at
add_subscribers_keeps (d ∷ ds) y xs at =
    add_subscribers_keeps ds y (added d.subscriber xs) (added_keeps d.subscriber y xs at)

add_subscribers_has :
    (ds : List Dependency) (d : Dependency) (i : String) (xs : List (Option String))
    → Memᴰ d ds
    → d.subscriber ≡ some i
    → Memᴰ (some i) (add_subscribers ds xs)
unfolding add_subscribers
add_subscribers_has [] d i xs at e = absurd (Memᴰ.not-nil at)
add_subscribers_has (c ∷ ds) d i xs at e = elim (Memᴰ.cases_cons at) [
  | inl same ↦
      let e' : c.subscriber ≡ some i = ap (λ x. x.subscriber) (sym same) ∙ e in
      add_subscribers_keeps ds (some i) (added c.subscriber xs) (rw e' (added_has i xs))
  | inr t ↦ add_subscribers_has ds d i (added c.subscriber xs) t e
]

add_subscribers_only :
    (ds : List Dependency) (i : String) (xs : List (Option String))
    → Memᴰ (some i) (add_subscribers ds xs)
    → Memᴰ (some i) xs ⊎ ((d : Dependency) × Memᴰ d ds × (d.subscriber ≡ some i))
unfolding add_subscribers
add_subscribers_only [] i xs at = inl at
add_subscribers_only (d ∷ ds) i xs at =
    elim (add_subscribers_only ds i (added d.subscriber xs) at) [
      | inl old ↦ elim (added_only d.subscriber (some i) xs old) [
        | inl k ↦ inl k
        | inr e ↦ inr (d, Memᴰ.head refl, e)
      ]
      | inr (c, t, e) ↦ inr (c, Memᴰ.tail t, e)
    ]

pub subscribers-Follows : (i : String) (o : Object) → Memᴰ (some i) (subscribers o) ↔ Follows i o
unfolding subscribers
subscribers-Follows i o = (
  λ at. elim (add_subscribers_only o.dependencies i (o.owner ∷ []) at) [
    | inl first ↦ inl (sym (Memᴰ.eq_of_singleton first))
    | inr more ↦ inr more
  ],
  λ f. elim f [
    | inl e ↦ add_subscribers_keeps o.dependencies (some i) (o.owner ∷ []) (Memᴰ.head (sym e))
    | inr (d, at, e) ↦ add_subscribers_has o.dependencies d i (o.owner ∷ []) at e
  ],
)

find_object-some :
    (i : String) (objects : List Object) (o : Object)
    → find_object i objects ≡ some o
    → Memᴰ o objects × (o.object_id ≡ i)
unfolding find_object find
find_object-some i [] o h = cc
find_object-some i (p ∷ objects) o h = elim (Bool-cases (p.object_id == i)) [
  | inl e ↦
      let h' = rw (e, find_object, find) at h in
      let same : p ≡ o = cc in
      (Memᴰ.head (sym same), ap (λ x. x.object_id) (sym same) ∙ (eq_iff p.object_id i).0 e)
  | inr n ↦
      let (at, e) = find_object-some i objects o (rw (n, find_object, find) at h) in
      (Memᴰ.tail at, e)
]

-- The objects have an id each.
abbrev pub IsKeyed : List Object → Type 0
IsKeyed objects = (o : Object) → Memᴰ o objects → find_object o.object_id objects ≡ some o

-- A key's rank, above that of `None`.
abbrev pub rank_of : (String → ℕ) → Option String → ℕ
rank_of rank none = 0
rank_of rank (some i) = suc (rank i)

pub rank_of-below :
    (rank : String → ℕ) (fuel : ℕ)
    → ((i : String) → suc (rank i) < fuel)
    → (x : Option String) → rank_of rank x < fuel
rank_of-below rank fuel low none = omega (arith, low "")
rank_of-below rank fuel low (some i) = low i

pub dd_graph-falls :
    (objects : List Object) (rank : String → ℕ)
    → ((o : Object) (i : String) → Memᴰ o objects → Follows i o → rank i < rank o.object_id)
    → (x : Option String) (xs : List (Option String)) (y : Option String)
    → dd_graph objects x ≡ some xs
    → Memᴰ y xs
    → rank_of rank y < rank_of rank x
unfolding dd_graph
dd_graph-falls objects rank h none xs y g at = cc
dd_graph-falls objects rank h (some i) xs none g at = omega arith
dd_graph-falls objects rank h (some i) xs (some j) g at =
    elim (Option-cases (find_object i objects)) [
      | inl e ↦ let none_some = rw (e, dd_graph) at g in cc
      | inr (o, e) ↦
          let (here, same) = find_object-some i objects o e in
          let g' = rw (e, dd_graph) at g in
          let known : subscribers o ≡ xs = cc in
          let follows = (subscribers-Follows j o).0 (subst (λ l. Memᴰ (some j) l) (sym known) at) in
          let low = h o j here follows in
          let level : rank o.object_id ≡ rank i = ap rank same in omega arith
    ]

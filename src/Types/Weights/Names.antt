-- ===== src/Types/Weights/Names.antt =====
-- The distance that a name gets: the first one of the traversal.
use murano_temp.Base.{
  Bool-cases, List, Option, Option-cases, String, [], ap, arith, eq_iff, if◌then◌else◌, inl, inr,
  none, refl, some, sym, text_cases, true, ℕ, ◌++◌, ◌==◌, ◌↔◌, ◌∙◌, ◌∷◌, ◌≡◌, ◌≤◌,
}
use murano_temp.Types.{Class, get_named}
use murano_temp.Types.Ancestors.Compatible.{IsConsistent}
use murano_temp.Types.Weights.{collect, name_of, set_default, weigh_type_hierarchy}
use murano_temp.Types.Weights.Order.{Rising}
use murano_temp.Types.Weights.Shortest.{Way, weighed_hierarchy-Way}
use mathlib.Core.List.{Memᴰ}
use mathlib.Core.List.Memᴰ
use mathlib.Core.Path.{subst}

-- The first item with a class of the name.
first_named : String → List (Class × ℕ) → Option ℕ
first_named name [] = none
first_named name (p ∷ l) =
    let rest = first_named name l in if name_of p.0 == name then some p.1 else rest

or_else : Option ℕ → Option ℕ → Option ℕ
or_else none o = o
or_else (some w) o = some w

get_named-append :
    (name n : String) (w : ℕ) (d : List (String × ℕ))
    → get_named name (d ++ ((n, w) ∷ []))
      ≡ or_else (get_named name d) (if n == name then some w else none)
unfolding get_named or_else
get_named-append name n w [] = refl
get_named-append name n w (x ∷ d) = elim (Bool-cases (x.0 == name)) [
  | inl y ↦ rw y refl
  | inr k ↦ rw k (get_named-append name n w d)
]

get_named-set_default :
    (name n : String) (w : ℕ) (d : List (String × ℕ))
    → get_named name (set_default n w d)
      ≡ or_else (get_named name d) (if n == name then some w else none)
unfolding set_default or_else
get_named-set_default name n w d = elim (Option-cases (get_named n d)) [
  | inl e ↦ rw e (get_named-append name n w d)
  | inr (v, e) ↦ rw e (elim (text_cases n name) [
    | inl (y, same) ↦ rw (y, sym same, e) refl
    | inr (k, _) ↦
        rw k (elim (Option-cases (get_named name d)) [
          | inl e' ↦ rw e' refl
          | inr (u, e') ↦ rw e' refl
        ])
  ])
]

get_named-collect :
    (name : String) (l : List (Class × ℕ)) (d : List (String × ℕ))
    → get_named name (collect d l) ≡ or_else (get_named name d) (first_named name l)
unfolding collect first_named or_else
get_named-collect name [] d = elim (Option-cases (get_named name d)) [
  | inl e ↦ rw e refl
  | inr (u, e) ↦ rw e refl
]
get_named-collect name (p ∷ l) d =
    get_named-collect name l (set_default (name_of p.0) p.1 d)
    ∙ ap (λ o. or_else o (first_named name l)) (get_named-set_default name (name_of p.0) p.1 d)
    ∙ elim (Option-cases (get_named name d)) [
      | inl e ↦ elim (Bool-cases (name_of p.0 == name)) [
        | inl y ↦ rw (e, y) refl
        | inr k ↦ rw (e, k) refl
      ]
      | inr (u, e) ↦ rw e refl
    ]

-- The name's first distance is that of an item, and the least of them.
first_named-least :
    (name : String) (l : List (Class × ℕ)) (p : Class × ℕ)
    → Rising l
    → Memᴰ p l
    → name_of p.0 ≡ name
    → (w : ℕ) × (first_named name l ≡ some w) × (w ≤ p.1)
unfolding first_named
first_named-least name [] p h m same = absurd (Memᴰ.not-nil m)
first_named-least name (q ∷ l) p (low, h) m same = elim (Bool-cases (name_of q.0 == name)) [
  | inl y ↦
      (q.1, rw y refl, elim (Memᴰ.cases_cons m) [ inl i ↦ rw i (omega arith) | inr k ↦ low p k ])
  | inr n ↦ elim (Memᴰ.cases_cons m) [
    | inl i ↦
        let e : (name_of q.0 == name) ≡ true =
          (eq_iff (name_of q.0) name).1 (ap (λ x. name_of x.0) (sym i) ∙ same) in
        cc
    | inr k ↦ let (w, e, le) = first_named-least name l p h k same in (w, rw n e, le)
  ]
]

first_named-in :
    (name : String) (l : List (Class × ℕ)) (w : ℕ)
    → first_named name l ≡ some w
    → (c : Class) × Memᴰ (c, w) l × (name_of c ≡ name)
unfolding first_named
first_named-in name [] w h = cc
first_named-in name (q ∷ l) w h = elim (Bool-cases (name_of q.0 == name)) [
  | inl y ↦
      let k : some q.1 ≡ some w =
        subst (λ b. (if b then some q.1 else first_named name l) ≡ some w) y h in
      let e : q.1 ≡ w = cc in
      (q.0, Memᴰ.head (ap (λ v. (q.0, v)) (sym e)), (eq_iff (name_of q.0) name).0 y)
  | inr n ↦
      let k : first_named name l ≡ some w =
        subst (λ b. (if b then some q.1 else first_named name l) ≡ some w) n h in
      let (c, m, e) = first_named-in name l w k in (c, Memᴰ.tail m, e)
]

-- A class of the name is `w` steps up, and none is nearer.
abbrev pub IsShortest : Class → String → ℕ → Type 0
IsShortest cls name w =
    (c : Class) × Way cls (c, w)
    × (name_of c ≡ name)
    × ((p : Class × ℕ) → Way cls p → name_of p.0 ≡ name → w ≤ p.1)

first_named-IsShortest :
    (cls : Class) (r : List (Class × ℕ)) (name : String) (w : ℕ)
    → Rising r
    → ((p : Class × ℕ) → Memᴰ p r ↔ Way cls p)
    → (first_named name r ≡ some w) ↔ IsShortest cls name w
first_named-IsShortest cls r name w rises same = (
  λ h.
      let (c, m, e) = first_named-in name r w h in
      (
        c,
        (same (c, w)).0 m,
        e,
        λ p way e'.
            let (v, found, le) = first_named-least name r p rises ((same p).1 way) e' in
            let i : v ≡ w = cc in omega arith,
      ),
  λ s.
      let (c, way, e, least) = s in
      let (v, found, le) = first_named-least name r (c, w) rises ((same (c, w)).1 way) e in
      let (c', m, e') = first_named-in name r v found in
      let ge = least (c', v) ((same (c', v)).0 m) e' in
      let i : v ≡ w = omega arith in found ∙ ap some i,
)

-- Where a class has no two ancestors of one name and version, a name gets a distance just when it is
-- that of the shortest way up from the class to a class of the name, the class itself included.
pub weigh_type_hierarchy-IsShortest :
    (cls : Class)
    → IsConsistent cls
    → (d : List (String × ℕ)) × (weigh_type_hierarchy cls ≡ some d)
      × ((name : String) (w : ℕ) → (get_named name d ≡ some w) ↔ IsShortest cls name w)
unfolding weigh_type_hierarchy get_named or_else
weigh_type_hierarchy-IsShortest cls unique =
    let (r, ran, rises, same) = weighed_hierarchy-Way cls unique in
    (
      collect [] r,
      rw ran refl,
      λ name w.
          let first : get_named name (collect [] r) ≡ first_named name r =
            get_named-collect name r [] in
          let (fore, back) = first_named-IsShortest cls r name w rises same in
          (λ h. fore (sym first ∙ h), λ s. first ∙ back s),
    )

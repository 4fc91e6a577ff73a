-- ===== src/Types/Ancestors/Compatible.antt =====
-- The ancestors of a class, and which classes it is compatible with.
use murano_temp.Base.{
  Bool, List, Option-cases, [], ap, arith, inl, inr, none, refl, some, suc, sym, true, ℕ, ◌<◌, ◌↔◌,
  ◌∙◌, ◌∷◌, ◌≡◌, ◌≢◌,
}
use murano_temp.Types.{
  Class, Classes, and_class, class_id, murano_class, no_class, parents, to_classes, weight, weights,
}
use murano_temp.Types.Ancestors.{
  ancestors, hierarchy, is_compatible, same_class, traverse_loop, visits, without_first,
}
use murano_temp.Types.Ancestors.Ends.{Apart, load, traverse_loop-Yields}
use murano_temp.Types.Ancestors.Visits.{
  Covered, Reached, Yields, origin, produced, visits-back, visits-fore,
}
use murano_temp.Types.Lookup.{same_id_iff}
use murano_temp.Types.Symbols.{map_option}
use mathlib.Core.List.{Memᴰ}
use mathlib.Core.List.Memᴰ
use mathlib.Core.Path.{subst}

-- A class that is above another, or is that class.
abbrev pub Above : Class → Class → Type 0
Above cls c = Reached same_class parents cls c

-- The hierarchy has no two classes of one name and version.
unfoldable pub IsConsistent : Class → Type 0
IsConsistent cls = (c d : Class) → Above cls c → Above cls d → same_class c d ≡ true → c ≡ d

pub same_class_self : (c : Class) → same_class c c ≡ true
unfolding same_class
same_class_self c = (same_id_iff (class_id c) (class_id c)).1 refl

load-to_classes :
    (cs : Classes) → load same_class parents same_class_self weight (to_classes cs) ≡ weights cs
unfolding load weights
load-to_classes no_class = refl
load-to_classes (and_class c cs) = omega (arith, load-to_classes cs)

load-parents : (c : Class) → load same_class parents same_class_self weight (parents c) < weight c
unfolding parents weight
load-parents (murano_class id ms ps cs) = omega (arith, load-to_classes cs)

traverse_loop-first :
    (fuel : ℕ) (x : Class) (r : List Class)
    → traverse_loop same_class parents (suc fuel) (x ∷ []) [] ≡ some r
    → r ≡ x ∷ without_first r
unfolding traverse_loop visits
traverse_loop-first fuel x r h =
    elim (Option-cases (traverse_loop same_class parents fuel (parents x) (x ∷ []))) [
      | inl e ↦
          let k : map_option (λ l. x ∷ l) none ≡ some r =
            subst (λ o. map_option (λ l. x ∷ l) o ≡ some r) e h in
          cc
      | inr (l, e) ↦
          let k : some (x ∷ l) ≡ some r = subst (λ o. map_option (λ l. x ∷ l) o ≡ some r) e h in
          let i : r ≡ x ∷ l = cc in i ∙ ap (λ m. x ∷ m) (sym (ap without_first i))
    ]

in_place :
    (cls c : Class) (r : List Class)
    → IsConsistent cls
    → ((d : Class) → Memᴰ d r → Above cls d)
    → Above cls c
    → Covered same_class parents c [] r
    → Memᴰ c r
unfolding IsConsistent
in_place cls c r unique above way (y, inl m, e) = absurd (Memᴰ.not-nil m)
in_place cls c r unique above way (y, inr m, e) = Memᴰ.cast (sym (unique y c (above y m) way e)) m

all_yielded :
    (cls : Class) (r : List Class)
    → Yields same_class parents (cls ∷ []) [] r
    → ((d : Class) → Memᴰ d r → Above cls d)
    → IsConsistent cls
    → (c : Class) → Above cls c
    → Memᴰ c r
all_yielded cls r yields above unique c origin =
    in_place cls cls r unique above origin (yields.covers cls (Memᴰ.head refl))
all_yielded cls r yields above unique c (produced {y = y} way m) =
    in_place cls c r unique above (produced way m)
      (yields.closed y c (all_yielded cls r yields above unique y way) m)

-- What the traversal yields of a hierarchy.
record Yielded (cls : Class) (r : List Class) : Type 0 where
  first : r ≡ cls ∷ without_first r
  above : (c : Class) → Memᴰ c r → Above cls c
  all : IsConsistent cls → (c : Class) → Above cls c → Memᴰ c r
  apart : Apart same_class parents same_class_self weight r

hierarchy-Yielded : (cls : Class) → (r : List Class) × (hierarchy cls ≡ some r) × Yielded cls r
unfolding hierarchy load
hierarchy-Yielded cls =
    let (r, ran, yields, apart) =
      traverse_loop-Yields same_class parents same_class_self weight load-parents (suc (weight cls))
        (cls ∷ []) [] (omega arith) in
    let above : (c : Class) → Memᴰ c r → Above cls c = λ c m.
      let (q, at, way) = yields.sound c m in subst (λ x. Above x c) (Memᴰ.eq_of_singleton at) way in
    (
      r,
      ran,
      record {
        first = traverse_loop-first (weight cls) cls r ran;
        above = above;
        all = all_yielded cls r yields above;
        apart = apart;
      },
    )

-- Where a class has no two ancestors of one name and version, its ancestors are exactly the classes
-- above it but itself; they are found in the fuel that the traversal has.
pub ancestors-Above :
    (cls : Class)
    → IsConsistent cls
    → (r : List Class) × (ancestors cls ≡ some r)
      × ((c : Class) → Memᴰ c r ↔ (Above cls c × (c ≢ cls)))
unfolding ancestors
ancestors-Above cls unique =
    let (r, ran, y) = hierarchy-Yielded cls in
    let parted : Apart same_class parents same_class_self weight (cls ∷ without_first r) =
      subst (λ l. Apart same_class parents same_class_self weight l) y.first y.apart in
    (
      without_first r,
      rw ran refl,
      λ c. (
        λ m. (
          y.above c (subst (λ l. Memᴰ c l) (sym y.first) (Memᴰ.tail m)),
          λ e. let n = parted.0 c m in let s = same_class_self cls in cc,
        ),
        λ s. elim (Memᴰ.cases_cons (subst (λ l. Memᴰ c l) y.first (y.all unique c s.0))) [
          | inl e ↦ absurd (s.1 e)
          | inr m ↦ m
        ],
      ),
    )

-- Where a class has no two ancestors of one name and version, another class is compatible with it just
-- when the class or one above it has the other's name and version.
pub is_compatible-Above :
    (cls obj : Class)
    → IsConsistent obj
    → (b : Bool) × (is_compatible cls obj ≡ some b)
      × ((b ≡ true) ↔ ((c : Class) × Above obj c × (same_class c cls ≡ true)))
unfolding is_compatible ancestors visits
is_compatible-Above cls obj unique =
    let (r, ran, y) = hierarchy-Yielded obj in
    let whole : List Class = obj ∷ without_first r in
    (
      visits same_class parents cls whole,
      rw ran refl,
      (
        λ h.
            let (c, m, e) = visits-fore same_class parents cls whole h in
            (c, y.above c (subst (λ l. Memᴰ c l) (sym y.first) m), e),
        λ s.
            let (c, way, e) = s in
            visits-back same_class parents cls c whole
              (subst (λ l. Memᴰ c l) y.first (y.all unique c way)) e,
      ),
    )

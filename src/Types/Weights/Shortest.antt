-- ===== src/Types/Weights/Shortest.antt =====
-- What the traversal with distances yields, and the first distance of each name.
use murano_temp.Base.{
  List, [], ap, ap₂, arith, inl, inr, refl, some, suc, sym, true, ℕ, ◌+◌, ◌<◌, ◌==◌, ◌↔◌, ◌∷◌, ◌≡◌,
}
use murano_temp.Base.Num.{==_iff}
use murano_temp.Types.{
  Class, Classes, and_class, murano_class, no_class, parents, to_classes, weight, weights,
}
use murano_temp.Types.Ancestors.{same_class}
use murano_temp.Types.Ancestors.Compatible.{Above, IsConsistent, same_class_self}
use murano_temp.Types.Ancestors.Ends.{load, traverse_loop-Yields}
use murano_temp.Types.Ancestors.Visits.{Covered, Reached, Yields, origin, produced}
use murano_temp.Types.Weights.{same_weighed, weighed_hierarchy, weighed_parents, with_weight}
use murano_temp.Types.Weights.Order.{Rising, traverse_loop-Rising}
use mathlib.Core.List.{Memᴰ}
use mathlib.Core.List.Memᴰ
use mathlib.Core.Path.{subst}

-- There is a way of `w` steps up from `cls` to `c`.
abbrev pub Way : Class → Class × ℕ → Type 0
Way cls p = Reached same_weighed weighed_parents (cls, 0) p

in_with_weight_class :
    (w : ℕ) (q : Class × ℕ) (cs : List Class) → Memᴰ q (with_weight w cs) → Memᴰ q.0 cs
in_with_weight_class w q [] m = absurd (Memᴰ.not-nil m)
in_with_weight_class w q (c ∷ cs) m = elim (Memᴰ.cases_cons m) [
  | inl e ↦ Memᴰ.head (ap (λ p. p.0) e)
  | inr k ↦ Memᴰ.tail (in_with_weight_class w q cs k)
]

Way-Above : (cls : Class) (p : Class × ℕ) → Way cls p → Above cls p.0
unfolding weighed_parents
Way-Above cls p origin = origin
Way-Above cls p (produced {y = y} way m) =
    produced (Way-Above cls y way) (in_with_weight_class (y.1 + 1) p (parents y.0) m)

same_weighed_self : (p : Class × ℕ) → same_weighed p p ≡ true
unfolding same_weighed
same_weighed_self p =
    let e = same_class_self p.0 in
    let n = (murano_temp.Base.Num.==_iff p.1 p.1).1 refl in ground (arith, e, n)

weight_of : Class × ℕ → ℕ
weight_of p = weight p.0

load-with_weight :
    (w : ℕ) (cs : Classes)
    → load same_weighed weighed_parents same_weighed_self weight_of (with_weight w (to_classes cs))
      ≡ weights cs
unfolding load weights weight_of
load-with_weight w no_class = refl
load-with_weight w (and_class c cs) = omega (arith, load-with_weight w cs)

load-weighed_parents :
    (p : Class × ℕ)
    → load same_weighed weighed_parents same_weighed_self weight_of (weighed_parents p)
      < weight_of p
unfolding weighed_parents parents weight weight_of
load-weighed_parents (murano_class id ms ps cs, w) = omega (arith, load-with_weight (w + 1) cs)

weighed_in_place :
    (cls : Class) (p : Class × ℕ) (r : List (Class × ℕ))
    → IsConsistent cls
    → ((q : Class × ℕ) → Memᴰ q r → Way cls q)
    → Way cls p
    → Covered same_weighed weighed_parents p [] r
    → Memᴰ p r
unfolding IsConsistent same_weighed
weighed_in_place cls p r unique reaches way (y, inl m, e) = absurd (Memᴰ.not-nil m)
weighed_in_place cls p r unique reaches way (y, inr m, e) =
    let first : same_class y.0 p.0 ≡ true = ground (arith, e) in
    let second : murano_temp.Base.Num.◌==◌ y.1 p.1 ≡ true = ground (arith, e) in
    let c : y.0 ≡ p.0 =
      unique y.0 p.0 (Way-Above cls y (reaches y m)) (Way-Above cls p way) first in
    let w : y.1 ≡ p.1 = (murano_temp.Base.Num.==_iff y.1 p.1).0 second in
    Memᴰ.cast (sym (ap₂ (λ a b. (a, b)) c w)) m

all_weighed :
    (cls : Class) (r : List (Class × ℕ))
    → Yields same_weighed weighed_parents ((cls, 0) ∷ []) [] r
    → ((q : Class × ℕ) → Memᴰ q r → Way cls q)
    → IsConsistent cls
    → (p : Class × ℕ) → Way cls p
    → Memᴰ p r
all_weighed cls r yields reaches unique p origin =
    weighed_in_place cls (cls, 0) r unique reaches origin (yields.covers (cls, 0) (Memᴰ.head refl))
all_weighed cls r yields reaches unique p (produced {y = y} way m) =
    weighed_in_place cls p r unique reaches (produced way m)
      (yields.closed y p (all_weighed cls r yields reaches unique y way) m)

pub weighed_hierarchy-Way :
    (cls : Class)
    → IsConsistent cls
    → (r : List (Class × ℕ)) × (weighed_hierarchy cls ≡ some r)
      × Rising r
      × ((p : Class × ℕ) → Memᴰ p r ↔ Way cls p)
unfolding weighed_hierarchy load weight_of
weighed_hierarchy-Way cls unique =
    let (r, ran, yields, apart) =
      traverse_loop-Yields same_weighed weighed_parents same_weighed_self weight_of
        load-weighed_parents (suc (weight cls)) ((cls, 0) ∷ []) [] (omega arith) in
    let reaches : (p : Class × ℕ) → Memᴰ p r → Way cls p = λ p m.
      let (q, at, way) = yields.sound p m in
      subst (λ x. Reached same_weighed weighed_parents x p) (Memᴰ.eq_of_singleton at) way in
    let order =
      traverse_loop-Rising (suc (weight cls)) 0 ((cls, 0) ∷ []) [] r
        ((λ q m. absurd (Memᴰ.not-nil m)), tt) (λ q m. omega arith) ran in
    (r, ran, order.0, λ p. (reaches p, all_weighed cls r yields reaches unique p))

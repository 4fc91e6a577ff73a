-- ===== src/Types/Weights/Order.antt =====
-- The traversal yields the classes in the order of their distances.
use murano_temp.Base.{
  Bool-cases, List, [], ap, arith, inl, inr, refl, some, suc, sym, zero, ℕ, ◌++◌, ◌+◌, ◌∙◌, ◌∷◌,
  ◌≡◌, ◌≤◌,
}
use murano_temp.Types.{Class, parents}
use murano_temp.Types.Ancestors.{traverse_loop, visits}
use murano_temp.Types.Ancestors.Visits.{traverse_loop-skip, traverse_loop-visit}
use murano_temp.Types.Symbols.{map_option-some}
use murano_temp.Types.Weights.{same_weighed, weighed_parents, with_weight}
use mathlib.Core.List.{Memᴰ}
use mathlib.Core.List.Memᴰ
use mathlib.Core.Path.{subst}

-- No item is farther than one after it.
abbrev pub Rising : List (Class × ℕ) → Type 0
Rising [] = Unit
Rising (p ∷ l) = ((q : Class × ℕ) → Memᴰ q l → p.1 ≤ q.1) × Rising l

-- Besides, the items after one are at most 1 farther.
abbrev Banded : List (Class × ℕ) → Type 0
Banded [] = Unit
Banded (p ∷ l) = ((q : Class × ℕ) → Memᴰ q l → (p.1 ≤ q.1) × (q.1 ≤ p.1 + 1)) × Banded l

in_with_weight : (w : ℕ) (q : Class × ℕ) (cs : List Class) → Memᴰ q (with_weight w cs) → q.1 ≡ w
in_with_weight w q [] m = absurd (Memᴰ.not-nil m)
in_with_weight w q (c ∷ cs) m = elim (Memᴰ.cases_cons m) [
  | inl e ↦ ap (λ p. p.1) e
  | inr k ↦ in_with_weight w q cs k
]

Banded-with_weight : (w : ℕ) (cs : List Class) → Banded (with_weight w cs)
Banded-with_weight w [] = tt
Banded-with_weight w (c ∷ cs) = (
  (λ q m. let e = in_with_weight w q cs m in (omega arith, omega arith)),
  Banded-with_weight w cs,
)

Banded-append :
    (b : ℕ) (l : List (Class × ℕ)) (cs : List Class)
    → ((q : Class × ℕ) → Memᴰ q l → (b ≤ q.1) × (q.1 ≤ b + 1))
    → Banded l
    → Banded (l ++ with_weight (b + 1) cs)
Banded-append b [] cs within h = Banded-with_weight (b + 1) cs
Banded-append b (p ∷ l) cs within (h, hs) = (
  λ q m. elim (Memᴰ.append_cases l m) [
    | inl k ↦ h q k
    | inr k ↦
        let e = in_with_weight (b + 1) q cs k in
        let near = within p (Memᴰ.head refl) in (omega (arith, near.1), omega (arith, near.0))
  ],
  Banded-append b l cs (λ q m. within q (Memᴰ.tail m)) hs,
)

-- What the loop yields from a queue in bands.
pub traverse_loop-Rising :
    (fuel b : ℕ) (queue visited r : List (Class × ℕ))
    → Banded queue
    → ((q : Class × ℕ) → Memᴰ q queue → b ≤ q.1)
    → traverse_loop same_weighed weighed_parents fuel queue visited ≡ some r
    → Rising r × ((q : Class × ℕ) → Memᴰ q r → b ≤ q.1)
unfolding traverse_loop weighed_parents
traverse_loop-Rising zero b queue visited r h low run = absurd cc
traverse_loop-Rising (suc fuel) b [] visited r h low run =
    let e : [] ≡ r = cc in
    subst (λ l. Rising l × ((q : Class × ℕ) → Memᴰ q l → b ≤ q.1)) e
      (tt, λ q m. absurd (Memᴰ.not-nil m))
traverse_loop-Rising (suc fuel) b (x ∷ queue) visited r (near, h) low run =
    elim (Bool-cases (visits same_weighed weighed_parents x visited)) [
      | inl y ↦
          traverse_loop-Rising fuel b queue visited r h (λ q m. low q (Memᴰ.tail m))
            (sym (traverse_loop-skip same_weighed weighed_parents fuel x queue visited y) ∙ run)
      | inr n ↦
          let (l, ran, e) =
            map_option-some (λ l. x ∷ l) _
              (sym (traverse_loop-visit same_weighed weighed_parents fuel x queue visited n)
                ∙ run) in
          let bottom : b ≤ x.1 = low x (Memᴰ.head refl) in
          let (rises, above) =
            traverse_loop-Rising fuel x.1 (queue ++ weighed_parents x) (x ∷ visited) l
              (Banded-append x.1 queue (parents x.0) near h)
              (λ q m. elim (Memᴰ.append_cases queue m) [
                | inl k ↦ (near q k).0
                | inr k ↦ let i = in_with_weight (x.1 + 1) q (parents x.0) k in omega arith
              ])
              ran in
          subst (λ l. Rising l × ((q : Class × ℕ) → Memᴰ q l → b ≤ q.1)) (sym e)
            (
              (above, rises),
              λ q m. elim (Memᴰ.cases_cons m) [
                | inl i ↦ rw i bottom
                | inr k ↦ let up = above q k in omega arith
              ],
            )
    ]

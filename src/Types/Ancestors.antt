-- ===== src/Types/Ancestors.antt =====
-- `traverse` of murano/dsl/helpers.py, and the ancestors of a class in murano/dsl/murano_type.py.
pub mod Visits
pub mod Ends
pub mod Compatible
pub mod Found
use murano_temp.Base.{
  Bool, List, Option, [], false, none, some, suc, true, zero, ℕ, ◌++◌, ◌||◌, ◌∷◌,
}
use murano_temp.Types.{Class, class_id, parents, weight}
use murano_temp.Types.Lookup.{same_id}
use murano_temp.Types.Symbols.{map_option}

module _ {A : Type 0} (same : A → A → Bool) (producer : A → List A) where
  -- `item in visited`
  unfoldable pub visits : A → List A → Bool
  visits x [] = false
  visits x (y ∷ ys) = same y x || visits x ys

  -- The loop over the queue, with the items that it yields; `none` says that the fuel ran out.
  unfoldable pub traverse_loop : ℕ → List A → List A → Option (List A)
  unfolding visits
  traverse_loop zero queue visited = none
  traverse_loop (suc fuel) [] visited = some []
  traverse_loop (suc fuel) (x ∷ queue) visited = elim (visits x visited) [
    | true ↦ traverse_loop fuel queue visited
    | false ↦ map_option (λ r. x ∷ r) (traverse_loop fuel (queue ++ producer x) (x ∷ visited))
  ]

-- `MuranoClass.__eq__`
unfoldable pub same_class : Class → Class → Bool
unfolding same_id class_id
same_class c d = same_id (class_id c) (class_id d)

-- `helpers.traverse(self, lambda t: t.parents)`
unfoldable pub hierarchy : Class → Option (List Class)
unfolding traverse_loop same_class
hierarchy cls = traverse_loop same_class parents (suc (weight cls)) (cls ∷ []) []

-- The first item is the class itself, which is none of its ancestors.
abbrev pub without_first {ℓ} : {A : Type ℓ} → List A → List A
without_first [] = []
without_first (x ∷ xs) = xs

unfoldable pub ancestors : Class → Option (List Class)
unfolding hierarchy
ancestors cls = map_option without_first (hierarchy cls)

-- `is_compatible`, of a class
unfoldable pub is_compatible : Class → Class → Option Bool
unfolding ancestors same_class visits
is_compatible cls obj =
    map_option (λ above. same_class obj cls || visits same_class parents cls above) (ancestors obj)

-- ===== src/Types/Weights.antt =====
-- `weigh_type_hierarchy` of murano/dsl/murano_type.py: how far a class's ancestors are above it.
pub mod Order
pub mod Shortest
pub mod Names
use murano_temp.Base.{
  Bool, List, Option, String, [], if◌then◌else◌, is_some, suc, ℕ, ◌&&◌, ◌++◌, ◌+◌, ◌==◌, ◌∷◌,
}
use murano_temp.Types.{Class, class_id, get_named, parents, weight}
use murano_temp.Types.Ancestors.{same_class, traverse_loop}
use murano_temp.Types.Symbols.{map_option}

unfoldable pub same_weighed : Class × ℕ → Class × ℕ → Bool
same_weighed p q = same_class p.0 q.0 && murano_temp.Base.Num.◌==◌ p.1 q.1

abbrev pub with_weight : ℕ → List Class → List (Class × ℕ)
with_weight w [] = []
with_weight w (c ∷ cs) = (c, w) ∷ with_weight w cs

unfoldable pub weighed_parents : Class × ℕ → List (Class × ℕ)
weighed_parents p = with_weight (p.1 + 1) (parents p.0)

unfoldable pub name_of : Class → String
unfolding class_id
name_of c = (class_id c).class_name

-- `result.setdefault(name, w)`
unfoldable pub set_default : String → ℕ → List (String × ℕ) → List (String × ℕ)
unfolding get_named
set_default name w d = if is_some (get_named name d) then d else d ++ ((name, w) ∷ [])

unfoldable pub collect : List (String × ℕ) → List (Class × ℕ) → List (String × ℕ)
unfolding set_default name_of
collect d [] = d
collect d (p ∷ l) = collect (set_default (name_of p.0) p.1 d) l

unfoldable pub weighed_hierarchy : Class → Option (List (Class × ℕ))
unfolding same_weighed weighed_parents
weighed_hierarchy cls =
    traverse_loop same_weighed weighed_parents (suc (weight cls)) ((cls, 0) ∷ []) []

unfoldable pub weigh_type_hierarchy : Class → Option (List (String × ℕ))
unfolding weighed_hierarchy collect
weigh_type_hierarchy cls = map_option (collect []) (weighed_hierarchy cls)

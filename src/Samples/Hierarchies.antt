-- ===== src/Samples/Hierarchies.antt =====
-- The theorems on classes, at a hierarchy in which two parents of a class have the same parent.
use murano_temp.Base.{
  Bool, List, String, [], ap₂, false, inl, inr, refl, some, sym, true, ℕ, ◌==◌, ◌↔◌, ◌∙◌, ◌∷◌, ◌≡◌,
  ◌≢◌, ◌⊎◌,
}
use murano_temp.Types.{
  Class, ClassId, Method, and_class, class_id, get_named, methods, murano_class, no_class, parents,
  weight,
}
use murano_temp.Types.Ancestors.{ancestors, is_compatible, same_class}
use murano_temp.Types.Ancestors.Compatible.{
  Above, IsConsistent, ancestors-Above, is_compatible-Above,
}
use murano_temp.Types.Ancestors.Found.{find_methods, find_methods-Above, values}
use murano_temp.Types.Ancestors.Visits.{origin, produced}
use murano_temp.Types.Lookup.{
  Choice, chosen, find_single_method, method_identity, method_named, not_found, same_id,
  same_method, single_symbol,
}
use murano_temp.Types.Lookup.Own.{find_single_method-own}
use murano_temp.Types.Lookup.Single.{Explains, single_symbol-Explains}
use murano_temp.Types.Symbols.{choose_symbol, find_symbol_chains}
use murano_temp.Types.Symbols.Chosen.{Distinct, Leads, choose_symbol-Leads}
use murano_temp.Types.Weights.{weigh_type_hierarchy}
use murano_temp.Types.Weights.Names.{IsShortest, weigh_type_hierarchy-IsShortest}
use mathlib.Core.List.{Memᴰ}
use mathlib.Core.List.Memᴰ
use mathlib.Core.Path.{subst}

abbrev id_of : String → ClassId
id_of name = record { class_name = name; class_version = "1.0.0" }

abbrev deploy_of : String → Method
deploy_of name = record { declaring_type = id_of name; method_name = "deploy" }

abbrev resource : Class
resource = murano_class (id_of "io.Resource") (("deploy", deploy_of "io.Resource") ∷ []) [] no_class

abbrev server : Class
server =
    murano_class (id_of "io.Server") (("deploy", deploy_of "io.Server") ∷ []) []
      (and_class resource no_class)

abbrev volume : Class
volume = murano_class (id_of "io.Volume") [] [] (and_class resource no_class)

abbrev machine : Class
machine = murano_class (id_of "io.Machine") [] [] (and_class volume (and_class server no_class))

-- The method that one parent declares again hides the one that both inherit.
single_examples :
    (find_single_method "deploy" machine ≡ some (chosen (deploy_of "io.Server")))
    × (find_single_method "destroy" machine ≡ some not_found)
unfolding find_single_method find_symbol_chains choose_symbol parents weight get_named methods
    same_method
single_examples = (refl, refl)

choose_symbol-Leads_example :
    (r : List Method) × (choose_symbol method_identity (method_named "deploy") machine ≡ some r)
    × Distinct r
    × ((s : Method) → Memᴰ s r ↔ Leads (method_named "deploy") machine s)
choose_symbol-Leads_example = choose_symbol-Leads method_identity (method_named "deploy") machine

single_symbol-Explains_example :
    (o : Choice Method) × (single_symbol method_identity (method_named "deploy") machine ≡ some o)
    × Explains (method_named "deploy") machine o
single_symbol-Explains_example =
    single_symbol-Explains method_identity (method_named "deploy") machine

find_single_method-own_example :
    find_single_method "deploy" server ≡ some (chosen (deploy_of "io.Server"))
unfolding get_named methods
find_single_method-own_example = find_single_method-own "deploy" server (deploy_of "io.Server") refl

server-Above : (c : Class) → Above server c → (c ≡ server) ⊎ (c ≡ resource)
unfolding parents
server-Above c origin = inl refl
server-Above c (produced {y = y} way m) = elim (server-Above y way) [
  | inl e ↦ inr (Memᴰ.eq_of_singleton (subst (λ x. Memᴰ c (parents x)) e m))
  | inr e ↦ absurd (Memᴰ.not-nil (subst (λ x. Memᴰ c (parents x)) e m))
]

server_unique : IsConsistent server
unfolding IsConsistent same_class same_id class_id
server_unique c d way way' h = elim (server-Above c way) [
  | inl e ↦ elim (server-Above d way') [
    | inl e' ↦ e ∙ sym e'
    | inr e' ↦ let k : false ≡ true = sym (ap₂ (λ a b. same_class a b) e e') ∙ h in cc
  ]
  | inr e ↦ elim (server-Above d way') [
    | inl e' ↦ let k : false ≡ true = sym (ap₂ (λ a b. same_class a b) e e') ∙ h in cc
    | inr e' ↦ e ∙ sym e'
  ]
]

ancestors-Above_example :
    (r : List Class) × (ancestors server ≡ some r)
    × ((c : Class) → Memᴰ c r ↔ (Above server c × (c ≢ server)))
ancestors-Above_example = ancestors-Above server server_unique

is_compatible-Above_example :
    (b : Bool) × (is_compatible resource server ≡ some b)
    × ((b ≡ true) ↔ ((c : Class) × Above server c × (same_class c resource ≡ true)))
is_compatible-Above_example = is_compatible-Above resource server server_unique

weigh_type_hierarchy-IsShortest_example :
    (d : List (String × ℕ)) × (weigh_type_hierarchy server ≡ some d)
    × ((name : String) (w : ℕ) → (get_named name d ≡ some w) ↔ IsShortest server name w)
weigh_type_hierarchy-IsShortest_example = weigh_type_hierarchy-IsShortest server server_unique

abbrev is_deploy : Method → Bool
is_deploy m = m.method_name == "deploy"

find_methods-Above_example :
    (r : List Method) × (find_methods is_deploy server ≡ some r)
    × ((m : Method)
        → Memᴰ m r
          ↔ (((c : Class) × Above server c × Memᴰ m (values (methods c))) × (is_deploy m ≡ true)))
find_methods-Above_example = find_methods-Above is_deploy server server_unique

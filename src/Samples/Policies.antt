-- ===== src/Samples/Policies.antt =====
-- The theorems on the rules of a model, at an environment with two applications.
use murano_temp.Base.{List, String, [], refl, some, true, ◌↔◌, ◌∷◌, ◌≡◌}
use murano_temp.Base.Num.{ℤ}
use murano_temp.Base.Result.{Result, ok}
use murano_temp.Json.{
  Fields, Value, cons, contains, dict, end, field, int, list, lookup, nil, str, subscript, truthy,
}
use murano_temp.Json.Equal.{among, equal}
use murano_temp.Policy.Closure.{has, transitive_closure}
use murano_temp.Policy.Closure.Correct.{Connected}
use murano_temp.Policy.Closure.Rounds.{transitive_closure-Connected}
use murano_temp.Policy.Rules.{
  Converted, connected_rule, create_property_rules, object_rule, object_rules, parent_type_rule,
  parent_types, property_rule, relationship_rule, state_rule, walk, walked,
}
use murano_temp.Policy.Rules.Connections.{Describes, convert-Describes}
use murano_temp.Policy.Rules.Conversion.{convert}
use murano_temp.Policy.Rules.Keys.{Key, keys, same_key, text}

abbrev header : String → String → Fields
header id type_name = field "id" (str id) (field "type" (str type_name) end)

abbrev web_app : Value
web_app = dict (
    field "?" (dict (header "web" "io.Web"))
      (field "parent" (str "env") (field "port" (int (ℤ.pos 80)) end)))

abbrev model : Value
model = dict (
    field "?" (dict (header "env" "io.Environment"))
      (field "applications" (list (cons web_app nil)) end))

abbrev ancestors : String → Value → Result (List String)
ancestors name version = ok ("io.Object" ∷ [])

abbrev rules : List Converted
rules =
    walked (state_rule (str "env") "pending")
    ∷ walked (object_rule (str "env") (str "tenant") "io.Environment")
    ∷ walked (parent_type_rule (str "env") "io.Environment")
    ∷ walked (parent_type_rule (str "env") "io.Object")
    ∷ walked (object_rule (str "web") (str "env") "io.Web")
    ∷ walked (relationship_rule (str "env") (str "web") "services")
    ∷ walked (relationship_rule (str "web") (str "env") "parent")
    ∷ walked (property_rule (str "web") "port" (int (ℤ.pos 80)))
    ∷ walked (parent_type_rule (str "web") "io.Web")
    ∷ walked (parent_type_rule (str "web") "io.Object")
    ∷ connected_rule (text "env") (text "env")
    ∷ connected_rule (text "web") (text "web")
    ∷ connected_rule (text "web") (text "env")
    ∷ connected_rule (text "env") (text "web")
    ∷ []

convert-Describes_example : Describes rules
unfolding convert keys subscript lookup walk object_rules create_property_rules contains
    parent_types among equal truthy transitive_closure same_key
convert-Describes_example = convert-Describes ancestors model (str "tenant") rules refl

abbrev routes : List (Key × Key)
routes = (text "a", text "b") ∷ (text "b", text "c") ∷ (text "c", text "a") ∷ []

transitive_closure-Connected_example :
    (r : List (Key × Key)) × (transitive_closure keys routes ≡ some r)
    × ((a b : Key) → (has keys (a, b) r ≡ true) ↔ Connected keys routes a b)
transitive_closure-Connected_example = transitive_closure-Connected keys routes

-- ===== src/Policy/Rules/Connections.antt =====
-- The rules that `convert` returns: the connected pairs against the relationships beside them, and
-- the property rules against the objects.
use murano_temp.Base.{
  Bool, Bool-cases, List, String, [], ap, if◌then◌else◌, inl, inr, map, not, refl, sym, true, ◌&&◌,
  ◌++◌, ◌↔◌, ◌∷◌, ◌≡◌,
}
use murano_temp.Base.Result.{>>=-eq-ok, Result, ok, ok-injective}
use murano_temp.Json.{Value, is_none, subscript}
use murano_temp.Json.Equal.{among}
use murano_temp.Policy.Closure.{has, transitive_closure}
use murano_temp.Policy.Closure.Correct.{Connected}
use murano_temp.Policy.Closure.Rounds.{transitive_closure-Connected}
use murano_temp.Policy.Rules.{
  Converted, Rule, object_rule, parent_type_rule, property_rule, relationship_rule, state_rule,
  walk, walked,
}
use murano_temp.Policy.Rules.Conversion.{
  closure_of, connected_rules, convert, convert_environment, create_relationship, finish,
  object_ids, relation_pairs,
}
use murano_temp.Policy.Rules.Keys.{Key, keys}
use mathlib.Core.Path.{subst}

-- No property's value is among the values.
unfoldable pub refers_to_none : List Value → List Rule → Bool
unfolding among
refers_to_none ids [] = true
refers_to_none ids (property_rule id prop_name v ∷ rules) =
    not (among v ids) && refers_to_none ids rules
refers_to_none ids (_ ∷ rules) = refers_to_none ids rules

object_ids-map :
    (ids : List Value) (rules : List Rule)
    → object_ids (map (create_relationship ids) rules) ≡ object_ids rules
unfolding object_ids create_relationship
object_ids-map ids [] = refl
object_ids-map ids (property_rule id n v ∷ rules) = elim (Bool-cases (among v ids)) [
  | inl y ↦ rw y (object_ids-map ids rules)
  | inr k ↦ rw k (object_ids-map ids rules)
]
object_ids-map ids (object_rule id _ _ ∷ rules) = ap (◌∷◌ id) (object_ids-map ids rules)
object_ids-map ids (relationship_rule s t n ∷ rules) = object_ids-map ids rules
object_ids-map ids (state_rule _ _ ∷ rules) = object_ids-map ids rules
object_ids-map ids (parent_type_rule _ _ ∷ rules) = object_ids-map ids rules

refers_to_none-map :
    (ids : List Value) (rules : List Rule)
    → refers_to_none ids (map (create_relationship ids) rules) ≡ true
unfolding refers_to_none create_relationship
refers_to_none-map ids [] = refl
refers_to_none-map ids (property_rule id n v ∷ rules) = elim (Bool-cases (among v ids)) [
  | inl y ↦ rw y (refers_to_none-map ids rules)
  | inr k ↦ rw (k, k) (refers_to_none-map ids rules)
]
refers_to_none-map ids (object_rule id _ _ ∷ rules) = refers_to_none-map ids rules
refers_to_none-map ids (relationship_rule s t n ∷ rules) = refers_to_none-map ids rules
refers_to_none-map ids (state_rule _ _ ∷ rules) = refers_to_none-map ids rules
refers_to_none-map ids (parent_type_rule _ _ ∷ rules) = refers_to_none-map ids rules

closure_of-Connected :
    (pairs : List (Key × Key)) (a b : Key)
    → (has keys (a, b) (closure_of pairs) ≡ true) ↔ Connected keys pairs a b
unfolding closure_of
closure_of-Connected pairs a b =
    let (r, e, same) = transitive_closure-Connected keys pairs in rw (e, closure_of) (same a b)

-- The rules, the pairs of their relationships, and the closure of these.
pub record Describes (rules : List Converted) : Type 0 where
  base : List Rule
  pairs : List (Key × Key)
  connected : List (Key × Key)
  parts : rules ≡ map walked base ++ connected_rules connected
  relationships : relation_pairs base ≡ ok pairs
  paths : (a b : Key) → (has keys (a, b) connected ≡ true) ↔ Connected keys pairs a b
  resolved : refers_to_none (object_ids base) base ≡ true

finish-Describes :
    (model_rules : List Rule) (rules : List Converted)
    → finish model_rules ≡ ok rules
    → Describes rules
unfolding finish
finish-Describes model_rules rules h =
    let ids : List Value = object_ids model_rules in
    let base : List Rule = map (create_relationship ids) model_rules in
    >>=-eq-ok (relation_pairs base) _ h (λ pairs e g. record {
      base = base;
      pairs = pairs;
      connected = closure_of pairs;
      parts = sym (ok-injective g);
      relationships = e;
      paths = closure_of-Connected pairs;
      resolved = rw (object_ids-map ids model_rules) (refers_to_none-map ids model_rules);
    })

no_connections : connected_rules (closure_of []) ≡ []
unfolding connected_rules closure_of transitive_closure
no_connections = refl

environment-Describes :
    (ancestors : String → Value → Result (List String)) (model tenant_id : Value)
    (rules : List Converted)
    → convert_environment ancestors model tenant_id ≡ ok rules
    → Describes rules
unfolding convert_environment
environment-Describes ancestors model tenant_id rules h =
    >>=-eq-ok (subscript model "?") _ h (λ header e g.
      >>=-eq-ok (subscript header "id") _ g (λ env_id e' g'.
        >>=-eq-ok (walk ancestors env_id model tenant_id []) _ g' (λ model_rules e'' g''.
          finish-Describes (state_rule env_id "pending" ∷ model_rules) rules g'')))

no_model-Describes : Describes []
unfolding relation_pairs refers_to_none
no_model-Describes = record {
  base = [];
  pairs = [];
  connected = closure_of [];
  parts = sym no_connections;
  relationships = refl;
  paths = closure_of-Connected [];
  resolved = refl;
}

-- Where the conversion of a model succeeds, its rules are base rules and connected rules after them:
-- the connected rules are of exactly the pairs of ids between which the base rules' relationships
-- make a path; and no base rule has an object's id as the value of a property.
pub convert-Describes :
    (ancestors : String → Value → Result (List String)) (model tenant_id : Value)
    (rules : List Converted)
    → convert ancestors model tenant_id ≡ ok rules
    → Describes rules
unfolding convert
convert-Describes ancestors model tenant_id rules h =
    let made : Result (List Converted) = convert_environment ancestors model tenant_id in
    elim (Bool-cases (is_none model)) [
      | inl y ↦
          subst (λ l. Describes l)
            (ok-injective (subst (λ b. (if b then ok [] else made) ≡ ok rules) y h))
            no_model-Describes
      | inr n ↦
          environment-Describes ancestors model tenant_id rules
            (subst (λ b. (if b then ok [] else made) ≡ ok rules) n h)
    ]

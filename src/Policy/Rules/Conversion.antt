-- ===== src/Policy/Rules/Conversion.antt =====
-- `CongressRulesManager.convert` of murano/policy/congress_rules.py, after the walk over the model:
-- references become relationships, and the connected pairs follow.
-- `[rule.obj_id for rule in self._rules if isinstance(rule, ObjectRule)]`
use murano_temp.Base.{List, String, [], if◌then◌else◌, map, none, some, ◌++◌, ◌∷◌}
use murano_temp.Base.Result.{Result, ok, ◌>>=◌}
use murano_temp.Json.{Value, is_none, subscript}
use murano_temp.Json.Equal.{among}
use murano_temp.Policy.Closure.{transitive_closure}
use murano_temp.Policy.Rules.{
  Converted, Rule, connected_rule, object_rule, property_rule, relationship_rule, state_rule, walk,
  walked,
}
use murano_temp.Policy.Rules.Keys.{Key, keys, to_key}

unfoldable pub object_ids : List Rule → List Value
object_ids [] = []
object_ids (object_rule id owner_id type_name ∷ rules) = id ∷ object_ids rules
object_ids (_ ∷ rules) = object_ids rules

-- `_create_relationship`
unfoldable pub create_relationship : List Value → Rule → Rule
create_relationship app_ids (property_rule id prop_name v) =
    if among v app_ids then relationship_rule id v prop_name else property_rule id prop_name v
create_relationship app_ids rule = rule

-- `[(rel.source_id, rel.target_id) for rel in self._rules if isinstance(rel, RelationshipRule)]`,
-- as elements of a set
unfoldable pub relation_pairs : List Rule → Result (List (Key × Key))
unfolding to_key
relation_pairs [] = ok []
relation_pairs (relationship_rule source target rel_name ∷ rules) = do
  s ← to_key source
  t ← to_key target
  rest ← relation_pairs rules
  ok ((s, t) ∷ rest)
relation_pairs (_ ∷ rules) = relation_pairs rules

unfoldable pub connected_rules : List (Key × Key) → List Converted
connected_rules [] = []
connected_rules (p ∷ ps) = connected_rule p.0 p.1 ∷ connected_rules ps

-- The closure is computed in the fuel that it has.
unfoldable pub closure_of : List (Key × Key) → List (Key × Key)
closure_of pairs = elim (transitive_closure keys pairs) [ none ↦ [] | some c ↦ c ]

-- From the line on that collects the objects' ids.
unfoldable pub finish : List Rule → Result (List Converted)
unfolding create_relationship relation_pairs connected_rules closure_of object_ids
finish model_rules = do
  let rules = map (create_relationship (object_ids model_rules)) model_rules
  pairs ← relation_pairs rules
  ok (map walked rules ++ connected_rules (closure_of pairs))

-- The model of an environment.
unfoldable pub convert_environment :
    (String → Value → Result (List String)) → Value → Value → Result (List Converted)
unfolding finish
convert_environment ancestors model tenant_id = do
  header ← subscript model "?"
  env_id ← subscript header "id"
  model_rules ← walk ancestors env_id model tenant_id []
  finish (state_rule env_id "pending" ∷ model_rules)

unfoldable pub convert :
    (String → Value → Result (List String)) → Value → Value → Result (List Converted)
unfolding convert_environment
convert ancestors model tenant_id =
    if is_none model then ok [] else convert_environment ancestors model tenant_id

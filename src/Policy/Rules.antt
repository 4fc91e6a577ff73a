-- ===== src/Policy/Rules.antt =====
-- `CongressRulesManager` of murano/policy/congress_rules.py: the rules of a model. `ancestors` is the
-- package loader with the version's parser: the names of the ancestors of a class, none without a
-- loader or a class.
pub mod Keys
pub mod Conversion
pub mod Connections
use murano_temp.Base.{
  Bool, List, Option, String, [], false, if◌then◌else◌, is_some, none, not, some, true, ◌&&◌, ◌++◌,
  ◌==◌, ◌||◌, ◌∷◌,
}
use murano_temp.Base.Result.{Result, err, from_option, ok, type_error, ◌>>=◌, ◌>>◌}
use murano_temp.Json.{
  Fields, Items, Value, boolean, cons, contains, dict, end, field, int, list, lookup, nil, null,
  str, subscript, truthy,
}
use murano_temp.Policy.Rules.Keys.{Key}
use murano_temp.Text.{is_char}
use murano_temp.Text.TypeName.{TypeParts, parse_type}

-- The rules that the walk makes, one constructor for each class.
pub data Rule : Type 0 where
  state_rule : Value → String → Rule
  object_rule : Value → Value → String → Rule
  property_rule : Value → String → Value → Rule
  relationship_rule : Value → Value → String → Rule
  parent_type_rule : Value → String → Rule

-- What `convert` returns: such rules, and the pairs of the closure, which are elements of a set.
pub data Converted : Type 0 where
  walked : Rule → Converted
  connected_rule : Key → Key → Converted

-- `helpers.parse_type_string(type_name, …)`: no text, and no match, are a TypeError.
type_parts : Value → Result TypeParts
unfolding parse_type
type_parts (str s) = from_option (parse_type s) type_error
type_parts _ = err type_error

-- `v['?']['id']`
header_item : Value → String → Result Value
header_item v k = do header ← subscript v "?"; subscript header k

-- `prefix.split('.')[0]`
unfoldable pub first_part : String → String
first_part String.[] = String.[]
first_part (String.◌∷◌ c s) =
    let rest = first_part s in if is_char b'.' c then String.[] else String.◌∷◌ c rest

is_dict : Value → Bool
is_dict (dict fs) = true
is_dict _ = false

-- The items of a list that are no dicts.
unfoldable pub item_rules : Value → String → Items → List Rule
unfolding is_dict
item_rules obj_id prop_name nil = []
item_rules obj_id prop_name (cons x xs) =
    let rest = item_rules obj_id prop_name xs in
    if is_dict x then rest else property_rule obj_id prop_name x ∷ rest

-- The start of `_create_property_rules`: a dict with a header that is not the object itself is a
-- relationship, and its properties are another's.
unfoldable pub reference_or : Value → Fields → String → Result (List Rule) → Result (List Rule)
unfolding first_part header_item
reference_or obj_id fs prefix inner =
    if is_some (lookup "?" fs) && not (prefix == "")
    then (do
      target ← header_item (dict fs) "id"
      ok (relationship_rule obj_id target (first_part prefix) ∷ []))
    else inner

-- The loop of `_create_property_rules`.
unfoldable mutual
  unfolding item_rules reference_or

  pub property_rules : Value → Fields → String → Result (List Rule)
  property_rules obj_id end prefix = ok []
  property_rules obj_id (field k v fs) prefix = do
    let here = value_rules obj_id v (Prim.Native.String.◌++◌ prefix k)
    rules ← if k == "?" then ok [] else here
    rest ← property_rules obj_id fs prefix
    ok (rules ++ rest)

  pub value_rules : Value → Value → String → Result (List Rule)
  value_rules obj_id null prop_name = ok []
  value_rules obj_id (dict fs) prop_name =
      let prefix = Prim.Native.String.◌++◌ prop_name "." in
      reference_or obj_id fs prefix (property_rules obj_id fs prefix)
  value_rules obj_id (list xs) prop_name = ok (item_rules obj_id prop_name xs)
  value_rules obj_id (boolean b) prop_name = ok (property_rule obj_id prop_name (boolean b) ∷ [])
  value_rules obj_id (int n) prop_name = ok (property_rule obj_id prop_name (int n) ∷ [])
  value_rules obj_id (str s) prop_name = ok (property_rule obj_id prop_name (str s) ∷ [])

unfoldable pub create_property_rules : Value → Fields → String → Result (List Rule)
unfolding property_rules reference_or
create_property_rules obj_id fs prefix =
    reference_or obj_id fs prefix (property_rules obj_id fs prefix)

-- A set of names: the first of each.
named_in : String → List String → Bool
named_in name [] = false
named_in name (n ∷ ns) = n == name || named_in name ns

add_names : List String → List String → List String
unfolding named_in
add_names names [] = names
add_names names (n ∷ ns) = add_names (if named_in n names then names else names ++ (n ∷ [])) ns

unfoldable pub parent_types : Value → List String → List Rule
parent_types obj_id [] = []
parent_types obj_id (t ∷ ts) = parent_type_rule obj_id t ∷ parent_types obj_id ts

version_of : Option String → Value → Value
version_of none default = default
version_of (some v) default = str v

-- `path == ('applications',)`
at_applications : List String → Bool
at_applications [] = false
at_applications (k ∷ []) = k == "applications"
at_applications (k ∷ j ∷ ks) = false

module _ (ancestors : String → Value → Result (List String)) where
  -- `_get_parent_types`
  get_parent_types : Value → Value → Result (List String)
  unfolding type_parts version_of add_names
  get_parent_types type_name version_spec = do
    parts ← type_parts type_name
    names ← ancestors parts.name (version_of parts.version version_spec)
    ok (add_names (parts.name ∷ []) names)

  -- `_process_item` of a dict with a header: its id, and its rules.
  unfoldable pub object_rules : Value → Value → Fields → List String → Result (Value × List Rule)
  unfolding header_item type_parts at_applications get_parent_types
  object_rules env_id owner_id fs path = do
    obj_id ← header_item (dict fs) "id"
    type_name ← header_item (dict fs) "type"
    parts ← type_parts type_name
    properties ← create_property_rules obj_id fs ""
    header ← subscript (dict fs) "?"
    versioned ← contains header "classVersion"
    version_spec ← if versioned then subscript header "classVersion" else ok (str "*")
    types ← get_parent_types type_name version_spec
    let services =
        if at_applications path then relationship_rule env_id obj_id "services" ∷ [] else []
    ok (
      obj_id,
      object_rule obj_id owner_id parts.name ∷ services ++ properties ++ parent_types obj_id types,
    )

  -- `_process_item(obj, owner_id, path) or owner_id`, with the rules
  unfoldable pub process_item : Value → Value → Fields → List String → Result (Value × List Rule)
  process_item env_id owner_id fs path =
      if is_some (lookup "?" fs)
      then (do
        (obj_id, rules) ← object_rules env_id owner_id fs path
        ok (if truthy obj_id then obj_id else owner_id, rules))
      else ok (owner_id, [])

  -- `_walk`
  unfoldable mutual
    unfolding process_item

    pub walk : Value → Value → Value → List String → Result (List Rule)
    walk env_id (dict fs) owner_id path = do
      (new_owner, rules) ← process_item env_id owner_id fs path
      rest ← walk_fields env_id fs new_owner path
      ok (rules ++ rest)
    walk env_id (list xs) owner_id path = walk_items env_id xs owner_id path
    walk env_id null owner_id path = ok []
    walk env_id (boolean b) owner_id path = ok []
    walk env_id (int n) owner_id path = ok []
    walk env_id (str s) owner_id path = ok []

    pub walk_items : Value → Items → Value → List String → Result (List Rule)
    walk_items env_id nil owner_id path = ok []
    walk_items env_id (cons x xs) owner_id path = do
      rules ← walk env_id x owner_id path
      rest ← walk_items env_id xs owner_id path
      ok (rules ++ rest)

    pub walk_fields : Value → Fields → Value → List String → Result (List Rule)
    walk_fields env_id end owner_id path = ok []
    walk_fields env_id (field k v fs) owner_id path = do
      rules ← walk env_id v owner_id (path ++ (k ∷ []))
      rest ← walk_fields env_id fs owner_id path
      ok (rules ++ rest)

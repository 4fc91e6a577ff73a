-- ===== src/Tasks/Search.antt =====
-- `find_action` and `execute` of murano/services/actions.py.
use murano_temp.Base.{Option, String, if◌then◌else◌, none, not, some, true, ℕ}
use murano_temp.Base.Result.{
  Result, attribute_error, err, from_option, guard, lookup_error, ok, value_error, ◌>>=◌, ◌>>◌,
}
use murano_temp.Json.{
  Fields, Items, Value, boolean, cons, contains, dict, end, field, get_default, int, list, nil,
  null, str, subscript, truthy,
}
use murano_temp.Server.{Server, Session}
use murano_temp.Server.Tables.{get_environment}
use murano_temp.Tasks.{Rpc, submit_task}

-- The object id and the action's entry.
abbrev pub Found : Type 0
Found = Option (Value × Value)

-- The test on the dict itself: `'?' in model and 'id' in model['?'] and …`.
action_here : Fields → String → Result Found
action_here fs action_id = do
  let model = dict fs
  has_meta ← contains model "?"
  if not has_meta then ok none else do
    meta ← subscript model "?"
    has_id ← contains meta "id"
    if not has_id then ok none else do
      has_actions ← contains meta "_actions"
      if not has_actions then ok none else do
        actions ← subscript meta "_actions"
        has_action ← contains actions action_id
        if not has_action then ok none else do
          id ← subscript meta "id"
          action ← subscript actions action_id
          ok (some (id, action))

-- `if result is not None: return result`, else what comes next
abbrev first_found : Result Found → Result Found → Result Found
first_found (err e) next = err e
first_found (ok (some found)) next = ok (some found)
first_found (ok none) next = next

unfoldable mutual
  unfolding action_here

  pub find_action : Value → String → Result Found
  find_action (list xs) action_id = find_action_items xs action_id
  find_action (dict fs) action_id =
      first_found (action_here fs action_id) (find_action_fields fs action_id)
  find_action null action_id = ok none
  find_action (boolean b) action_id = ok none
  find_action (int n) action_id = ok none
  find_action (str s) action_id = ok none

  pub find_action_items : Items → String → Result Found
  find_action_items nil action_id = ok none
  find_action_items (cons x xs) action_id =
      first_found (find_action x action_id) (find_action_items xs action_id)

  pub find_action_fields : Fields → String → Result Found
  find_action_fields end action_id = ok none
  find_action_fields (field k v fs) action_id =
      first_found (find_action v action_id) (find_action_fields fs action_id)

unfoldable pub execute :
    Rpc → String → ℕ → String → Session → String → Value → Server → Result (Result String × Server)
unfolding find_action submit_task
execute rpc task_id now action_id session token args s = do
  let environment = get_environment session.environment_id s
  found ← find_action session.description action_id
  action ← from_option found lookup_error
  enabled ← get_default action.1 "enabled" (boolean true)
  guard (truthy enabled) value_error
  name ← subscript action.1 "name"
  row ← from_option environment attribute_error
  submit_task rpc task_id now name action.0 args row session token s

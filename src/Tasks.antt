-- ===== src/Tasks.antt =====
-- murano/services/actions.py and murano/db/services/actions.py: the task that the engine gets, the
-- rows that record it, and the search for an action in an object model.
pub mod Search
pub mod Effect
use murano_temp.Base.{String, [], if◌then◌else◌, none, ℕ, ◌&&◌, ◌++◌, ◌∷◌}
use murano_temp.Base.Result.{Result, err, ok, type_error, ◌>>=◌, ◌>>◌}
use murano_temp.Json.{
  Value, dict, end, field, get_default, is_none, list, nil, null, pop_default, store_item, str,
  subscript, truthy,
}
use murano_temp.Sanitize.{sanitize}
use murano_temp.Server.{Environment, Server, Session, SessionState, Status, Task, info, scheduled}
use murano_temp.Server.Tables.{add_status, add_task, update_session}

-- The object model of a task. The source changes the session's description in place; the column
-- does not track that, so the row keeps the old one.
unfoldable pub task_model : Value → String → Result Value
task_model description environment_id = do
  objects ← subscript description "Objects"
  if is_none objects then ok description else do
    meta ← subscript objects "?"
    named ← store_item meta "id" (str environment_id)
    with_id ← store_item objects "?" named
    popped ← pop_default with_id "services" (list nil)
    renamed ← store_item popped.1 "applications" popped.0
    store_item description "Objects" renamed

-- `{'object_id': …}` if there is an action's name and an object, else `None`
unfoldable pub task_action : Value → Value → Value → Value
task_action action_name target_obj args =
    if truthy action_name && truthy target_obj
    then dict (
        field "object_id" target_obj
          (field "method" action_name (field "args" (if truthy args then args else dict end) end)))
    else null

unfoldable pub create_action_task :
    Value → Value → Value → Environment → Session → String → Result Value
create_action_task action_name target_obj args environment session token = do
  model ← task_model session.description environment.id
  ok (
      dict (
        field "action" (task_action action_name target_obj args) (
          field "model" model (
            field "token" (str token) (
              field "tenant_id" (str environment.tenant_id)
                (field "id" (str environment.id) end))))))

-- `dict(objects)`, which `task_model` has refused before for what is no dict
abbrev dict_of : Value → Result Value
dict_of (dict fs) = ok (dict fs)
dict_of _ = err type_error

-- `if objects: task_info.description = …`
unfoldable pub task_description : Value → Result Value
unfolding sanitize
task_description objects =
    if truthy objects then (do plain ← dict_of objects; ok (sanitize plain)) else ok null

-- `description` is the session's, as `task_model` left it.
unfoldable pub update_task : String → ℕ → Value → Session → Value → Value → Server → Result Server
unfolding task_description
update_task task_id now action_name session description action s = do
  objects ← get_default description "Objects" null
  shown ← task_description objects
  let state = if is_none objects then SessionState.deleting else SessionState.deploying
  let task_info : Task = record {
    id = task_id;
    environment_id = session.environment_id;
    started = now;
    finished = none;
    description = shown;
    action = action;
    result = dict end;
  }
  let status : Status = record { task_id = task_id; text = scheduled action_name; level = info }
  ok (
      add_status status (
        add_task task_info
          (update_session session.id (λ r. record r { state = state; updated = now }) s)))

abbrev pub send : Value → Server → Server
send task s = record s { sent = s.sent ++ task ∷ [] }

-- What the messaging library answers to `handle_task`: it may raise.
abbrev pub Rpc : Type 0
Rpc = Value → Result (Unit {0})

-- `rpc.engine().handle_task(task)`, after which `a` is returned. The tables are written by then.
unfoldable pub handle_task : {A : Type 0} → Rpc → Value → A → Server → Result A × Server
handle_task rpc task a s = elim (rpc task) [ ok _ ↦ (ok a, send task s) | err e ↦ (err e, s) ]

-- Returns the id of the new task row, which is given. It raises with nothing written, or comes to an
-- answer or an exception with the tables as they are then.
unfoldable pub submit_task :
    Rpc
    → String
    → ℕ
    → Value
    → Value
    → Value
    → Environment
    → Session
    → String
    → Server
    → Result (Result String × Server)
unfolding create_action_task task_model update_task handle_task
submit_task rpc task_id now action_name target_obj args environment session token s = do
  task ← create_action_task action_name target_obj args environment session token
  model ← subscript task "model"
  action ← subscript task "action"
  s' ← update_task task_id now action_name session model action s
  ok (handle_task rpc task task_id s')

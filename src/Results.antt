-- ===== src/Results.antt =====
-- `ResultEndpoint.process_result` of murano/common/server.py: the engine's result closes the
-- deployment. What is written before an exception stays written, row by row.
pub mod Model
pub mod Closing
pub mod Stale
pub mod Closes
use murano_temp.Base.{
  Bool, Option, String, count, false, filter, if◌then◌else◌, is_some, some, suc, true, zero, ℕ,
  ◌&&◌, ◌+◌, ◌==◌,
}
use murano_temp.Base.Result.{attribute_error}
use murano_temp.Environments.{remove}
use murano_temp.Json.{Value, dict, end, get_default, is_none, subscript}
use murano_temp.Results.Model.{all_deleted, has_failed, result_model}
use murano_temp.Server.{
  Level, Server, SessionState, Status, Task, Text, Work, deletion, deployment, error, finished,
  finished_with_errors, finished_with_warnings, info, same_state, warning,
}
use murano_temp.Server.Exec.{Exec, gets, lift, modify, pure, require, ◌>>=◌, ◌>>◌}
use murano_temp.Server.Sql.{Sql}
use murano_temp.Server.Tables.{
  add_status, get_environment, of_environment, update_environment, update_session, update_task_row,
}

pub of_task : String → Task → Bool
of_task environment_id t = t.environment_id == environment_id

unfoldable pub get_last_deployment : Sql → String → Server → Option Task
unfolding of_task filter
get_last_deployment sql environment_id s = sql.latest (filter (of_task environment_id) s.tasks)

abbrev pub is_error : Level → Bool
is_error error = true
is_error _ = false

abbrev is_warning : Level → Bool
is_warning warning = true
is_warning _ = false

-- `num_errors` and `num_warnings`
unfoldable pub count_level : (Level → Bool) → String → Server → ℕ
unfolding count
count_level level task_id s = count (λ st. st.task_id == task_id && level st.level) s.statuses

abbrev final_text : Work → ℕ → ℕ → Text
final_text work zero zero = finished work
final_text work zero (suc warnings) = finished_with_warnings work
final_text work (suc errors) warnings = finished_with_errors work

abbrev pub closed_state : Bool → Bool → SessionState
closed_state deleted failed =
    if failed
    then (if deleted then SessionState.delete_failure else SessionState.deploy_failure)
    else SessionState.deployed

-- "close deployment"
close_deployment : Sql → ℕ → String → Value → Work → Exec ℕ
unfolding get_last_deployment count_level
close_deployment sql now environment_id action_result work = do
  last ← gets (get_last_deployment sql environment_id)
  row ← require last attribute_error
  num_errors ← gets (count_level is_error row.id)
  num_warnings ← gets (count_level is_warning row.id)
  let text = final_text work num_errors num_warnings
  let closing : Status = record { task_id = row.id; text = text; level = info }
  modify (λ s.
      add_status closing
        (update_task_row row.id (λ t. record t { finished = some now; result = action_result }) s))
  pure num_errors

-- "close session": the first session that is deploying, or deleting
close_session : Sql → ℕ → String → Bool → ℕ → Value → Exec (Unit {0})
unfolding has_failed filter
close_session sql now environment_id deleted num_errors result = do
  let state = if deleted then SessionState.deleting else SessionState.deploying
  row ← gets (λ s.
      sql.first
        (filter (λ r. of_environment environment_id r && same_state state r.state) s.sessions))
  failed ← lift (has_failed num_errors result)
  conf_session ← require row attribute_error
  modify (
      update_session conf_session.id
        (λ r. record r { state = closed_state deleted failed; updated = now }))

-- The environment's row: the new description, and the next version.
save_result : String → Value → Exec (Unit {0})
save_result environment_id description = modify (
    update_environment environment_id
      (λ e. record e { description = description; version = e.version + 1 }))

-- From `environment.description = model` on.
save_and_close : Sql → ℕ → Value → String → Value → Value → Exec (Unit {0})
unfolding result_model close_deployment close_session save_result
save_and_close sql now result environment_id model action_result = do
  description ← lift (result_model model)
  objects ← lift (subscript model "Objects")
  let deleted = is_none objects
  save_result environment_id description
  num_errors ←
      close_deployment sql now environment_id action_result
        (if deleted then deletion else deployment)
  close_session sql now environment_id deleted num_errors result

-- The environment exists.
apply_result : Sql → ℕ → Value → String → Value → Value → Exec (Unit {0})
unfolding all_deleted save_and_close remove
apply_result sql now result environment_id model action_result = do
  dropped ← lift (all_deleted model)
  if dropped
      then modify (remove environment_id)
      else save_and_close sql now result environment_id model action_result

unfoldable pub process_result : Sql → ℕ → Value → String → Exec (Unit {0})
unfolding apply_result
process_result sql now result environment_id = do
  model ← lift (subscript result "model")
  action_result ← lift (get_default result "action" (dict end))
  environment ← gets (get_environment environment_id)
  if is_some environment
      then apply_result sql now result environment_id model action_result
      else pure tt

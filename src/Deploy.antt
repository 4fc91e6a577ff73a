-- ===== src/Deploy.antt =====
-- `SessionServices.deploy` (murano/db/services/sessions.py) and `EnvironmentServices.deploy`
-- (murano/db/services/environments.py): a session's model is sent to the engine, or the
-- environment is removed at once where the session empties it and nothing was deployed.
pub mod Effect
use murano_temp.Base.{Bool, String, false, if◌then◌else◌, not, ℕ}
use murano_temp.Base.Result.{Result, attribute_error, from_option, ok, ◌>>=◌, ◌>>◌}
use murano_temp.Environments.{remove}
use murano_temp.Json.{Value, contains, dict, end, is_none, null, str, subscript}
use murano_temp.Server.{Environment, Server, Session}
use murano_temp.Server.Tables.{get_environment}
use murano_temp.Tasks.{Rpc, submit_task}

-- It ends like `submit_task`.
unfoldable pub session_deploy :
    Rpc → String → ℕ → Session → Environment → String → Server → Result (Result String × Server)
unfolding submit_task
session_deploy rpc task_id now session environment token s = do
  objects ← subscript session.description "Objects"
  let action_name = if is_none objects then null else str "deploy"
  submit_task rpc task_id now action_name (str environment.id) (dict end) environment session token
      s

-- `'ObjectsCopy' not in session.description`, read only if `Objects` is `None`
unfoldable pub nothing_deployed : Value → Result Bool
nothing_deployed description = do
  objects ← subscript description "Objects"
  if is_none objects
      then (do copied ← contains description "ObjectsCopy"; ok (not copied))
      else ok false

unfoldable pub deploy :
    Rpc → String → ℕ → Session → String → Server → Result (Result (Unit {0}) × Server)
unfolding session_deploy nothing_deployed remove
deploy rpc task_id now session token s = do
  let environment = get_environment session.environment_id s
  drop ← nothing_deployed session.description
  if drop then ok (ok tt, remove session.environment_id s) else do
    row ← from_option environment attribute_error
    sent ← session_deploy rpc task_id now session row token s
    ok (sent.0 >> ok tt, sent.1)

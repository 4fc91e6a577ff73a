-- ===== src/Api/Sessions.antt =====
-- The handlers of murano/api/v1/sessions.py.
use murano_temp.Access.{Request, check_env, check_session}
use murano_temp.Base.{String, not, ℕ, ◌==◌}
use murano_temp.Base.Result.{http_forbidden, http_unauthorized}
use murano_temp.Environments.{get_status, is_busy}
use murano_temp.Server.{Session, is_deploying, is_opened}
use murano_temp.Server.Exec.{Exec, ends, gets, modify, pure, raise_if, reads, ◌>>=◌, ◌>>◌}
use murano_temp.Server.Sql.{Sql}
use murano_temp.Server.Tables.{delete_session, get_session}
use murano_temp.Tasks.{Rpc}
use murano_temp.Sessions.{create, validate}

-- A new session's id and the time are given.
unfoldable pub configure : Sql → String → ℕ → Request → String → Exec Session
unfolding check_env get_status
configure sql id now request environment_id = do
  reads (check_env request environment_id)
  busy ← gets (λ s. is_busy (get_status sql environment_id s))
  raise_if busy http_forbidden
  create id now environment_id request.user

unfoldable pub show : Request → String → String → Exec Session
unfolding check_session validate
show request environment_id session_id = do
  row ← gets (get_session session_id)
  session ← reads (check_session request environment_id row)
  raise_if (not (session.user_id == request.user)) http_unauthorized
  valid ← reads (validate session)
  raise_if (not valid) http_forbidden
  pure session

unfoldable pub delete : Request → String → String → Exec (Unit {0})
unfolding check_session
delete request environment_id session_id = do
  row ← gets (get_session session_id)
  session ← reads (check_session request environment_id row)
  raise_if (not (session.user_id == request.user)) http_unauthorized
  raise_if (is_deploying session.state) http_forbidden
  modify (delete_session session.id)

-- A new task's id and the time are given.
unfoldable pub deploy : Rpc → String → ℕ → Request → String → String → Exec (Unit {0})
unfolding check_session validate
deploy rpc task_id now request environment_id session_id = do
  row ← gets (get_session session_id)
  session ← reads (check_session request environment_id row)
  valid ← reads (validate session)
  raise_if (not valid) http_forbidden
  raise_if (not (is_opened session.state)) http_forbidden
  ends (murano_temp.Deploy.deploy rpc task_id now session request.auth_token)

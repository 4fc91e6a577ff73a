-- ===== src/Api/Actions.antt =====
-- `execute` of murano/api/v1/actions.py. What the policy engine answers is given.
use murano_temp.Access.{Request, check_env}
use murano_temp.Base.{Bool, String, if◌then◌else◌, not, ℕ}
use murano_temp.Base.Result.{http_forbidden}
use murano_temp.Environments.{get_status, is_busy}
use murano_temp.Json.{Value, dict, end, truthy}
use murano_temp.Server.Exec.{Exec, ends, gets, raise_if, reads, ◌>>=◌, ◌>>◌}
use murano_temp.Server.Sql.{Sql}
use murano_temp.Tasks.{Rpc}
use murano_temp.Sessions.{create, validate}

unfoldable pub execute :
    Sql → Rpc → String → String → ℕ → Bool → Request → String → String → Value → Exec String
unfolding check_env get_status create validate
execute sql rpc session_id task_id now allowed request environment_id action_id body = do
  reads (check_env request environment_id)
  raise_if (not allowed) http_forbidden
  busy ← gets (λ s. is_busy (get_status sql environment_id s))
  raise_if busy http_forbidden
  session ← create session_id now environment_id request.user
  valid ← reads (validate session)
  raise_if (not valid) http_forbidden
  ends (
      murano_temp.Tasks.Search.execute rpc task_id now action_id session request.auth_token
        (if truthy body then body else dict end))

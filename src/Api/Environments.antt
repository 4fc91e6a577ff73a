-- ===== src/Api/Environments.antt =====
-- `delete` of murano/api/v1/environments.py. What the policy engine answers is given.
use murano_temp.Access.{Request, check_env}
use murano_temp.Base.{Bool, String, if◌then◌else◌, not, ℕ}
use murano_temp.Base.Result.{http_forbidden}
use murano_temp.Environments.{remove}
use murano_temp.Server.Exec.{Exec, modify, raise_if, reads, writes, ◌>>=◌, ◌>>◌}
use murano_temp.Server.Sql.{Sql}
use murano_temp.Tasks.{Rpc}

unfoldable pub delete :
    Sql → Rpc → String → String → ℕ → Bool → Bool → Request → String → Exec (Unit {0})
delete sql rpc session_id task_id now allowed abandon request environment_id = do
  raise_if (not allowed) http_forbidden
  if abandon
      then (do reads (check_env request environment_id); modify (remove environment_id))
      else (do
        session ← murano_temp.Api.Sessions.configure sql session_id now request environment_id
        writes (murano_temp.Environments.delete now environment_id session.id)
        murano_temp.Api.Sessions.deploy rpc task_id now request environment_id session.id)

-- ===== src/Access.antt =====
-- The checks of murano/utils.py that stand before the API's handlers. A request always has its
-- context here: the API's middleware sets it.
use murano_temp.Base.{Option, String, not, ◌==◌}
use murano_temp.Base.Result.{
  Result, from_option, guard, http_bad_request, http_forbidden, http_not_found, ok, ◌>>=◌, ◌>>◌,
}
use murano_temp.Server.{Environment, Server, Session, is_deploying}
use murano_temp.Server.Tables.{get_environment, get_session}
use murano_temp.Sessions.{validate}

pub record Request : Type 0 where
  pub tenant : String
  pub user : String
  pub auth_token : String
  -- The session named by the X-Configuration-Session header.
  pub session : Option String

unfoldable pub check_env : Request → String → Server → Result Environment
check_env request environment_id s = do
  environment ← from_option (get_environment environment_id s) http_not_found
  guard (environment.tenant_id == request.tenant) http_forbidden
  ok environment

unfoldable pub check_session : Request → String → Option Session → Server → Result Session
unfolding check_env
check_session request environment_id session s = do
  row ← from_option session http_not_found
  guard (row.environment_id == environment_id) http_bad_request
  check_env request environment_id s
  ok row

-- The session that the decorated handler works on.
unfoldable pub verify_session : Request → Server → Result Session
unfolding validate
verify_session request s = do
  session_id ← from_option request.session http_bad_request
  guard (not (session_id == "")) http_bad_request
  session ← from_option (get_session session_id s) http_not_found
  valid ← validate session s
  guard valid http_forbidden
  guard (not (is_deploying session.state)) http_forbidden
  ok session

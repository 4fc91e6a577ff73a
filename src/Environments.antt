-- ===== src/Environments.antt =====
-- murano/db/services/environments.py: the status of an environment, its removal, and reading and
-- writing its description through a session. `create` and the default networks are not modelled.
pub mod Summary
pub mod Newest
use murano_temp.Base.{
  Bool, List, Option, String, [], false, if◌then◌else◌, is_some, none, not, some, true, ℕ, ◌&&◌,
  ◌∷◌,
}
use murano_temp.Base.Result.{Result, attribute_error, err, from_option, ok, ◌>>=◌, ◌>>◌}
use murano_temp.Json.{Value, dict, null, store_item, subscript}
use murano_temp.Server.{EnvironmentStatus, Server, Session, SessionState, is_deployed}
use murano_temp.Server.Sql.{Sql}
use murano_temp.Server.Tables.{delete_environment, get_environment, get_session, update_session}
use murano_temp.Sessions.{get_sessions, validate}

-- The loop of `get_status` over the sessions, from the flag `has_opened`.
unfoldable pub status_of : Bool → List Session → EnvironmentStatus
status_of has_opened [] = if has_opened then EnvironmentStatus.pending else EnvironmentStatus.ready
status_of has_opened (session ∷ rest) = elim session.state [
  | SessionState.deploying ↦ EnvironmentStatus.deploying
  | SessionState.deleting ↦ EnvironmentStatus.deleting
  | SessionState.deploy_failure ↦ EnvironmentStatus.deploy_failure
  | SessionState.delete_failure ↦ EnvironmentStatus.delete_failure
  | SessionState.opened ↦ status_of true rest
  | SessionState.deployed ↦
      if has_opened then EnvironmentStatus.pending else EnvironmentStatus.ready
]

unfoldable pub get_status : Sql → String → Server → EnvironmentStatus
get_status sql environment_id s = status_of false (get_sessions sql environment_id none s)

abbrev pub is_busy : EnvironmentStatus → Bool
is_busy EnvironmentStatus.deploying = true
is_busy EnvironmentStatus.deleting = true
is_busy _ = false

unfoldable pub remove : String → Server → Server
remove environment_id s =
    if is_some (get_environment environment_id s) then delete_environment environment_id s else s

abbrev description_of : String → Server → Result Value
description_of environment_id s = do
  environment ← from_option (get_environment environment_id s) attribute_error
  ok environment.description

-- The whole description: the session's own, or the environment's.
unfoldable pub whole_description : String → Option String → Server → Result Value
whole_description environment_id none s = description_of environment_id s
whole_description environment_id (some session_id) s = do
  session ← from_option (get_session session_id s) attribute_error
  valid ← validate session s
  if valid && not (is_deployed session.state)
      then ok session.description
      else description_of session.environment_id s

unfoldable pub get_environment_description : String → Option String → Bool → Server → Result Value
unfolding whole_description
get_environment_description environment_id session_id inner s = do
  description ← whole_description environment_id session_id s
  if inner then subscript description "Objects" else ok description

-- `v.copy()` of a dict
abbrev pub copy_of : Value → Result Value
copy_of (dict fs) = ok (dict fs)
copy_of _ = err attribute_error

-- `now` is the time at which the row is saved.
unfoldable pub save_environment_description : ℕ → String → Value → Bool → Server → Result Server
save_environment_description now session_id environment inner s = do
  session ← from_option (get_session session_id s) attribute_error
  description ←
      if inner
      then (do copied ← copy_of session.description; store_item copied "Objects" environment)
      else ok environment
  ok (update_session session_id (λ r. record r { description = description; updated = now }) s)

unfoldable pub delete : ℕ → String → String → Server → Result Server
unfolding get_environment_description save_environment_description
delete now environment_id session_id s = do
  description ← get_environment_description environment_id (some session_id) false s
  emptied ← store_item description "Objects" null
  save_environment_description now session_id emptied false s

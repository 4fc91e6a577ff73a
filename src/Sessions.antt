-- ===== src/Sessions.antt =====
-- murano/db/services/sessions.py without `deploy`, which stands in Environments: the sessions of
-- an environment, a new session, and whether a session may still be changed and deployed.
pub mod Valid
use murano_temp.Base.{
  Bool, List, Option, String, any_of, false, filter, if◌then◌else◌, none, some, true, ℕ, ◌&&◌,
}
use murano_temp.Base.Num.{ltb}
use murano_temp.Base.Result.{Result, attribute_error, err, ok}
use murano_temp.Server.{Server, Session, SessionState, is_deploying, is_opened, same_state}
use murano_temp.Server.Exec.{Exec}
use murano_temp.Server.Sql.{Sql}
use murano_temp.Server.Tables.{add_session, get_environment, of_environment}

abbrev matches : Option SessionState → Session → Bool
matches none r = true
matches (some state) r = same_state state r.state

-- With no state given, the sessions in every state.
unfoldable pub get_sessions : Sql → String → Option SessionState → Server → List Session
unfolding filter
get_sessions sql environment_id state s =
    sql.order (filter (λ r. of_environment environment_id r && matches state r) s.sessions)

-- The new row takes the environment's version and description. Its id and the time are given.
unfoldable pub create : String → ℕ → String → String → Exec Session
create id now environment_id user_id s = elim (get_environment environment_id s) [
  | none ↦ (err attribute_error, s)
  | some environment ↦
      let session : Session = record {
        id = id;
        environment_id = environment.id;
        user_id = user_id;
        state = SessionState.opened;
        version = environment.version;
        updated = now;
        description = environment.description;
      } in
      (ok session, add_session session s)
]

-- The query for other sessions in state DEPLOYING; `count() > 0`.
unfoldable pub any_deploying : String → Server → Bool
unfolding any_of
any_deploying environment_id s =
    any_of (λ r. of_environment environment_id r && is_deploying r.state) s.sessions

unfoldable pub validate : Session → Server → Result Bool
validate session s = elim (get_environment session.environment_id s) [
  | none ↦ err attribute_error
  | some environment ↦
      if ltb session.version environment.version
      then ok false
      else if is_opened session.state && any_deploying session.environment_id s
      then ok false
      else ok true
]

-- ===== src/Deploy/Effect.antt =====
-- What deploying a session does to the tables.
use murano_temp.Base.{Bool, String, false, if◌then◌else◌, inl, inr, refl, sym, true, ℕ, ◌≡◌, ◌⊎◌}
use murano_temp.Base.Result.{
  >>=-eq-ok, Result, attribute_error, from_option, ok, ok-injective, ◌>>=◌, ◌>>◌,
}
use murano_temp.Deploy.{deploy, nothing_deployed, session_deploy}
use murano_temp.Environments.{remove}
use murano_temp.Json.{dict, end, is_none, null, str, subscript}
use murano_temp.Server.{Server, Session}
use murano_temp.Server.Tables.{get_environment}
use murano_temp.Tasks.{Rpc}
use murano_temp.Tasks.Effect.{IsSent, Starts, submit_task-Starts}

-- The environment is removed, or the session starts; and then the messaging library may raise.
abbrev pub IsEnded : Rpc → ℕ → Session → Server → Result (Unit {0}) × Server → Type 0
IsEnded rpc now session s o =
    (o ≡ (ok tt, remove session.environment_id s)) ⊎ (Starts now session s o.1 × IsSent rpc o.0)

answered-IsSent : (rpc : Rpc) (r : Result String) → IsSent rpc r → IsSent rpc (r >> ok tt)
answered-IsSent rpc r (inl (a, e)) = rw e (inl (tt, refl))
answered-IsSent rpc r (inr (task, e, h, same)) = rw same (inr (task, e, h, refl))

pub deploy_cases :
    (rpc : Rpc) (task_id : String) (now : ℕ) (session : Session) (token : String) (s : Server)
    (o : Result (Unit {0}) × Server)
    → deploy rpc task_id now session token s ≡ ok o
    → IsEnded rpc now session s o
unfolding deploy
deploy_cases rpc task_id now session token s o h =
    >>=-eq-ok (nothing_deployed session.description) _ h λ drop _ h₁. go drop h₁
  where
    go :
        (drop : Bool)
        → (if drop
            then ok (ok tt, remove session.environment_id s)
            else (from_option (get_environment session.environment_id s) attribute_error >>= λ row.
                session_deploy rpc task_id now session row token s >>= λ sent.
                ok (sent.0 >> ok tt, sent.1)))
          ≡ ok o
        → IsEnded rpc now session s o
    go true e = inl (sym (ok-injective e))
    go false e = inr (
        >>=-eq-ok (from_option (get_environment session.environment_id s) attribute_error) _ e
          λ row _ e₁.
            >>=-eq-ok (session_deploy rpc task_id now session row token s) _ e₁ λ sent e₂ e₃.
              >>=-eq-ok (subscript session.description "Objects") _ e₂ λ objects _ e₄.
                let done =
                  submit_task-Starts rpc task_id now
                    (if is_none objects then null else str "deploy") (str row.id) (dict end) row
                    session token s sent e₄ in
                rw (← ok-injective e₃) (done.0, answered-IsSent rpc sent.0 done.1))

-- ===== src/Api/Lock.antt =====
-- What a call of the deploy handler that succeeds has checked.
use murano_temp.Access.{Request, check_env, check_session}
use murano_temp.Base.{Option, String, ap, false, none, not-false, some, true, ℕ, ◌==◌, ◌∙◌, ◌≡◌}
use murano_temp.Base.Result.{
  Result, from_option-ok, guard-ok, >>=-eq-ok, from_option, guard, http_bad_request, http_forbidden,
  http_not_found, ok, ok-injective,
}
use murano_temp.Deploy.Effect.{IsEnded, deploy_cases}
use murano_temp.Server.{Environment, Server, Session, is_opened}
use murano_temp.Server.Atomic.{
  IsAtomic, gets-IsAtomic, raise_if-IsAtomic, reads-IsAtomic, ends-IsAtomic,
}
use murano_temp.Server.Tables.{get_environment, get_session}
use murano_temp.Sessions.{any_deploying, validate}
use murano_temp.Sessions.Valid.{validate-idle}
use murano_temp.Tasks.{Rpc}
use mathlib.Core.Path.{subst}

-- The session that a deployment may start.
pub record IsDeployable (environment_id session_id : String) (request : Request) (s : Server)
    (session : Session) : Type 0 where
  pub found : get_session session_id s ≡ some session
  pub owned : (session.environment_id == environment_id) ≡ true
  pub opened : is_opened session.state ≡ true
  pub valid : validate session s ≡ ok true
  pub idle : any_deploying session.environment_id s ≡ false

check_session-owned :
    (request : Request) (id : String) (row : Option Session) (s : Server) (session : Session)
    → check_session request id row s ≡ ok session
    → (row ≡ some session)
      × ((session.environment_id == id) ≡ true)
      × ((e : Environment) × (get_environment id s ≡ some e)
          × ((e.tenant_id == request.tenant) ≡ true))
unfolding check_session check_env
check_session-owned request id none s session e = cc
check_session-owned request id (some r) s session e =
    >>=-eq-ok (guard (r.environment_id == id) http_bad_request) _ e λ _ g e₁.
      >>=-eq-ok (check_env request id s) _ e₁ λ _ c e₂.
        >>=-eq-ok (from_option (get_environment id s) http_not_found) _ c λ row f c₁.
          >>=-eq-ok (guard (row.tenant_id == request.tenant) http_forbidden) _ c₁ λ _ g₁ _. (
            ap some (ok-injective e₂),
            subst (λ t. (t.environment_id == id) ≡ true) (ok-injective e₂) (guard-ok _ _ _ g),
            (row, from_option-ok _ _ _ f, guard-ok _ _ _ g₁),
          )

-- The end `o` of a call of the deploy handler that passed its checks.
abbrev pub IsDeployed :
    Rpc → ℕ → Request → String → String → Server → Result (Unit {0}) × Server → Type 0
IsDeployed rpc now request environment_id session_id s o =
    (session : Session) × IsDeployable environment_id session_id request s session
    × ((e : Environment) × (get_environment environment_id s ≡ some e)
        × ((e.tenant_id == request.tenant) ≡ true))
    × IsEnded rpc now session s o

-- A call of the deploy handler either raises and leaves the tables as they are; or the session is of
-- the environment named, opened and valid, no session of the environment is deploying, and the
-- environment is of the caller's tenant. In the second case the call returns and the environment is
-- removed; or that session becomes deploying or deleting, while the environments stay, and the call
-- returns, or raises what the messaging library raises at the task.
pub deploy-IsAtomic :
    (rpc : Rpc) (task_id : String) (now : ℕ) (request : Request)
    (environment_id session_id : String) (s : Server)
    → IsAtomic
        (IsDeployed rpc now request environment_id session_id s)
        s
        (murano_temp.Api.Sessions.deploy rpc task_id now request environment_id session_id s)
unfolding murano_temp.Api.Sessions.deploy
deploy-IsAtomic rpc task_id now request environment_id session_id s =
    let Q = IsDeployed rpc now request environment_id session_id s in
    gets-IsAtomic Q _ s _ (
      reads-IsAtomic Q _ s _ λ session checked. reads-IsAtomic Q _ s _ λ valid v.
        raise_if-IsAtomic Q _ s _ _ λ is_valid. raise_if-IsAtomic Q _ s _ _ λ opened.
          ends-IsAtomic Q s _ λ o sent.
            let owned =
              check_session-owned request environment_id (get_session session_id s) s session
                checked in
            let is_true = v ∙ ap ok (not-false is_valid) in
            (
              session,
              record {
                found = owned.0;
                owned = owned.1;
                opened = not-false opened;
                valid = is_true;
                idle = validate-idle session s is_true (not-false opened);
              },
              owned.2,
              deploy_cases rpc task_id now session request.auth_token s o sent,
            ))

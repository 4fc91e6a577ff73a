-- ===== src/Api/Invariant.antt =====
-- The handlers of murano/api/v1 and the engine's results against the invariant of the session
-- table.
use murano_temp.Access.{Request, check_env, check_session}
use murano_temp.Api.Actions.{execute}
use murano_temp.Api.Sessions.{configure}
use murano_temp.Base.{
  Bool, Option, Option-cases, String, ap, count, eq_refl, false, if◌then◌else◌, inl, inr, none,
  not-false, refl, some, true, ℕ, ◌==◌, ◌∙◌, ◌≡◌,
}
use murano_temp.Base.Result.{
  >>=-eq-ok, attribute_error, from_option, guard, http_bad_request, ok, ok-injective, ◌>>=◌,
}
use murano_temp.Deploy.Effect.{deploy_cases}
use murano_temp.Environments.{copy_of, get_environment_description, save_environment_description}
use murano_temp.Environments.Summary.{remove-IsSound}
use murano_temp.Json.{Value, dict, end, null, store_item, truthy}
use murano_temp.Server.{Server, Session, is_opened, opened}
use murano_temp.Server.Counts.{find-append}
use murano_temp.Server.Exec.{Exec, saved}
use murano_temp.Server.Rules.{
  bind_rule, ends_last, gets_rule, modify_last, raise_if_rule, reads_rule, writes_rule,
}
use murano_temp.Server.Sound.{
  IsSound, IsSound-add, IsSound-cast, IsSound-delete_session, IsSound-start, IsSound-update, has_id,
}
use murano_temp.Server.Sql.{Sql}
use murano_temp.Server.Tables.{add_session, get_environment, get_session}
use murano_temp.Sessions.{any_deploying, create}
use murano_temp.Sessions.Valid.{get_session_self, validate-idle}
use murano_temp.Tasks.{Rpc}
use murano_temp.Tasks.Effect.{Starts, execute-Starts, started}

pub Starts-IsSound :
    (now : ℕ) (session : Session) (s s' : Server)
    → IsSound s
    → get_session session.id s ≡ some session
    → any_deploying session.environment_id s ≡ false
    → Starts now session s s'
    → IsSound s'
Starts-IsSound now session s s' h there idle (state, _, same, _) =
    IsSound-cast same (IsSound-start session (started state now) h there idle (λ r. (refl, refl)))

check_session-row :
    (request : Request) (id : String) (row : Option Session) (s : Server) (session : Session)
    → check_session request id row s ≡ ok session
    → row ≡ some session
unfolding check_session
check_session-row request id none s session e = cc
check_session-row request id (some r) s session e =
    >>=-eq-ok (guard (r.environment_id == id) http_bad_request) _ e
      λ _ _ e₁. >>=-eq-ok (check_env request id s) _ e₁ λ _ _ e₂. ap some (ok-injective e₂)

create-IsSound :
    (id : String) (now : ℕ) (environment_id user_id : String) (s : Server)
    → IsSound s
    → count (has_id id) s.sessions ≡ 0
    → IsSound (create id now environment_id user_id s).1
unfolding create
create-IsSound id now environment_id user_id s h fresh =
    elim (Option-cases (get_environment environment_id s)) [
      | inl e ↦ rw (e, create) h
      | inr (environment, e) ↦ rw (e, create) (IsSound-add _ h fresh refl)
    ]

pub configure-IsSound :
    (sql : Sql) (id : String) (now : ℕ) (request : Request) (environment_id : String) (s : Server)
    → IsSound s
    → count (has_id id) s.sessions ≡ 0
    → IsSound (configure sql id now request environment_id s).1
unfolding configure
configure-IsSound sql id now request environment_id s h fresh = reads_rule IsSound _ s _ h λ _ _.
    gets_rule IsSound _ s _ (
      raise_if_rule IsSound _ s _ _ h
        λ _. create-IsSound id now environment_id request.user s h fresh)

pub deploy-IsSound :
    (rpc : Rpc) (task_id : String) (now : ℕ) (request : Request)
    (environment_id session_id : String) (s : Server)
    → IsSound s
    → IsSound
        (murano_temp.Api.Sessions.deploy rpc task_id now request environment_id session_id s).1
unfolding murano_temp.Api.Sessions.deploy
deploy-IsSound rpc task_id now request environment_id session_id s h = gets_rule IsSound _ s _ (
    reads_rule IsSound _ s _ h λ session checked. reads_rule IsSound _ s _ h λ valid v.
      raise_if_rule IsSound _ s _ _ h λ is_valid. raise_if_rule IsSound _ s _ _ h λ opened.
        ends_last IsSound s _ h λ o sent.
          elim (deploy_cases rpc task_id now session request.auth_token s o sent) [
            | inl e ↦ rw e (remove-IsSound session.environment_id s h)
            | inr (started, _) ↦
                Starts-IsSound now session s o.1 h
                  (get_session_self session_id s session (
                    check_session-row request environment_id (get_session session_id s) s session
                      checked))
                  (validate-idle session s (v ∙ ap ok (not-false is_valid)) (not-false opened))
                  started
          ])

save-IsSound :
    (now : ℕ) (session_id : String) (environment : Value) (inner : Bool) (s s' : Server)
    → IsSound s
    → save_environment_description now session_id environment inner s ≡ ok s'
    → IsSound s'
unfolding save_environment_description
save-IsSound now session_id environment inner s s' h e =
    >>=-eq-ok (from_option (get_session session_id s) attribute_error) _ e λ session _ e₁.
      >>=-eq-ok
        (if inner
          then (copy_of session.description >>= λ copied. store_item copied "Objects" environment)
          else ok environment)
        _ e₁
        λ description _ e₂. rw (← ok-injective e₂) (
          IsSound-update session_id (λ r. record r { description = description; updated = now }) h
            (λ r. refl) (λ r i d. d))

save_delete :
    (now : ℕ) (environment_id session_id : String) (s s' : Server)
    → IsSound s
    → murano_temp.Environments.delete now environment_id session_id s ≡ ok s'
    → IsSound s'
unfolding murano_temp.Environments.delete
save_delete now environment_id session_id s s' h e =
    >>=-eq-ok (get_environment_description environment_id (some session_id) false s) _ e
      λ description _ e₁.
        >>=-eq-ok (store_item description "Objects" null) _ e₁
          λ emptied _ e₂. save-IsSound now session_id emptied false s s' h e₂

pub delete_environment-IsSound :
    (sql : Sql) (rpc : Rpc) (id task_id : String) (now : ℕ) (allowed abandon : Bool)
    (request : Request) (environment_id : String) (s : Server)
    → IsSound s
    → count (has_id id) s.sessions ≡ 0
    → IsSound
        (murano_temp.Api.Environments.delete sql rpc id task_id now allowed abandon request
          environment_id s).1
unfolding murano_temp.Api.Environments.delete
delete_environment-IsSound sql rpc id task_id now allowed true request environment_id s h fresh =
    raise_if_rule IsSound _ s _ _ h λ _.
      reads_rule IsSound _ s _ h λ _ _. modify_last IsSound s _ (remove-IsSound environment_id s h)
delete_environment-IsSound sql rpc id task_id now allowed false request environment_id s h fresh =
    raise_if_rule IsSound _ s _ _ h λ _.
      bind_rule IsSound _ s _ (configure-IsSound sql id now request environment_id s h fresh)
        λ session s₁ h₁. writes_rule IsSound _ s₁ _ h₁ λ s₂ saved.
          deploy-IsSound rpc task_id now request environment_id session.id s₂
            (save_delete now environment_id session.id s₁ s₂ h₁ saved)

pub delete_session-IsSound :
    (request : Request) (environment_id session_id : String) (s : Server)
    → IsSound s
    → IsSound (murano_temp.Api.Sessions.delete request environment_id session_id s).1
unfolding murano_temp.Api.Sessions.delete
delete_session-IsSound request environment_id session_id s h = gets_rule IsSound _ s _ (
    reads_rule IsSound _ s _ h λ session _. raise_if_rule IsSound _ s _ _ h λ _.
      raise_if_rule IsSound _ s _ _ h
        λ _. modify_last IsSound s _ (IsSound-delete_session session.id h))

-- What follows a new session may use that its row is there, and opened.
create_rule :
    {B : Type 0} (k : Session → Exec B) (id : String) (now : ℕ) (environment_id user_id : String)
    (s : Server)
    → IsSound s
    → count (has_id id) s.sessions ≡ 0
    → ((session : Session) (s' : Server)
        → IsSound s'
        → get_session session.id s' ≡ some session
        → is_opened session.state ≡ true
        → IsSound (k session s').1)
    → IsSound ((murano_temp.Server.Exec.◌>>=◌ (create id now environment_id user_id) k) s).1
unfolding create murano_temp.Server.Exec.◌>>=◌
create_rule k id now environment_id user_id s h fresh next =
    elim (Option-cases (get_environment environment_id s)) [
      | inl e ↦ rw (e, create) h
      | inr (environment, e) ↦
          rw (e, create)
            (next _ _ (IsSound-add _ h fresh refl)
              (unfold get_session add_session in
                find-append (has_id id) s.sessions _ fresh (eq_refl id))
              refl)
    ]

pub execute-IsSound :
    (sql : Sql) (rpc : Rpc) (id task_id : String) (now : ℕ) (allowed : Bool) (request : Request)
    (environment_id action_id : String) (body : Value) (s : Server)
    → IsSound s
    → count (has_id id) s.sessions ≡ 0
    → IsSound (execute sql rpc id task_id now allowed request environment_id action_id body s).1
unfolding execute
execute-IsSound sql rpc id task_id now allowed request environment_id action_id body s h fresh =
    reads_rule IsSound _ s _ h λ _ _. raise_if_rule IsSound _ s _ _ h λ _. gets_rule IsSound _ s _ (
      raise_if_rule IsSound _ s _ _ h λ _.
        create_rule _ id now environment_id request.user s h fresh λ session s₁ h₁ there opened.
          reads_rule IsSound _ s₁ _ h₁ λ valid v. raise_if_rule IsSound _ s₁ _ _ h₁ λ is_valid.
            ends_last IsSound s₁ _ h₁ λ o done.
              Starts-IsSound now session s₁ o.1 h₁ there
                (validate-idle session s₁ (v ∙ ap ok (not-false is_valid)) opened)
                (execute-Starts rpc task_id now action_id session request.auth_token
                  (if truthy body then body else dict end) s₁ o done))

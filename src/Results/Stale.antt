-- ===== src/Results/Stale.antt =====
-- The optimistic lock of murano/common/server.py: versions before and after `process_result`.
use murano_temp.Base.{
  Bool, Option-cases, String, arith, false, find, inl, inr, is_some, none, refl, some, sym, ℕ, ◌<◌,
  ◌==◌, ◌≡◌, ◌≤◌, ◌⊎◌,
}
use murano_temp.Base.Result.{ok}
use murano_temp.Environments.{remove}
use murano_temp.Json.{Value, is_none}
use murano_temp.Results.{
  apply_result, close_deployment, close_session, process_result, save_and_close, save_result,
}
use murano_temp.Server.{Environment, Server, Session, Work}
use murano_temp.Server.Counts.{find-filter-not, find-update_where}
use murano_temp.Server.Exec.{modify, pure}
use murano_temp.Server.Rules.{
  bind_rule, gets_done, gets_rule, if_done, lift_done, lift_rule, modify_last, modify_rule,
  pure_last, require_rule,
}
use murano_temp.Server.Sql.{Sql}
use murano_temp.Server.Tables.{
  add_status, delete_environment, get_environment, update_environment, update_session,
  update_task_row,
}
use murano_temp.Sessions.{validate}
use mathlib.Core.Path.{subst}

-- The environment is gone, or has a later version than the session.
abbrev IsPast : String → Session → Server → Type 0
IsPast id session t =
    (get_environment id t ≡ none)
    ⊎ ((e : Environment) × (get_environment id t ≡ some e) × (session.version < e.version))

IsPast-cast :
    (id : String) (session : Session) (s t : Server)
    → t.environments ≡ s.environments
    → IsPast id session s
    → IsPast id session t
unfolding get_environment
IsPast-cast id session s t e h =
    subst
      (λ l.
        (find (λ r. r.id == id) l ≡ none)
        ⊎ ((r : Environment) × (find (λ r. r.id == id) l ≡ some r) × (session.version < r.version)))
      (sym e) h

validate-IsPast :
    (session : Session) (t : Server)
    → IsPast session.environment_id session t
    → (get_environment session.environment_id t ≡ none) ⊎ (validate session t ≡ ok false)
unfolding validate
validate-IsPast session t (inl e) = inl e
validate-IsPast session t (inr (e, found, older)) = inr (rw (found, validate) (ground arith))

module _ (id : String) (session : Session) where
  remove-IsPast : (s : Server) → IsPast id session (remove id s)
  unfolding remove delete_environment get_environment
  remove-IsPast s = elim (Option-cases (get_environment id s)) [
    | inl e ↦ inl (rw (e, remove) e)
    | inr (r, e) ↦ inl (rw (e, remove) (find-filter-not (λ r. r.id == id) s.environments))
  ]

  save_result-IsPast :
      (description : Value) (s : Server) (e : Environment)
      → get_environment id s ≡ some e
      → session.version ≤ e.version
      → IsPast id session (save_result id description s).1
  unfolding save_result update_environment get_environment find modify
  save_result-IsPast description s e found old =
      inr (_, find-update_where (λ r. r.id == id) _ s.environments e (λ r. refl) found, omega arith)

  close_deployment-IsPast :
      (sql : Sql) (now : ℕ) (action_result : Value) (work : Work) (s : Server)
      → IsPast id session s
      → IsPast id session (close_deployment sql now id action_result work s).1
  unfolding close_deployment add_status update_task_row
  close_deployment-IsPast sql now action_result work s h = gets_rule (IsPast id session) _ s _ (
      require_rule (IsPast id session) _ s _ _ h λ row _. gets_rule (IsPast id session) _ s _ (
        gets_rule (IsPast id session) _ s _ (
          modify_rule (IsPast id session) _ s _
            (pure_last (IsPast id session) _ _ (IsPast-cast id session s _ refl h)))))

  close_session-IsPast :
      (sql : Sql) (now : ℕ) (deleted : Bool) (num_errors : ℕ) (result : Value) (s : Server)
      → IsPast id session s
      → IsPast id session (close_session sql now id deleted num_errors result s).1
  unfolding close_session update_session
  close_session-IsPast sql now deleted num_errors result s h = gets_rule (IsPast id session) _ s _ (
      lift_rule (IsPast id session) _ s _ h λ failed _.
        require_rule (IsPast id session) _ s _ _ h
          λ conf_session _. modify_last (IsPast id session) s _ (IsPast-cast id session s _ refl h))

  save_and_close-IsPast :
      (sql : Sql) (now : ℕ) (result model action_result : Value) (s : Server) (e : Environment)
      → get_environment id s ≡ some e
      → session.version ≤ e.version
      → (save_and_close sql now result id model action_result s).0 ≡ ok tt
      → IsPast id session (save_and_close sql now result id model action_result s).1
  unfolding save_and_close
  save_and_close-IsPast sql now result model action_result s e found old =
      lift_done (IsPast id session) _ s _ _ λ description _.
        lift_done (IsPast id session) _ s _ _ λ objects _ _.
          bind_rule (IsPast id session) _ s _ (save_result-IsPast description s e found old)
            λ _ s₁ h₁.
              bind_rule (IsPast id session) _ s₁ _
                (close_deployment-IsPast sql now action_result _ s₁ h₁)
                λ num_errors s₂ h₂.
                  close_session-IsPast sql now (is_none objects) num_errors result s₂ h₂

-- The session's environment has no earlier version than the session when a result for it is
-- processed, and no exception is raised. Then the environment is gone, or the session is invalid.
pub process_result-IsStale :
    (sql : Sql) (now : ℕ) (result : Value) (session : Session) (e : Environment) (s : Server)
    → get_environment session.environment_id s ≡ some e
    → session.version ≤ e.version
    → (process_result sql now result session.environment_id s).0 ≡ ok tt
    → (get_environment session.environment_id
          (process_result sql now result session.environment_id s).1
        ≡ none)
      ⊎ (validate session (process_result sql now result session.environment_id s).1 ≡ ok false)
unfolding process_result
process_result-IsStale sql now result session e s found old h =
    let id = session.environment_id in
    validate-IsPast session _ (
      lift_done (IsPast id session) _ s _ _
        (λ model _. lift_done (IsPast id session) _ s _ _ λ action_result _.
          gets_done (IsPast id session) _ s _ _ (
            if_done (IsPast id session) s tt (is_some (get_environment id s))
              (apply_result sql now result id model action_result) (pure tt)
              (λ _. lift_done (IsPast id session) _ s _ _ λ dropped _.
                if_done (IsPast id session) s tt dropped (modify (remove id))
                  (save_and_close sql now result id model action_result)
                  (λ _ _. modify_last (IsPast id session) s _ (remove-IsPast id session s))
                  (λ _.
                    save_and_close-IsPast id session sql now result model action_result s e found
                      old))
              (λ gone. absurd (ground arith))))
        h)

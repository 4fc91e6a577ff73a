-- ===== src/Results/Closing.antt =====
-- `process_result` of murano/common/server.py against the invariant of the session table.
use murano_temp.Base.{Bool, String, arith, false, is_some, refl, true, ℕ, ◌≡◌}
use murano_temp.Base.Result.{>>=-eq-ok, attribute_error, from_option, ok-injective}
use murano_temp.Environments.{remove}
use murano_temp.Environments.Summary.{remove-IsSound}
use murano_temp.Json.{Value, is_none}
use murano_temp.Reports.{Report, report_notification}
use murano_temp.Results.{
  apply_result, close_deployment, close_session, closed_state, get_last_deployment, process_result,
  save_and_close, save_result,
}
use murano_temp.Server.{Server, Work, is_deploying}
use murano_temp.Server.Exec.{modify, pure, writes}
use murano_temp.Server.Rules.{
  bind_rule, gets_rule, if_rule, lift_rule, modify_last, modify_rule, pure_last, require_rule,
  writes_last,
}
use murano_temp.Server.Sound.{IsSound, IsSound-cast, IsSound-update}
use murano_temp.Server.Sql.{Sql}
use murano_temp.Server.Tables.{add_status, get_environment, update_environment, update_task_row}
use mathlib.Core.Path.{subst}

closed_state-idle : (deleted failed : Bool) → is_deploying (closed_state deleted failed) ≡ false
closed_state-idle true true = refl
closed_state-idle true false = refl
closed_state-idle false true = refl
closed_state-idle false false = refl

close_session-IsSound :
    (sql : Sql) (now : ℕ) (environment_id : String) (deleted : Bool) (num_errors : ℕ)
    (result : Value) (s : Server)
    → IsSound s
    → IsSound (close_session sql now environment_id deleted num_errors result s).1
unfolding close_session
close_session-IsSound sql now environment_id deleted num_errors result s h =
    gets_rule IsSound _ s _ (
      lift_rule IsSound _ s _ h λ failed _. require_rule IsSound _ s _ _ h λ conf_session _.
        modify_last IsSound s _ (
          IsSound-update conf_session.id _ h (λ r. refl)
            (λ r i d. absurd (ground (arith, closed_state-idle deleted failed)))))

close_deployment-IsSound :
    (sql : Sql) (now : ℕ) (environment_id : String) (action_result : Value) (work : Work)
    (s : Server)
    → IsSound s
    → IsSound (close_deployment sql now environment_id action_result work s).1
unfolding close_deployment add_status update_task_row
close_deployment-IsSound sql now environment_id action_result work s h = gets_rule IsSound _ s _ (
    require_rule IsSound _ s _ _ h λ row _. gets_rule IsSound _ s _ (
      gets_rule IsSound _ s _
        (modify_rule IsSound _ s _ (pure_last IsSound _ _ (IsSound-cast {s = s} refl h)))))

save_result-IsSound :
    (environment_id : String) (description : Value) (s : Server)
    → IsSound s
    → IsSound (save_result environment_id description s).1
unfolding save_result update_environment
save_result-IsSound environment_id description s h =
    modify_last IsSound s _ (IsSound-cast {s = s} refl h)

save_and_close-IsSound :
    (sql : Sql) (now : ℕ) (result : Value) (environment_id : String) (model action_result : Value)
    (s : Server)
    → IsSound s
    → IsSound (save_and_close sql now result environment_id model action_result s).1
unfolding save_and_close
save_and_close-IsSound sql now result environment_id model action_result s h =
    lift_rule IsSound _ s _ h λ description _. lift_rule IsSound _ s _ h λ objects _.
      bind_rule IsSound _ s _ (save_result-IsSound environment_id description s h) λ _ s₁ h₁.
        bind_rule IsSound _ s₁ _
          (close_deployment-IsSound sql now environment_id action_result _ s₁ h₁)
          λ num_errors s₂ h₂.
            close_session-IsSound sql now environment_id (is_none objects) num_errors result s₂ h₂

pub process_result-IsSound :
    (sql : Sql) (now : ℕ) (result : Value) (environment_id : String) (s : Server)
    → IsSound s
    → IsSound (process_result sql now result environment_id s).1
unfolding process_result
process_result-IsSound sql now result environment_id s h = lift_rule IsSound _ s _ h λ model _.
    lift_rule IsSound _ s _ h λ action_result _. gets_rule IsSound _ s _ (
      if_rule IsSound s (is_some (get_environment environment_id s))
        (apply_result sql now result environment_id model action_result) (pure tt)
        (λ _. lift_rule IsSound _ s _ h λ dropped _.
          if_rule IsSound s dropped (modify (remove environment_id))
            (save_and_close sql now result environment_id model action_result)
            (λ _. modify_last IsSound s _ (remove-IsSound environment_id s h))
            (λ _. save_and_close-IsSound sql now result environment_id model action_result s h))
        (λ _. pure_last IsSound s tt h))

pub report_notification-IsSound :
    (sql : Sql) (r : Report) (s : Server)
    → IsSound s
    → IsSound (writes (report_notification sql r) s).1
unfolding report_notification add_status
report_notification-IsSound sql r s h = writes_last IsSound s _ h λ s' e.
    >>=-eq-ok (from_option (get_last_deployment sql r.environment_id s) attribute_error) _ e
      λ row _ e₁. subst IsSound (ok-injective e₁) (IsSound-cast {s = s} refl h)

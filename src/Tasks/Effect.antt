-- ===== src/Tasks/Effect.antt =====
-- What submitting a task does to the tables.
use murano_temp.Base.{Bool-cases, String, arith, inl, inr, refl, true, ℕ, ◌∙◌, ◌≡◌, ◌⊎◌}
use murano_temp.Base.Result.{
  >>=-eq-ok, Error, Result, Result-cases, attribute_error, err, from_option, guard, lookup_error,
  ok, ok-injective, value_error,
}
use murano_temp.Json.{Value, boolean, get_default, is_none, null, subscript, truthy}
use murano_temp.Server.{Environment, Server, Session, SessionState}
use murano_temp.Server.Tables.{add_status, add_task, get_environment, update_session}
use murano_temp.Tasks.{
  Rpc, create_action_task, handle_task, submit_task, task_description, update_task,
}
use murano_temp.Tasks.Search.{execute, find_action}

abbrev pub started : SessionState → ℕ → Session → Session
started state now r = record r { state = state; updated = now }

abbrev pub IsStarting : SessionState → Type 0
IsStarting state = (state ≡ SessionState.deploying) ⊎ (state ≡ SessionState.deleting)

-- The task's session starts, and the environments stay.
abbrev pub Starts : ℕ → Session → Server → Server → Type 0
Starts now session s s' =
    (state : SessionState) × IsStarting state
    × (s'.sessions ≡ (update_session session.id (started state now) s).sessions)
    × (s'.environments ≡ s.environments)

-- Neither answer of the messaging library changes a row.
pub handle_task-rows :
    {A : Type 0} (rpc : Rpc) (task : Value) (a : A) (s : Server)
    → ((handle_task rpc task a s).1.sessions ≡ s.sessions)
      × ((handle_task rpc task a s).1.environments ≡ s.environments)
unfolding handle_task
handle_task-rows rpc task a s = elim (Result-cases (rpc task)) [
  | inl (u, e) ↦ rw (e, handle_task) (refl, refl)
  | inr (e, h) ↦ rw (h, handle_task) (refl, refl)
]

-- An end is an answer, or the exception that the messaging library raised.
abbrev pub IsSent : {A : Type 0} → Rpc → Result A → Type 0
IsSent {A} rpc r =
    ((a : A) × (r ≡ ok a)) ⊎ ((task : Value) × (e : Error) × (rpc task ≡ err e) × (r ≡ err e))

handle_task-IsSent :
    {A : Type 0} (rpc : Rpc) (task : Value) (a : A) (s : Server)
    → IsSent rpc (handle_task rpc task a s).0
unfolding handle_task
handle_task-IsSent rpc task a s = elim (Result-cases (rpc task)) [
  | inl (u, e) ↦ inl (a, rw (e, handle_task) refl)
  | inr (e, h) ↦ inr (task, e, h, rw (h, handle_task) refl)
]

update_task-Starts :
    (task_id : String) (now : ℕ) (action_name : Value) (session : Session)
    (description action : Value) (s s' : Server)
    → update_task task_id now action_name session description action s ≡ ok s'
    → Starts now session s s'
unfolding update_task update_session add_status add_task
update_task-Starts task_id now action_name session description action s s' h =
    >>=-eq-ok (get_default description "Objects" null) _ h λ objects _ h₁.
      >>=-eq-ok (task_description objects) _ h₁ λ shown _ h₂. elim (Bool-cases (is_none objects)) [
        | inl e ↦ (
          SessionState.deleting,
          inr refl,
          ground (arith, ok-injective h₂),
          ground (arith, ok-injective h₂),
        )
        | inr e ↦ (
          SessionState.deploying,
          inl refl,
          ground (arith, ok-injective h₂),
          ground (arith, ok-injective h₂),
        )
      ]

pub submit_task-Starts :
    (rpc : Rpc) (task_id : String) (now : ℕ) (action_name target_obj args : Value)
    (environment : Environment) (session : Session) (token : String) (s : Server)
    (r : Result String × Server)
    → submit_task rpc task_id now action_name target_obj args environment session token s ≡ ok r
    → Starts now session s r.1 × IsSent rpc r.0
unfolding submit_task
submit_task-Starts rpc task_id now action_name target_obj args environment session token s r h =
    >>=-eq-ok (create_action_task action_name target_obj args environment session token) _ h
      λ task _ h₁. >>=-eq-ok (subscript task "model") _ h₁ λ model _ h₂.
        >>=-eq-ok (subscript task "action") _ h₂ λ action _ h₃.
          >>=-eq-ok (update_task task_id now action_name session model action s) _ h₃ λ s' e h₄.
            let (state, starting, same, envs) =
              update_task-Starts task_id now action_name session model action s s' e in
            let sent : handle_task rpc task task_id s' ≡ r = ok-injective h₄ in
            let rows = handle_task-rows rpc task task_id s' in
            rw (← sent) (
              (state, starting, rows.0 ∙ same, rows.1 ∙ envs),
              handle_task-IsSent rpc task task_id s',
            )

pub execute-Starts :
    (rpc : Rpc) (task_id : String) (now : ℕ) (action_id : String) (session : Session)
    (token : String) (args : Value) (s : Server) (r : Result String × Server)
    → execute rpc task_id now action_id session token args s ≡ ok r
    → Starts now session s r.1
unfolding execute
execute-Starts rpc task_id now action_id session token args s r h =
    >>=-eq-ok (find_action session.description action_id) _ h λ found _ h₁.
      >>=-eq-ok (from_option found lookup_error) _ h₁ λ action _ h₂.
        >>=-eq-ok (get_default action.1 "enabled" (boolean true)) _ h₂ λ enabled _ h₃.
          >>=-eq-ok (guard (truthy enabled) value_error) _ h₃ λ _ _ h₄.
            >>=-eq-ok (subscript action.1 "name") _ h₄ λ name _ h₅.
              >>=-eq-ok (from_option (get_environment session.environment_id s) attribute_error) _
                h₅
                λ row _ h₆.
                  (submit_task-Starts rpc task_id now name action.0 args row session token s r h₆).0

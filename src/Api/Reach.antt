-- ===== src/Api/Reach.antt =====
-- The calls of the handlers of sessions, actions and services and of the deletion of environments as
-- a step relation, with the engine's results and reports: one at a time, in any order and from any
-- requests. The handlers that create or rename environments, with or without a template, are no
-- steps.
use murano_temp.Access.{Request}
use murano_temp.Api.Invariant.{
  configure-IsSound, delete_environment-IsSound, delete_session-IsSound, deploy-IsSound,
  execute-IsSound,
}
use murano_temp.Api.Sessions.{configure}
use murano_temp.Api.Services.{Change, Change-IsVerified}
use murano_temp.Services.Isolation.{Call-IsEdit}
use murano_temp.Base.{Bool, String, count, refl, ℕ, ◌≡◌}
use murano_temp.Json.{Value}
use murano_temp.Api.Actions.{execute}
use murano_temp.Reports.{Report, report_notification}
use murano_temp.Results.{process_result}
use murano_temp.Results.Closing.{process_result-IsSound, report_notification-IsSound}
use murano_temp.Server.{Server}
use murano_temp.Server.Exec.{writes}
use murano_temp.Server.Sound.{IsSound, IsSound-update, has_id}
use murano_temp.Server.Sql.{Sql}
use murano_temp.Tasks.{Rpc}

pub data Step (sql : Sql) (s : Server) : Server → Type 0 where
  -- POST /environments/{id}/configure
  opens :
      (id : String) (now : ℕ) (request : Request) (environment_id : String)
      → count (has_id id) s.sessions ≡ 0
      → Step sql s (configure sql id now request environment_id s).1
  -- DELETE /environments/{id}/sessions/{id}
  drops :
      (request : Request) (environment_id session_id : String)
      → Step sql s (murano_temp.Api.Sessions.delete request environment_id session_id s).1
  -- POST /environments/{id}/sessions/{id}/deploy
  deploys :
      (rpc : Rpc) (task_id : String) (now : ℕ) (request : Request)
      (environment_id session_id : String)
      → Step sql s
          (murano_temp.Api.Sessions.deploy rpc task_id now request environment_id session_id s).1
  -- DELETE /environments/{id}
  removes :
      (rpc : Rpc) (id task_id : String) (now : ℕ) (allowed abandon : Bool) (request : Request)
      (environment_id : String)
      → count (has_id id) s.sessions ≡ 0
      → Step sql s
          (murano_temp.Api.Environments.delete sql rpc id task_id now allowed abandon request
            environment_id s).1
  -- POST /environments/{id}/actions/{id}
  acts :
      (rpc : Rpc) (id task_id : String) (now : ℕ) (allowed : Bool) (request : Request)
      (environment_id action_id : String) (body : Value)
      → count (has_id id) s.sessions ≡ 0
      → Step sql s
          (execute sql rpc id task_id now allowed request environment_id action_id body s).1
  -- POST, PUT or DELETE /environments/{id}/services/{path}, without an error: one with an error
  -- changes nothing.
  edits :
      (request : Request) (environment_id : String) (t : Server)
      → Change request environment_id s t
      → Step sql s t
  -- A result of the engine.
  finishes :
      (now : ℕ) (result : Value) (environment_id : String)
      → Step sql s (process_result sql now result environment_id s).1
  -- A report of the engine.
  notifies : (r : Report) → Step sql s (writes (report_notification sql r) s).1

pub data Reach (sql : Sql) (s : Server) : Server → Type 0 where
  here : Reach sql s s
  next : {t u : Server} → Reach sql s t → Step sql t u → Reach sql s u

Step-IsSound : {sql : Sql} {s t : Server} → Step sql s t → IsSound s → IsSound t
Step-IsSound {sql} {s} (opens id now request environment_id fresh) h =
    configure-IsSound sql id now request environment_id s h fresh
Step-IsSound {sql} {s} (drops request environment_id session_id) h =
    delete_session-IsSound request environment_id session_id s h
Step-IsSound {sql} {s} (deploys rpc task_id now request environment_id session_id) h =
    deploy-IsSound rpc task_id now request environment_id session_id s h
Step-IsSound {sql} {s} (removes rpc id task_id now allowed abandon request environment_id fresh) h =
    delete_environment-IsSound sql rpc id task_id now allowed abandon request environment_id s h
      fresh
Step-IsSound {sql} {s} (acts rpc id task_id now allowed request environment_id action_id body fresh)
      h =
    execute-IsSound sql rpc id task_id now allowed request environment_id action_id body s h fresh
Step-IsSound {sql} {s} (edits request environment_id t change) h =
    let (id, _, call) = Change-IsVerified change in
    let (now, edit) = Call-IsEdit call in
    let (description, e) = edit in
    rw e (
      IsSound-update id (λ r. record r { description = description; updated = now }) h (λ r. refl)
        (λ r i d. d))
Step-IsSound {sql} {s} (finishes now result environment_id) h =
    process_result-IsSound sql now result environment_id s h
Step-IsSound {sql} {s} (notifies r) h = report_notification-IsSound sql r s h

-- From tables in which session ids are unique and no environment has two sessions in state
-- DEPLOYING, no sequence of calls of the handlers that configure environments, delete or deploy
-- sessions, change services, delete environments or execute actions, and of the engine's results and
-- reports, each run as one step, leads to an environment with two such sessions; ids stay unique as
-- long as new ones are fresh.
pub Reach-IsSound : {sql : Sql} {s t : Server} → IsSound s → Reach sql s t → IsSound t
Reach-IsSound h here = h
Reach-IsSound h (next r st) = Step-IsSound st (Reach-IsSound h r)

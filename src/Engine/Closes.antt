-- ===== src/Engine/Closes.antt =====
-- The engine's run of a deployment, and the handling of its result by the server.
use murano_temp.Base.{String, inl, inr, some, ℕ, ◌||◌, ◌≡◌}
use murano_temp.Base.Num.{ltb}
use murano_temp.Base.Result.{ok}
use murano_temp.Engine.{
  Interpreter, Keystone, Loader, Session, Task, create_trust, execute, returned, with_attributes,
}
use murano_temp.Engine.Answered.{execute-IsAnswer, is_raised}
use murano_temp.Engine.Trial.{as_action, trial}
use murano_temp.Json.{Fields, Value, dict, lookup, subscript}
use murano_temp.Results.{count_level, get_last_deployment, is_error, process_result}
use murano_temp.Results.Closes.{closed, deploying_session, process_result-closes}
use murano_temp.Results.Model.{has_failed}
use murano_temp.Server.{Environment, Server}
use murano_temp.Server.Sql.{Sql}
use murano_temp.Server.Tables.{get_environment, update_session}
use mathlib.Core.Path.{subst}

-- Where a trust is there, or none is used, and the engine's result of a task has objects in its
-- model: the server handles it without an exception, if the environment, a task of it and a session
-- that is deploying are there, and closes the first such session, and it alone: as failed if errors
-- were counted or a step of the task raised, and else as deployed.
pub execute-closes :
    (i : Interpreter) (k : Keystone) (job : Task) (loader : Loader) (r : Value) (trust : Session)
    (model fs : Fields) (sql : Sql) (now : ℕ) (environment_id : String) (s : Server)
    (e : Environment) (task : murano_temp.Server.Task) (row : murano_temp.Server.Session)
    → create_trust k job ≡ returned trust
    → (execute i k job loader).0 ≡ ok r
    → subscript r "model" ≡ ok (dict model)
    → lookup "Objects" model ≡ some (dict fs)
    → get_environment environment_id s ≡ some e
    → get_last_deployment sql environment_id s ≡ some task
    → deploying_session sql environment_id s ≡ some row
    → let t = trial i job.action (with_attributes trust.system_attributes job.model) in
      (s' : Server) × (process_result sql now r environment_id s ≡ (ok tt, s'))
      × (s'.sessions
          ≡ (update_session row.id
              (closed now (ltb 0 (count_level is_error task.id s) || is_raised t))
              s).sessions)
execute-closes i k job loader r trust model fs sql now environment_id s e task row trusted run read
      objects there last found =
    let t = trial i job.action (with_attributes trust.system_attributes job.model) in
    elim (execute-IsAnswer i k job loader trust trusted) [
      | inl (x, _, raises) ↦ cc
      | inr (_, _, inl (lost, _)) ↦ cc
      | inr (_, _, inr (r', last_model, run', _, answer)) ↦
          let same : r' ≡ r = cc in
          process_result-closes sql now environment_id s r (as_action t) model fs (is_raised t) e
            task row read objects
            (subst (λ v. subscript v "action" ≡ ok (as_action t)) same answer.has_action)
            (subst (λ v. (n : ℕ) → has_failed n v ≡ ok (ltb 0 n || is_raised t)) same answer.fails)
            there last found
    ]

-- ===== src/Samples/Runs.antt =====
-- Tasks that the engine runs: an interpreter whose call raises, and a keystone that gives no trust.
use murano_temp.Base.{
  All, ◌==◌, List, [], false, filter, find, none, refl, some, true, ◌+◌, ◌||◌, ◌∷◌, ◌≡◌, ◌⊎◌,
}
use murano_temp.Base.Num.{ltb}
use murano_temp.Base.Result.{Error, err, key_error, ok, type_error}
use murano_temp.Engine.{
  create_trust, Interpreter, Keystone, Loader, Session, Task, action_of, execute, raised, returned,
}
use murano_temp.Engine.Answered.{IsAnswer, execute-IsAnswer, loading, execute-process_result}
use murano_temp.Engine.Closes.{execute-closes}
use murano_temp.Json.{
  Fields, Value, dict, end, field, lookup, null, set_key, str, subscript, truthy,
}
use murano_temp.Reports.{Report, report_all, report_error, report_info}
use murano_temp.Reports.Counted.{errors_in, report_all-counted}
use murano_temp.Results.{count_level, get_last_deployment, is_error, process_result}
use murano_temp.Results.Closes.{closed}
use murano_temp.Samples.Database.{database}
use murano_temp.Samples.Rows.{during, environment, session_in, task}
use murano_temp.Server.{Level, Server, SessionState, Text}
use murano_temp.Server.Tables.{add_status, get_environment, update_session}

abbrev interpreter : Interpreter
interpreter = record {
  State = Unit {0};
  Object = Unit {0};
  Answer = Value;
  nothing = null;
  load = λ model. returned (some tt, tt);
  validate = λ obj s. returned s;
  cleanup = λ s. returned s;
  invoke = λ action s. (raised "no such host" "trace", s);
  finalize = λ obj s. (some (field "Objects" (dict end) end), s);
  serialize = λ v s. returned v;
}

abbrev no_trusts : Keystone
no_trusts = record {
  use_trusts = false;
  create_trust = λ token project_id. returned null;
  delete_trust = λ trust_id. returned tt;
}

abbrev failing : Keystone
failing = record {
  use_trusts = true;
  create_trust = λ token project_id. raised "unauthorized" "trace";
  delete_trust = λ trust_id. returned tt;
}

abbrev deploy_task : Task
deploy_task = record {
  action = dict (field "method" (str "deploy") end);
  model = field "Objects" (dict end) end;
  token = "token";
  tenant_id = "tenant";
}

abbrev no_session : Session
no_session = record { trust_id = null; system_attributes = end }

no_trusts_example : create_trust no_trusts deploy_task ≡ returned no_session
unfolding create_trust lookup
no_trusts_example = refl

abbrev loader : Loader
loader = record { prepare = λ packages. ok tt; fixation_table = null }

abbrev left_model : Fields
left_model = field "Objects" (dict end) end

execute-IsAnswer_example :
    ((e : Error) × (loading loader no_session ≡ err e)
      × (execute interpreter no_trusts deploy_task loader ≡ (err e, [])))
    ⊎ ((loading loader no_session ≡ ok tt)
        × ((execute interpreter no_trusts deploy_task loader).1 ≡ "no such host" ∷ [])
        × (((execute interpreter no_trusts deploy_task loader).0 ≡ err type_error)
              × (some left_model ≡ none)
            ⊎ ((r : Value) × (last : Fields) × ((execute interpreter no_trusts deploy_task loader).0
                  ≡ ok r)
                × (some left_model ≡ some last)
                × IsAnswer (raised "no such host" "trace") null last r)))
unfolding truthy
execute-IsAnswer_example =
    execute-IsAnswer interpreter no_trusts deploy_task loader no_session no_trusts_example

failing_example : create_trust failing deploy_task ≡ raised "unauthorized" "trace"
unfolding create_trust lookup truthy
failing_example = refl

execute-process_result_example :
    (r : Value) × ((execute interpreter failing deploy_task loader).0 ≡ ok r)
    × (process_result database 7 r "e1" during ≡ (err key_error, during))
execute-process_result_example =
    execute-process_result interpreter failing deploy_task loader "unauthorized" "trace" database 7
      "e1" during failing_example

-- The model is lost where `finalize` fails: no result is sent.
lost_example :
    (execute (record interpreter { finalize = λ obj s. (none, s) }) no_trusts deploy_task loader).0
    ≡ err type_error
unfolding execute lookup truthy
lost_example = refl

abbrev failed_answer : Value
failed_answer = dict (
    field "action"
      (action_of true
        (dict (field "message" (str "no such host") (field "details" (str "trace") end))))
      (field "model"
        (dict
          (field "Objects" (dict end) (field "SystemData" (dict (field "Packages" null end)) end)))
        end))

-- The call raises, so the session's deployment fails.
execute-closes_example :
    (s' : Server) × (process_result database 7 failed_answer "e1" during ≡ (ok tt, s'))
    × (s'.sessions
        ≡ (update_session "s1"
            (closed 7 (ltb 0 (count_level is_error "k1" during) || true))
            during).sessions)
unfolding execute lookup set_key truthy subscript get_environment find get_last_deployment filter
    database murano_temp.Samples.Database.later
execute-closes_example =
    execute-closes interpreter no_trusts deploy_task loader failed_answer no_session
      (field "Objects" (dict end) (field "SystemData" (dict (field "Packages" null end)) end)) end
      database 7 "e1" during environment task (session_in SessionState.deploying) no_trusts_example
      refl refl refl refl refl refl

abbrev reports : List Report
reports = report_info "e1" "started" ∷ report_error "e1" "no such host" ∷ []

abbrev reported : Server
reported = record during {
  statuses =
      record { task_id = "k1"; text = Text.report "started"; level = Level.info }
      ∷ record { task_id = "k1"; text = Text.report "no such host"; level = Level.error }
      ∷ [];
}

report_all-counted_example :
    (reported.tasks ≡ during.tasks)
    × (reported.sessions ≡ during.sessions)
    × (count_level is_error "k1" reported
        ≡ count_level is_error "k1" during + errors_in "e1" reports)
unfolding report_all report_info report_error get_last_deployment filter database
    murano_temp.Samples.Database.later add_status
report_all-counted_example =
    let last_one : All (λ r. (r.environment_id == "e1") ≡ true)
        (report_error "e1" "no such host" ∷ []) =
      (refl, tt) in
    report_all-counted database "e1" reports during reported task (refl, last_one) refl refl

-- ===== src/Samples/Sessions.antt =====
-- The theorems about sessions and environments at concrete tables.
use murano_temp.Api.Lock.{IsDeployed, deploy-IsAtomic}
use murano_temp.Api.Reach.{Reach-IsSound, deploys, here, next, opens}
use murano_temp.Api.Sessions.{configure}
use murano_temp.Base.{All, arith, count, false, find, none, refl, true, ◌≡◌, ◌⊎◌}
use murano_temp.Base.Result.{err, ok, other_error}
use murano_temp.Environments.{get_status}
use murano_temp.Environments.Newest.{get_status-newest, no_newer}
use murano_temp.Environments.Summary.{is_settled, starts_opened, status_by, undeployed}
use murano_temp.Results.{process_result}
use murano_temp.Results.Stale.{process_result-IsStale}
use murano_temp.Samples.Database.{database}
use murano_temp.Samples.Rows.{answer_value, before, during, environment, request, session_in}
use murano_temp.Server.{EnvironmentStatus, Session, SessionState, is_opened}
use murano_temp.Server.Atomic.{IsAtomic}
use murano_temp.Server.Sound.{IsSound}
use murano_temp.Server.Tables.{get_environment, of_environment}
use murano_temp.Tasks.{Rpc}
use murano_temp.Sessions.{get_sessions, validate}

abbrev answering : Rpc
answering = λ task. ok tt

abbrev failing_rpc : Rpc
failing_rpc = λ task. err other_error

before-IsSound : IsSound before
unfolding count
before-IsSound = record { unique = λ id. ground arith; single = λ id. ground arith }

Reach-IsSound_example :
    IsSound
      (murano_temp.Api.Sessions.deploy answering "k2" 7 request "e1" "s1"
        (configure database "s2" 6 request "e1" before).1).1
unfolding count
Reach-IsSound_example =
    Reach-IsSound {sql = database} before-IsSound (
      next (next here (opens "s2" 6 request "e1" refl))
        (deploys answering "k2" 7 request "e1" "s1"))

deploy-IsAtomic_example :
    IsAtomic
      (IsDeployed failing_rpc 7 request "e1" "s1" before)
      before
      (murano_temp.Api.Sessions.deploy failing_rpc "k2" 7 request "e1" "s1" before)
deploy-IsAtomic_example = deploy-IsAtomic failing_rpc "k2" 7 request "e1" "s1" before

-- The messaging library raises, and the session is being deployed all the same.
failing_rpc_example :
    ((murano_temp.Api.Sessions.deploy failing_rpc "k2" 7 request "e1" "s1" before).0
      ≡ err other_error)
    × (get_status database "e1"
          (murano_temp.Api.Sessions.deploy failing_rpc "k2" 7 request "e1" "s1" before).1
        ≡ EnvironmentStatus.deploying)
unfolding murano_temp.Api.Sessions.deploy murano_temp.Deploy.deploy murano_temp.Tasks.handle_task
    get_status murano_temp.Environments.status_of get_sessions murano_temp.Samples.Database.insert
    database murano_temp.Server.Exec.◌>>=◌ murano_temp.Json.subscript murano_temp.Json.lookup
    murano_temp.Json.get_default murano_temp.Json.pop_default murano_temp.Json.store_item
    murano_temp.Json.contains murano_temp.Json.set_key murano_temp.Json.del_key
    murano_temp.Server.Tables.add_status murano_temp.Server.Tables.add_task
    murano_temp.Server.Tables.update_session murano_temp.Server.Tables.get_session
    murano_temp.Access.check_session murano_temp.Access.check_env validate
    murano_temp.Sanitize.sanitize murano_temp.Base.update_where murano_temp.Json.truthy
    murano_temp.Base.any_of count murano_temp.Base.filter get_environment find
    murano_temp.Sessions.any_deploying
failing_rpc_example = (refl, refl)

process_result-IsStale_example :
    (get_environment "e1" (process_result database 9 answer_value "e1" during).1 ≡ none)
    ⊎ (validate
          (session_in SessionState.opened)
          (process_result database 9 answer_value "e1" during).1
        ≡ ok false)
unfolding process_result database murano_temp.Server.Exec.◌>>=◌ murano_temp.Json.subscript
    murano_temp.Json.lookup murano_temp.Json.get_default murano_temp.Json.pop_default
    murano_temp.Json.store_item murano_temp.Server.Tables.update_environment
    murano_temp.Server.Tables.add_status murano_temp.Server.Tables.update_task_row
    murano_temp.Server.Tables.update_session murano_temp.Base.update_where murano_temp.Json.truthy
    murano_temp.Base.any_of count murano_temp.Base.filter get_environment find
process_result-IsStale_example =
    process_result-IsStale database 9 answer_value (session_in SessionState.opened) environment
      during refl (omega arith) refl

get_status-newest_example :
    All (λ t. of_environment "e1" t ≡ true → is_opened t.state ≡ true) during.sessions
      × (get_status database "e1" during
          ≡ undeployed (starts_opened (get_sessions database "e1" none during)))
    ⊎ ((r : Session) × (of_environment "e1" r ≡ true)
        × (is_settled r ≡ true)
        × All (λ t. of_environment "e1" t ≡ true → no_newer r t ≡ true) during.sessions
        × (get_status database "e1" during
            ≡ status_by r.state (starts_opened (get_sessions database "e1" none during))))
get_status-newest_example = get_status-newest database "e1" during

-- The deployment runs, and its result closes the session.
deployment_examples :
    (get_status database "e1" before ≡ EnvironmentStatus.pending)
    × (get_status database "e1" during ≡ EnvironmentStatus.deploying)
    × (get_status database "e1" (process_result database 9 answer_value "e1" during).1
        ≡ EnvironmentStatus.ready)
unfolding get_status murano_temp.Environments.status_of get_sessions
    murano_temp.Samples.Database.insert process_result database murano_temp.Server.Exec.◌>>=◌
    murano_temp.Json.subscript murano_temp.Json.lookup murano_temp.Json.get_default
    murano_temp.Json.pop_default murano_temp.Json.store_item
    murano_temp.Server.Tables.update_environment murano_temp.Server.Tables.add_status
    murano_temp.Server.Tables.update_task_row murano_temp.Server.Tables.update_session
    murano_temp.Base.update_where murano_temp.Json.truthy murano_temp.Base.any_of count
    murano_temp.Base.filter get_environment find
deployment_examples = (refl, refl, refl)

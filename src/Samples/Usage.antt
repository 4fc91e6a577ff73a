-- ===== src/Samples/Usage.antt =====
-- The theorems on the instances' times, at one that is tracked and untracked later.
use murano_temp.Base.{
  All, List, [], any_of, arith, count, find, none, refl, some, update_where, ◌∷◌, ◌≡◌, ◌≤◌,
}
use murano_temp.Base.Result.{ok}
use murano_temp.Instances.{
  Instance, Payload, ended_at, has_id, has_key, new_instance, track, track_instance, untrack,
}
use murano_temp.Instances.Durations.{
  IsBounded, Steps, Steps-IsBounded, and_step, elapsed, no_step, tracked, untracked,
}
use murano_temp.Instances.Ended.{IsDestroyed, Steps-IsDestroyed, row_of}
use murano_temp.Instances.Stats.{get_aggregated_stats, get_raw_environment_stats}
use murano_temp.Instances.Totals.{IsTotal, get_aggregated_stats-IsTotal, group_of, one_if, raw_of}
use murano_temp.Json.{null}
use murano_temp.Server.{Environment, Server}
use murano_temp.Server.Tables.{get_environment}

abbrev env_row : Environment
env_row = record { id = "e1"; name = "lab"; tenant_id = "t1"; version = 0; description = null }

abbrev tables : Server
tables = record { environments = env_row ∷ []; sessions = []; tasks = []; statuses = []; sent = [] }

abbrev notice : Payload
notice = record {
  instance = some "i1";
  environment = some "e1";
  payload_type = some 200;
  payload_name = some "io.Server";
  payload_title = none;
  payload_count = some 1;
}

abbrev running : Instance
running = new_instance 100 "t1" "i1" "e1" 200 "io.Server" none (some 1)

abbrev stopped : List Instance
stopped = ended_at 250 running ∷ []

tracked_run : track tables 100 notice [] ≡ ok (running ∷ [])
unfolding track get_environment find any_of
tracked_run = refl

untracked_run : untrack 250 notice (running ∷ []) ≡ ok stopped
unfolding untrack update_where has_key
untracked_run = refl

tracked_again : track tables 260 notice stopped ≡ ok stopped
unfolding track get_environment find any_of update_where has_id has_key
tracked_again = refl

use_of_server : Steps (100, []) (300, stopped)
use_of_server =
    and_step
      (and_step
        (and_step (and_step no_step (tracked tables notice tracked_run)) (elapsed (omega arith)))
        (untracked notice untracked_run))
      (elapsed (omega arith))

Steps-IsBounded_example :
    All (IsBounded 100 300) (get_raw_environment_stats 300 "e1" none stopped)
    × (count (has_key "e1" "i1") stopped ≤ 1)
Steps-IsBounded_example = Steps-IsBounded 100 300 stopped use_of_server "e1" "i1" none

get_aggregated_stats-IsTotal_example :
    All
      (IsTotal (get_raw_environment_stats 300 "e1" none stopped))
      (get_aggregated_stats 300 "e1" stopped)
    × (count (group_of 200) (get_aggregated_stats 300 "e1" stopped)
        ≡ one_if (any_of (raw_of 200) (get_raw_environment_stats 300 "e1" none stopped)))
get_aggregated_stats-IsTotal_example =
    get_aggregated_stats-IsTotal 100 300 stopped (omega arith) use_of_server "e1" 200

found_row : row_of "e1" "i1" stopped ≡ some (ended_at 250 running)
unfolding row_of find has_key
found_row = refl

Steps-IsDestroyed_example : IsDestroyed "e1" "i1" 100 249 stopped
Steps-IsDestroyed_example =
    Steps-IsDestroyed "e1" "i1" 100 249 {x = (250, stopped)} {y = (260, stopped)}
      (and_step (and_step no_step (elapsed (omega arith))) (tracked tables notice tracked_again))
      (ended_at 250 running, found_row, refl, refl)

-- The update that follows a duplicate key reaches the other environments' rows of the same instance.
other_environment_example :
    track_instance tables 300 "i1" "e1" 200 "io.Server" none
      (some 7)
      (running ∷ record running { environment_id = "e2" } ∷ [])
    ≡ ok (
        record running { unit_count = some 7 }
        ∷ record running { environment_id = "e2"; unit_count = some 7 }
        ∷ [])
unfolding track_instance get_environment find
other_environment_example = refl

-- ===== src/Instances.antt =====
-- The instances that the engine reports, with their times: murano/db/services/instances.py and the
-- endpoints track_instance and untrack_instance of murano/common/server.py. The table of instances
-- is a list; the environments are those of the server's tables, which these functions only read.
pub mod Stats
pub mod Timely
pub mod Durations
pub mod Totals
pub mod Ended
use murano_temp.Base.{
  Bool, List, Option, String, any_of, if◌then◌else◌, none, some, true, update_where, ℕ, ◌&&◌, ◌==◌,
  ◌∷◌,
}
use murano_temp.Base.Result.{Result, attribute_error, from_option, key_error, ok, ◌>>=◌, ◌>>◌}
use murano_temp.Server.{Server}
use murano_temp.Server.Tables.{get_environment}

-- A row of the table `instance_stats`; its key is the environment with the instance.
pub record Instance : Type 0 where
  pub environment_id : String
  pub instance_id : String
  pub instance_type : ℕ
  pub created : ℕ
  pub destroyed : Option ℕ
  pub type_name : String
  pub type_title : Option String
  pub unit_count : Option ℕ
  pub tenant_id : String

unfoldable pub has_key : String → String → Instance → Bool
has_key environment_id instance_id i =
    i.environment_id == environment_id && i.instance_id == instance_id

unfoldable pub has_id : String → Instance → Bool
has_id instance_id i = i.instance_id == instance_id

-- The row that is added, at the time `now`.
abbrev pub new_instance :
    ℕ → String → String → String → ℕ → String → Option String → Option ℕ → Instance
new_instance now tenant_id instance_id environment_id instance_type type_name type_title
      unit_count =
    record {
      environment_id = environment_id;
      instance_id = instance_id;
      instance_type = instance_type;
      created = now;
      destroyed = none;
      type_name = type_name;
      type_title = type_title;
      unit_count = unit_count;
      tenant_id = tenant_id;
    }

abbrev pub with_units : Option ℕ → Instance → Instance
with_units unit_count i = record i { unit_count = unit_count }

-- `track_instance` of the service. An environment that is not there raises AttributeError. A row
-- with the key is DBDuplicateEntry, and the update follows: its condition joins two comparisons of
-- columns by Python's `and`, and as the first of them is false as a truth value, it is all that the
-- query gets.
unfoldable pub track_instance :
    Server
    → ℕ
    → String
    → String
    → ℕ
    → String
    → Option String
    → Option ℕ
    → List Instance
    → Result (List Instance)
unfolding has_key has_id any_of update_where
track_instance s now instance_id environment_id instance_type type_name type_title unit_count
      table =
    do
      env ← from_option (get_environment environment_id s) attribute_error
      let instance =
          new_instance now env.tenant_id instance_id environment_id instance_type type_name
            type_title unit_count
      ok (
          if any_of (has_key environment_id instance_id) table
          then update_where (has_id instance_id) (with_units unit_count) table
          else instance ∷ table)

-- `not instance.destroyed`
abbrev pub is_unset : Option ℕ → Bool
is_unset none = true
is_unset (some t) = murano_temp.Base.Num.◌==◌ t 0

abbrev pub is_active : Instance → Bool
is_active i = is_unset i.destroyed

abbrev pub ended_at : ℕ → Instance → Instance
ended_at now i = record i { destroyed = some now }

abbrev pub to_end : String → String → Instance → Bool
to_end instance_id environment_id i = has_key environment_id instance_id i && is_active i

unfoldable pub destroy_instance : ℕ → String → String → List Instance → List Instance
unfolding has_key update_where
destroy_instance now instance_id environment_id table =
    update_where (to_end instance_id environment_id) (ended_at now) table

-- The payload of a notification.
pub record Payload : Type 0 where
  pub instance : Option String
  pub environment : Option String
  pub payload_type : Option ℕ
  pub payload_name : Option String
  pub payload_title : Option String
  pub payload_count : Option ℕ

unfoldable pub or_zero : Option ℕ → ℕ
or_zero none = 0
or_zero (some n) = n

-- The endpoint `track_instance`
unfoldable pub track : Server → ℕ → Payload → List Instance → Result (List Instance)
unfolding or_zero track_instance
track s now p table = do
  instance_id ← from_option p.instance key_error
  environment_id ← from_option p.environment key_error
  type_name ← from_option p.payload_name key_error
  track_instance s now instance_id environment_id (or_zero p.payload_type) type_name p.payload_title
      p.payload_count table

-- The endpoint `untrack_instance`
unfoldable pub untrack : ℕ → Payload → List Instance → Result (List Instance)
unfolding destroy_instance
untrack now p table = do
  instance_id ← from_option p.instance key_error
  environment_id ← from_option p.environment key_error
  ok (destroy_instance now instance_id environment_id table)

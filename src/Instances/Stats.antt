-- ===== src/Instances/Stats.antt =====
-- The statistics of an environment's instances: get_raw_environment_stats and get_aggregated_stats of
-- murano/db/services/instances.py.
use murano_temp.Base.{
  Bool, List, Option, String, [], any_of, filter, if◌then◌else◌, length, map, none, some, true, ℕ,
  ◌==◌, ◌||◌, ◌∷◌,
}
use murano_temp.Base.Num.{pos, ℤ, ◌+ℤ◌, ◌⊖◌}
use murano_temp.Instances.{Instance, is_active}

unfoldable pub of_env : String → Instance → Bool
of_env environment_id i = i.environment_id == environment_id

-- An entry of `get_raw_environment_stats`
pub record RawStats : Type 0 where
  pub raw_type : ℕ
  pub raw_duration : ℤ
  pub raw_name : String
  pub raw_count : Option ℕ
  pub raw_id : String
  pub raw_title : Option String
  pub active : Bool

-- `record.destroyed or now`
unfoldable pub end_of : ℕ → Option ℕ → ℕ
end_of now none = now
end_of now (some t) = if murano_temp.Base.Num.◌==◌ t 0 then now else t

unfoldable pub raw_stats : ℕ → Instance → RawStats
unfolding ◌⊖◌ end_of
raw_stats now i = record {
  raw_type = i.instance_type;
  raw_duration = end_of now i.destroyed ⊖ i.created;
  raw_name = i.type_name;
  raw_count = i.unit_count;
  raw_id = i.instance_id;
  raw_title = i.type_title;
  active = is_active i;
}

-- The second filter, where an instance is asked for.
abbrev pub asked : Option String → Instance → Bool
asked none i = true
asked (some id) i = id == "" || i.instance_id == id

unfoldable pub get_raw_environment_stats :
    ℕ → String → Option String → List Instance → List RawStats
unfolding raw_stats of_env filter
get_raw_environment_stats now environment_id instance_id table =
    map (raw_stats now) (filter (asked instance_id) (filter (of_env environment_id) table))

-- A record of `get_aggregated_stats`
pub record TypeStats : Type 0 where
  pub stats_type : ℕ
  pub stats_duration : ℤ
  pub stats_count : ℕ

-- `coalesce(destroyed, now) - created`
unfoldable pub coalesced : ℕ → Option ℕ → ℕ
coalesced now none = now
coalesced now (some t) = t

unfoldable pub lifetime : ℕ → Instance → ℤ
unfolding ◌⊖◌ coalesced
lifetime now i = coalesced now i.destroyed ⊖ i.created

unfoldable pub sum_lifetimes : ℕ → List Instance → ℤ
unfolding lifetime
sum_lifetimes now [] = ℤ.pos 0
sum_lifetimes now (i ∷ is) = lifetime now i +ℤ sum_lifetimes now is

unfoldable pub of_type : ℕ → Instance → Bool
of_type t i = murano_temp.Base.Num.◌==◌ i.instance_type t

-- `group_by(instance_type)`: one record for each type, over the types from the row on whose groups
-- are not made yet. The order of the groups is that of their first rows.
unfoldable pub groups : ℕ → List Instance → List Instance → List ℕ → List TypeStats
unfolding of_type sum_lifetimes filter
groups now rows [] made = []
groups now rows (i ∷ is) made =
    let t = i.instance_type in
    let members = filter (of_type t) rows in
    let rest = groups now rows is (t ∷ made) in
    if any_of (murano_temp.Base.Num.◌==◌ t) made
    then rest
    else record {
      stats_type = t;
      stats_duration = sum_lifetimes now members;
      stats_count = length members;
    }
      ∷ rest

unfoldable pub get_aggregated_stats : ℕ → String → List Instance → List TypeStats
unfolding groups of_env filter
get_aggregated_stats now environment_id table =
    let rows = filter (of_env environment_id) table in groups now rows rows []

-- ===== src/Instances/Totals.antt =====
-- The aggregated statistics against the raw ones.
use murano_temp.Base.{
  All, Bool, Bool-cases, List, Option, String, [], any_of, ap, ap₂, arith, count, false, filter,
  if◌then◌else◌, inl, inr, length, map, none, refl, some, suc, true, ℕ, ◌+◌, ◌<◌, ◌==◌, ◌||◌, ◌∙◌,
  ◌∷◌, ◌≡◌, ◌≤◌,
}
use murano_temp.Base.Num.{==_iff, pos, ℤ, ◌+ℤ◌, ◌⊖◌}
use murano_temp.Instances.{Instance}
use murano_temp.Instances.Durations.{All-filter, Steps, Steps-IsTimely}
use murano_temp.Instances.Stats.{
  RawStats, TypeStats, asked, coalesced, end_of, get_aggregated_stats, get_raw_environment_stats,
  groups, lifetime, of_env, of_type, raw_stats, sum_lifetimes,
}
use murano_temp.Instances.Timely.{Ended, Timely}

abbrev pub raw_of : ℕ → RawStats → Bool
raw_of t r = murano_temp.Base.Num.◌==◌ r.raw_type t

abbrev pub group_of : ℕ → TypeStats → Bool
group_of t r = murano_temp.Base.Num.◌==◌ r.stats_type t

-- The durations of a list, in the raw statistics.
unfoldable pub sum_durations : List RawStats → ℤ
sum_durations [] = ℤ.pos 0
sum_durations (r ∷ rs) = r.raw_duration +ℤ sum_durations rs

-- The record has the sum of the durations of its type, and their count.
unfoldable pub IsTotal : List RawStats → TypeStats → Type 0
unfolding sum_durations filter
IsTotal raws total =
    let members = filter (raw_of total.stats_type) raws in
    (total.stats_duration ≡ sum_durations members) × (total.stats_count ≡ length members)

coalesced-end_of :
    (now created : ℕ) (o : Option ℕ)
    → 0 < created
    → Ended now created o
    → coalesced now o ≡ end_of now o
unfolding coalesced end_of
coalesced-end_of now created none h e = refl
coalesced-end_of now created (some t) h e = let e' = e.0 in ground arith

lifetime-raw :
    (first now : ℕ) (i : Instance)
    → 0 < first
    → Timely first now i
    → lifetime now i ≡ (raw_stats now i).raw_duration
unfolding lifetime raw_stats Timely
lifetime-raw first now i h timely =
    let k : first ≤ i.created = timely.0 in
    ap (λ m. m ⊖ i.created) (coalesced-end_of now i.created i.destroyed (omega arith) timely.2)

sum_durations-members :
    (first now t : ℕ) (rows : List Instance)
    → 0 < first
    → All (Timely first now) rows
    → (sum_lifetimes now (filter (of_type t) rows)
        ≡ sum_durations (filter (raw_of t) (map (raw_stats now) rows)))
      × (length (filter (of_type t) rows) ≡ length (filter (raw_of t) (map (raw_stats now) rows)))
unfolding sum_lifetimes sum_durations filter of_type raw_stats
sum_durations-members first now t [] h all = (refl, refl)
sum_durations-members first now t (i ∷ rows) h (timely, all) =
    let (sums, lengths) = sum_durations-members first now t rows h all in
    elim (Bool-cases (murano_temp.Base.Num.◌==◌ i.instance_type t)) [
      | inl y ↦ rw y (ap₂ ◌+ℤ◌ (lifetime-raw first now i h timely) sums, ap suc lengths)
      | inr n ↦ rw n (sums, lengths)
    ]

-- Every group is made of the rows of its type.
All-groups :
    (Q : TypeStats → Type 0) (now : ℕ) (rows is : List Instance) (made : List ℕ)
    → ((t : ℕ)
        → Q (record {
          stats_type = t;
          stats_duration = sum_lifetimes now (filter (of_type t) rows);
          stats_count = length (filter (of_type t) rows);
        }))
    → All Q (groups now rows is made)
unfolding groups
All-groups Q now rows [] made each = tt
All-groups Q now rows (i ∷ is) made each =
    elim (Bool-cases (any_of (murano_temp.Base.Num.◌==◌ i.instance_type) made)) [
      | inl y ↦ rw y (All-groups Q now rows is (i.instance_type ∷ made) each)
      | inr n ↦ rw n (each i.instance_type, All-groups Q now rows is (i.instance_type ∷ made) each)
    ]

eq_sym : (m n : ℕ) → murano_temp.Base.Num.◌==◌ m n ≡ murano_temp.Base.Num.◌==◌ n m
eq_sym m n = ground arith

unfoldable pub one_if : Bool → ℕ
one_if b = if b then 1 else 0

skipped :
    (e a b : Bool)
    → (e ≡ true → a ≡ true)
    → (if e || a then 0 else one_if b) ≡ (if a then 0 else one_if (e || b))
unfolding one_if
skipped true true b h = refl
skipped true false b h = let k = h refl in cc
skipped false a b h = refl

taken :
    (e a b : Bool)
    → (e ≡ true → a ≡ false)
    → one_if e + (if e || a then 0 else one_if b) ≡ (if a then 0 else one_if (e || b))
unfolding one_if
taken true true b h = let k = h refl in cc
taken true false b h = refl
taken false a b h = omega arith

-- There is one group for each type, but for those that are made already.
count-groups :
    (now t : ℕ) (rows is : List Instance) (made : List ℕ)
    → count (group_of t) (groups now rows is made) ≡ (
        if any_of (murano_temp.Base.Num.◌==◌ t) made
        then 0
        else if any_of (of_type t) is
        then 1
        else 0)
unfolding groups count any_of of_type one_if
count-groups now t rows [] made = ground arith
count-groups now t rows (i ∷ is) made =
    let u = i.instance_type in
    let e = murano_temp.Base.Num.◌==◌ t u in
    let seen = any_of (murano_temp.Base.Num.◌==◌ t) made in
    let later = count-groups now t rows is (u ∷ made) in
    let there = any_of (murano_temp.Base.Num.◌==◌ u) made in
    let moves : e ≡ true → seen ≡ there = λ h.
      ap (λ n. any_of (murano_temp.Base.Num.◌==◌ n) made) ((murano_temp.Base.Num.==_iff t u).0 h) in
    elim (Bool-cases there) [
      | inl y ↦
          rw (y, eq_sym u t) (later ∙ skipped e seen (any_of (of_type t) is) (λ h. moves h ∙ y))
      | inr n ↦
          rw (n, eq_sym u t)
            (ap (λ k. one_if e + k) later ∙ taken e seen (any_of (of_type t) is) (λ h. moves h ∙ n))
    ]

filter-asked : (l : List Instance) → filter (asked none) l ≡ l
unfolding filter
filter-asked [] = refl
filter-asked (i ∷ l) = ap (λ k. i ∷ k) (filter-asked l)

any_of-raw :
    (now t : ℕ) (rows : List Instance)
    → any_of (of_type t) rows ≡ any_of (raw_of t) (map (raw_stats now) rows)
unfolding any_of of_type raw_stats
any_of-raw now t [] = refl
any_of-raw now t (i ∷ rows) =
    ap (λ b. murano_temp.Base.Num.◌==◌ i.instance_type t || b) (any_of-raw now t rows)

-- From an empty table at a time that is not 0, after any notifications that were handled without an
-- exception, as time goes on: a record of an environment's aggregated statistics has the sum of the
-- raw durations of its type, and their count; and a type has one record if a raw entry is of it, and
-- else none.
pub get_aggregated_stats-IsTotal :
    (first now : ℕ) (table : List Instance)
    → 0 < first
    → Steps (first, []) (now, table)
    → (environment_id : String) (t : ℕ)
    → All
        (IsTotal (get_raw_environment_stats now environment_id none table))
        (get_aggregated_stats now environment_id table)
      × (count (group_of t) (get_aggregated_stats now environment_id table)
          ≡ one_if (any_of (raw_of t) (get_raw_environment_stats now environment_id none table)))
unfolding get_aggregated_stats get_raw_environment_stats IsTotal any_of one_if
get_aggregated_stats-IsTotal first now table h steps environment_id t =
    let rows : List Instance = filter (of_env environment_id) table in
    let all : All (Timely first now) rows =
      All-filter (Timely first now) (of_env environment_id) table
        (Steps-IsTimely first steps).timely in
    rw (filter-asked rows) (
      All-groups (IsTotal (map (raw_stats now) rows)) now rows rows []
          (λ u. sum_durations-members first now u rows h all),
      count-groups now t rows rows [] ∙ ap one_if (any_of-raw now t rows),
    )

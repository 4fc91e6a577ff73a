-- ===== src/Instances/Durations.antt =====
-- The durations that are reported, over any sequence of notifications.
use murano_temp.Base.{
  All, Bool, Bool-cases, List, Option, String, [], ap, arith, count, filter, inl, inr, map, none,
  some, suc, zero, ℕ, ◌+◌, ◌-◌, ◌==◌, ◌∙◌, ◌∷◌, ◌≡◌, ◌≤◌,
}
use murano_temp.Base.Num.{pos, ℤ, ◌⊖◌}
use murano_temp.Base.Result.{>>=-eq-ok, from_option, key_error, ok, ok-injective}
use murano_temp.Instances.{Instance, Payload, has_key, or_zero, track, untrack}
use murano_temp.Instances.Stats.{
  RawStats, asked, end_of, get_raw_environment_stats, of_env, raw_stats,
}
use murano_temp.Instances.Timely.{
  All-weaken, Ended, Ended-later, IsTimely, Timely, tracked-IsTimely, untracked-IsTimely,
}
use murano_temp.Server.{Server}
use mathlib.Core.Path.{subst}
-- What changes the clock and the table. The environments may change between the notifications.
use mathlib.Core.Path.{subst}

pub data Step : ℕ × List Instance → ℕ × List Instance → Type 0 where
  tracked :
      {now : ℕ} {table changed : List Instance} (s : Server) (p : Payload)
      → track s now p table ≡ ok changed
      → Step (now, table) (now, changed)
  untracked :
      {now : ℕ} {table changed : List Instance} (p : Payload)
      → untrack now p table ≡ ok changed
      → Step (now, table) (now, changed)
  elapsed : {now later : ℕ} {table : List Instance} → now ≤ later → Step (now, table) (later, table)

pub data Steps (x : ℕ × List Instance) : ℕ × List Instance → Type 0 where
  no_step : Steps x x
  and_step : {y z : ℕ × List Instance} → Steps x y → Step y z → Steps x z

Step-IsTimely :
    (first : ℕ) {x y : ℕ × List Instance} → Step x y → IsTimely first x → IsTimely first y
unfolding track untrack
Step-IsTimely first (tracked s p run) h =
    >>=-eq-ok (from_option p.instance key_error) _ run (λ instance_id e g.
      >>=-eq-ok (from_option p.environment key_error) _ g (λ environment_id e' g'.
        >>=-eq-ok (from_option p.payload_name key_error) _ g' (λ type_name e'' g''.
          tracked-IsTimely s first _ instance_id environment_id (or_zero p.payload_type) type_name
            p.payload_title p.payload_count _ _ h g'')))
Step-IsTimely first (untracked {now = now} p run) h =
    >>=-eq-ok (from_option p.instance key_error) _ run (λ instance_id e g.
      >>=-eq-ok (from_option p.environment key_error) _ g (λ environment_id e' g'.
        subst (λ l. IsTimely first (now, l)) (ok-injective g')
          (untracked-IsTimely first _ instance_id environment_id _ h)))
Step-IsTimely first (elapsed {now = now} {later = later} {table = table} le) h = record {
  begun = let b = h.begun in omega arith;
  timely =
      All-weaken (Timely first now) (Timely first later) table
        (λ i x.
          unfold Timely in
          (x.0, (let k = x.1 in omega arith), Ended-later now later i.created i.destroyed le x.2))
        h.timely;
  unique = h.unique;
}

pub Steps-IsTimely : (first : ℕ) {y : ℕ × List Instance} → Steps (first, []) y → IsTimely first y
Steps-IsTimely first no_step = record {
  begun = omega arith;
  timely = tt;
  unique = λ e j. unfold count in omega arith;
}
Steps-IsTimely first (and_step steps next) = Step-IsTimely first next (Steps-IsTimely first steps)

⊖-le : (m n : ℕ) → n ≤ m → m ⊖ n ≡ ℤ.pos (m - n)
unfolding ◌⊖◌
⊖-le m zero h = ap ℤ.pos (omega arith)
⊖-le zero (suc n) h = absurd (omega arith)
⊖-le (suc m) (suc n) h = ⊖-le m n (omega arith) ∙ ap ℤ.pos (omega arith)

end_of-within :
    (now created : ℕ) (o : Option ℕ)
    → created ≤ now
    → Ended now created o
    → (created ≤ end_of now o) × (end_of now o ≤ now)
unfolding end_of
end_of-within now created none h e = (h, omega arith)
end_of-within now created (some t) h e = elim (Bool-cases (murano_temp.Base.Num.◌==◌ t 0)) [
  | inl y ↦ rw y (h, omega arith)
  | inr n ↦ rw n (e.0, e.1)
]

-- A duration is a number that is not negative, and at most the time since `first`.
unfoldable pub IsBounded : ℕ → ℕ → RawStats → Type 0
IsBounded first now raw = (d : ℕ) × (raw.raw_duration ≡ ℤ.pos d) × (d + first ≤ now)

raw_stats-IsBounded :
    (first now : ℕ) (i : Instance) → Timely first now i → IsBounded first now (raw_stats now i)
unfolding raw_stats IsBounded Timely
raw_stats-IsBounded first now i h =
    let (le, le') = end_of-within now i.created i.destroyed h.1 h.2 in
    let k : first ≤ i.created = h.0 in
    (end_of now i.destroyed - i.created, ⊖-le (end_of now i.destroyed) i.created le, omega arith)

pub All-filter :
    {A : Type 0} (P : A → Type 0) (p : A → Bool) (l : List A) → All P l → All P (filter p l)
unfolding filter
All-filter P p [] h = tt
All-filter P p (a ∷ l) (h, hs) = elim (Bool-cases (p a)) [
  | inl y ↦ rw y (h, All-filter P p l hs)
  | inr n ↦ rw n (All-filter P p l hs)
]

All-map :
    {A B : Type 0} (P : A → Type 0) (Q : B → Type 0) (f : A → B) (l : List A)
    → ((a : A) → P a → Q (f a))
    → All P l
    → All Q (map f l)
All-map P Q f [] k h = tt
All-map P Q f (a ∷ l) k (h, hs) = (k a h, All-map P Q f l k hs)

-- From an empty table at a time, after any notifications that were handled without an exception, as
-- time goes on: no duration that is reported is negative, or longer than the time since then, and an
-- environment has at most one row for an instance.
pub Steps-IsBounded :
    (first now : ℕ) (table : List Instance)
    → Steps (first, []) (now, table)
    → (environment_id instance_id : String) (asked_id : Option String)
    → All (IsBounded first now) (get_raw_environment_stats now environment_id asked_id table)
      × (count (has_key environment_id instance_id) table ≤ 1)
unfolding get_raw_environment_stats
Steps-IsBounded first now table steps environment_id instance_id asked_id =
    let h = Steps-IsTimely first steps in
    (
      All-map (Timely first now) (IsBounded first now) (raw_stats now)
          (filter (asked asked_id) (filter (of_env environment_id) table))
          (raw_stats-IsBounded first now)
          (All-filter (Timely first now) (asked asked_id) (filter (of_env environment_id) table)
            (All-filter (Timely first now) (of_env environment_id) table h.timely)),
      h.unique environment_id instance_id,
    )

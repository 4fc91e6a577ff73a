-- ===== src/Instances/Timely.antt =====
-- The times and the keys in the table of instances, after a notification.
use murano_temp.Base.{
  All, Bool, Bool-cases, List, Option, String, [], any_of, ap₂, arith, count, eq_iff, false,
  if◌then◌else◌, inl, inr, none, refl, some, sym, true, update_where, ℕ, ◌∙◌, ◌∷◌, ◌≡◌, ◌≤◌,
}
use murano_temp.Base.Result.{>>=-eq-ok, attribute_error, from_option, ok, ok-injective}
use murano_temp.Instances.{
  Instance, destroy_instance, ended_at, has_id, has_key, to_end, track_instance, with_units,
}
use murano_temp.Server.{Server}
use murano_temp.Server.Tables.{get_environment}
use mathlib.Core.Path.{subst}

abbrev pub Ended : ℕ → ℕ → Option ℕ → Type 0
Ended now created none = Unit
Ended now created (some t) = (created ≤ t) × (t ≤ now)

-- From the time `first` on, an instance was created, and perhaps destroyed, by now.
unfoldable pub Timely : ℕ → ℕ → Instance → Type 0
Timely first now i = (first ≤ i.created) × (i.created ≤ now) × Ended now i.created i.destroyed

-- The rows are timely, and their keys are unique.
pub record IsTimely (first : ℕ) (x : ℕ × List Instance) : Type 0 where
  pub begun : first ≤ x.0
  pub timely : All (Timely first x.0) x.1
  pub unique :
      (environment_id instance_id : String) → count (has_key environment_id instance_id) x.1 ≤ 1

All-update_where :
    {A : Type 0} (P : A → Type 0) (p : A → Bool) (f : A → A) (l : List A)
    → ((a : A) → P a → P (f a))
    → All P l
    → All P (update_where p f l)
unfolding update_where
All-update_where P p f [] keep h = tt
All-update_where P p f (a ∷ l) keep (h, hs) = elim (Bool-cases (p a)) [
  | inl y ↦ rw y (keep a h, All-update_where P p f l keep hs)
  | inr n ↦ rw n (h, All-update_where P p f l keep hs)
]

pub All-weaken :
    {A : Type 0} (P Q : A → Type 0) (l : List A) → ((a : A) → P a → Q a) → All P l → All Q l
All-weaken P Q [] weaken h = tt
All-weaken P Q (a ∷ l) weaken (h, hs) = (weaken a h, All-weaken P Q l weaken hs)

count-update_where :
    {A : Type 0} (q p : A → Bool) (f : A → A) (l : List A)
    → ((a : A) → q (f a) ≡ q a)
    → count q (update_where p f l) ≡ count q l
unfolding update_where count
count-update_where q p f [] keep = refl
count-update_where q p f (a ∷ l) keep = elim (Bool-cases (p a)) [
  | inl y ↦ rw (y, keep a, count-update_where q p f l keep) refl
  | inr n ↦ rw (n, count-update_where q p f l keep) refl
]

count-any_of : {A : Type 0} (q : A → Bool) (l : List A) → any_of q l ≡ false → count q l ≡ 0
unfolding any_of count
count-any_of q [] h = refl
count-any_of q (a ∷ l) h = elim (Bool-cases (q a)) [
  | inl y ↦ ground arith
  | inr n ↦ let k = count-any_of q l (ground arith) in rw n (omega arith)
]

pub Ended-later :
    (now later created : ℕ) (o : Option ℕ)
    → now ≤ later
    → Ended now created o
    → Ended later created o
Ended-later now later created none h e = tt
Ended-later now later created (some t) h e = (e.0, omega arith)

key_of_row :
    (e j : String) (i : Instance)
    → has_key e j i ≡ true
    → (i.environment_id ≡ e) × (i.instance_id ≡ j)
unfolding has_key
key_of_row e j i h = ground (arith, eq_iff i.environment_id e, eq_iff i.instance_id j)

-- A new row with a key that no row has.
count-new :
    (environment_id instance_id e j : String) (new : Instance) (table : List Instance)
    → new.environment_id ≡ environment_id
    → new.instance_id ≡ instance_id
    → any_of (has_key environment_id instance_id) table ≡ false
    → count (has_key e j) table ≤ 1
    → count (has_key e j) (new ∷ table) ≤ 1
unfolding count
count-new environment_id instance_id e j new table at id none_has h =
    elim (Bool-cases (has_key e j new)) [
      | inl y ↦
          let (e', j') = key_of_row e j new y in
          let unused : any_of (has_key e j) table ≡ false =
            ap₂ (λ u v. any_of (has_key u v) table) (sym e' ∙ at) (sym j' ∙ id) ∙ none_has in
          let zero_count = count-any_of (has_key e j) table unused in rw y (omega arith)
      | inr n ↦ rw n (omega arith)
    ]

-- The table with its units updated, or with a new row.
row-IsTimely :
    (first now : ℕ) (instance_id environment_id : String) (unit_count : Option ℕ) (new : Instance)
    (table : List Instance)
    → new.environment_id ≡ environment_id
    → new.instance_id ≡ instance_id
    → new.created ≡ now
    → new.destroyed ≡ none
    → IsTimely first (now, table)
    → IsTimely first (
      now,
      if any_of (has_key environment_id instance_id) table
          then update_where (has_id instance_id) (with_units unit_count) table
          else new ∷ table,
    )
unfolding Timely has_key count
row-IsTimely first now instance_id environment_id unit_count new table at id made alive h =
    elim (Bool-cases (any_of (has_key environment_id instance_id) table)) [
      | inl y ↦ rw y (record {
        begun = h.begun;
        timely =
            All-update_where (Timely first now) (has_id instance_id) (with_units unit_count) table
              (λ i x. x) h.timely;
        unique = λ e j.
            let same =
              count-update_where (has_key e j) (has_id instance_id) (with_units unit_count) table
                (λ i. refl) in
            subst (λ n. n ≤ 1) (sym same) (h.unique e j);
      })
      | inr n ↦ rw n (record {
        begun = h.begun;
        timely = (
          (omega arith, omega arith, subst (λ o. Ended now new.created o) (sym alive) tt),
          h.timely,
        );
        unique = λ e j. count-new environment_id instance_id e j new table at id n (h.unique e j);
      })
    ]

-- The table after a notification that named an environment that is there.
pub tracked-IsTimely :
    (s : Server) (first now : ℕ) (instance_id environment_id : String) (instance_type : ℕ)
    (type_name : String) (type_title : Option String) (unit_count : Option ℕ)
    (table changed : List Instance)
    → IsTimely first (now, table)
    → track_instance s now instance_id environment_id instance_type type_name type_title unit_count
        table
      ≡ ok changed
    → IsTimely first (now, changed)
unfolding track_instance
tracked-IsTimely s first now instance_id environment_id instance_type type_name type_title
      unit_count table changed h run =
    >>=-eq-ok (from_option (get_environment environment_id s) attribute_error) _ run (λ env e g.
      subst (λ l. IsTimely first (now, l)) (ok-injective g)
        (row-IsTimely first now instance_id environment_id unit_count _ table refl refl refl refl
          h))

pub untracked-IsTimely :
    (first now : ℕ) (instance_id environment_id : String) (table : List Instance)
    → IsTimely first (now, table)
    → IsTimely first (now, destroy_instance now instance_id environment_id table)
unfolding destroy_instance Timely has_key
untracked-IsTimely first now instance_id environment_id table h = record {
  begun = h.begun;
  timely =
      All-update_where (Timely first now) (to_end instance_id environment_id) (ended_at now) table
        (λ i x. (x.0, x.1, (x.1, omega arith))) h.timely;
  unique = λ e j.
      let same =
        count-update_where (has_key e j) (to_end instance_id environment_id) (ended_at now) table
          (λ i. refl) in
      subst (λ n. n ≤ 1) (sym same) (h.unique e j);
}

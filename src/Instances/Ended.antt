-- ===== src/Instances/Ended.antt =====
-- An instance that was destroyed stays so, whatever is reported of it later.
use murano_temp.Base.{
  Bool, Bool-cases, List, Option, String, [], any_of, ap, arith, eq_iff, false, find, if◌then◌else◌,
  inl, inr, none, refl, some, suc, update_where, ℕ, ◌&&◌, ◌==◌, ◌∙◌, ◌∷◌, ◌≡◌,
}
use murano_temp.Base.Result.{>>=-eq-ok, attribute_error, from_option, key_error, ok, ok-injective}
use murano_temp.Instances.{
  Instance, destroy_instance, ended_at, has_id, has_key, is_unset, or_zero, to_end, track,
  track_instance, untrack, with_units,
}
use murano_temp.Instances.Durations.{Step, Steps, and_step, elapsed, no_step, tracked, untracked}
use murano_temp.Server.{Server}
use murano_temp.Server.Tables.{get_environment}
use murano_temp.Types.Symbols.{map_option}
use mathlib.Core.Path.{subst}

-- The row of a key.
unfoldable pub row_of : String → String → List Instance → Option Instance
unfolding find has_key
row_of environment_id instance_id table = find (has_key environment_id instance_id) table

-- The row of a key was created and destroyed at these times, the second of which is not 0.
abbrev pub IsDestroyed : String → String → ℕ → ℕ → List Instance → Type 0
IsDestroyed environment_id instance_id created t table =
    (i : Instance) × (row_of environment_id instance_id table ≡ some i)
    × (i.created ≡ created)
    × (i.destroyed ≡ some (suc t))

changed_if : {A : Type 0} → (A → Bool) → (A → A) → A → A
changed_if p f a = if p a then f a else a

find-update_where :
    {A : Type 0} (q p : A → Bool) (f : A → A) (l : List A)
    → ((a : A) → q (f a) ≡ q a)
    → find q (update_where p f l) ≡ map_option (changed_if p f) (find q l)
unfolding find update_where changed_if
find-update_where q p f [] keep = refl
find-update_where q p f (a ∷ l) keep = elim (Bool-cases (q a)) [
  | inl y ↦ elim (Bool-cases (p a)) [
    | inl z ↦ rw (y, z, keep a, y) refl
    | inr n ↦ rw (y, n, y) refl
  ]
  | inr k ↦ elim (Bool-cases (p a)) [
    | inl z ↦ rw (k, z, keep a, k) (find-update_where q p f l keep)
    | inr n ↦ rw (k, n, k) (find-update_where q p f l keep)
  ]
]

find-any_of : {A : Type 0} (q : A → Bool) (l : List A) → any_of q l ≡ false → find q l ≡ none
unfolding find any_of
find-any_of q [] h = refl
find-any_of q (a ∷ l) h = elim (Bool-cases (q a)) [
  | inl y ↦ ground arith
  | inr n ↦ rw n (find-any_of q l (ground arith))
]

-- A row that is changed, where the change keeps its times.
IsDestroyed-update_where :
    (e j : String) (c t : ℕ) (p : Instance → Bool) (f : Instance → Instance) (table : List Instance)
    → ((i : Instance) → has_key e j (f i) ≡ has_key e j i)
    → ((i : Instance)
        → i.destroyed ≡ some (suc t)
        → ((changed_if p f i).created ≡ i.created) × ((changed_if p f i).destroyed ≡ i.destroyed))
    → IsDestroyed e j c t table
    → IsDestroyed e j c t (update_where p f table)
unfolding row_of
IsDestroyed-update_where e j c t p f table keep times (i, at, made, over_at) =
    let (same, same') = times i over_at in
    (
      changed_if p f i,
      find-update_where (has_key e j) p f table keep ∙ ap (map_option (changed_if p f)) at,
      same ∙ made,
      same' ∙ over_at,
    )

units-times :
    (p : Instance → Bool) (n : Option ℕ) (i : Instance)
    → ((changed_if p (with_units n) i).created ≡ i.created)
      × ((changed_if p (with_units n) i).destroyed ≡ i.destroyed)
unfolding changed_if
units-times p n i = elim (Bool-cases (p i)) [
  | inl y ↦ rw y (refl, refl)
  | inr k ↦ rw k (refl, refl)
]

unset_suc : (t : ℕ) → is_unset (some (suc t)) ≡ false
unset_suc t = ground arith

ended-times :
    (e j : String) (now t : ℕ) (i : Instance)
    → i.destroyed ≡ some (suc t)
    → changed_if (to_end e j) (ended_at now) i ≡ i
unfolding changed_if
ended-times e j now t i h =
    let off : is_unset i.destroyed ≡ false = ap is_unset h ∙ unset_suc t in
    let skip : to_end e j i ≡ false = ground arith in rw skip refl

IsDestroyed-track_instance :
    (e j : String) (c t : ℕ) (s : Server) (now : ℕ) (instance_id environment_id : String)
    (instance_type : ℕ) (type_name : String) (type_title : Option String) (unit_count : Option ℕ)
    (table changed : List Instance)
    → track_instance s now instance_id environment_id instance_type type_name type_title unit_count
        table
      ≡ ok changed
    → IsDestroyed e j c t table
    → IsDestroyed e j c t changed
unfolding track_instance row_of find has_key
IsDestroyed-track_instance e j c t s now instance_id environment_id instance_type type_name
      type_title unit_count table changed run (i, at, made, over_at) =
    >>=-eq-ok (from_option (get_environment environment_id s) attribute_error) _ run (λ env x g.
      subst (λ l. IsDestroyed e j c t l) (ok-injective g)
        (elim (Bool-cases (any_of (has_key environment_id instance_id) table)) [
          | inl y ↦ rw y (
              IsDestroyed-update_where e j c t (has_id instance_id) (with_units unit_count) table
                (λ k. refl) (λ k _. units-times (has_id instance_id) unit_count k)
                (i, at, made, over_at))
          | inr n ↦ rw n (elim (Bool-cases (environment_id == e && instance_id == j)) [
            | inl same ↦
                let e' : environment_id ≡ e = ground (arith, eq_iff environment_id e) in
                let j' : instance_id ≡ j = ground (arith, eq_iff instance_id j) in
                let gone = find-any_of (has_key environment_id instance_id) table n in
                let gone' : row_of e j table ≡ none =
                  subst (λ u. row_of u j table ≡ none) e'
                    (subst (λ u. row_of environment_id u table ≡ none) j' gone) in
                cc
            | inr other ↦ (i, rw other at, made, over_at)
          ])
        ]))

Step-IsDestroyed :
    (e j : String) (c t : ℕ) {x y : ℕ × List Instance}
    → Step x y
    → IsDestroyed e j c t x.1
    → IsDestroyed e j c t y.1
unfolding track untrack destroy_instance has_key
Step-IsDestroyed e j c t (tracked s p run) h =
    >>=-eq-ok (from_option p.instance key_error) _ run (λ instance_id q g.
      >>=-eq-ok (from_option p.environment key_error) _ g (λ environment_id q' g'.
        >>=-eq-ok (from_option p.payload_name key_error) _ g' (λ type_name q'' g''.
          IsDestroyed-track_instance e j c t s _ instance_id environment_id (or_zero p.payload_type)
            type_name p.payload_title p.payload_count _ _ g'' h)))
Step-IsDestroyed e j c t (untracked {now = now} {table = table} p run) h =
    >>=-eq-ok (from_option p.instance key_error) _ run (λ instance_id q g.
      >>=-eq-ok (from_option p.environment key_error) _ g (λ environment_id q' g'.
        subst (λ l. IsDestroyed e j c t l) (ok-injective g')
          (IsDestroyed-update_where e j c t (to_end instance_id environment_id) (ended_at now) table
            (λ k. refl)
            (λ k z.
              let same = ended-times instance_id environment_id now t k z in
              (ap (λ m. m.created) same, ap (λ m. m.destroyed) same))
            h)))
Step-IsDestroyed e j c t (elapsed le) h = h

-- A row with a time of its end keeps the times of its start and of its end, whatever is tracked and
-- untracked later.
pub Steps-IsDestroyed :
    (e j : String) (c t : ℕ) {x y : ℕ × List Instance}
    → Steps x y
    → IsDestroyed e j c t x.1
    → IsDestroyed e j c t y.1
Steps-IsDestroyed e j c t no_step h = h
Steps-IsDestroyed e j c t (and_step steps next) h =
    Step-IsDestroyed e j c t next (Steps-IsDestroyed e j c t steps h)

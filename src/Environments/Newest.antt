-- ===== src/Environments/Newest.antt =====
-- `get_status` of murano/db/services/environments.py against the session table.
use murano_temp.Base.{
  All, Bool, Bool-cases, List, Option-cases, String, [], arith, count, false, filter, find, inl,
  inr, none, not, refl, some, sym, true, ◌&&◌, ◌||◌, ◌∙◌, ◌∷◌, ◌≡◌, ◌⊎◌,
}
use murano_temp.Base.Num.{leb}
use murano_temp.Environments.{get_status}
use murano_temp.Environments.Summary.{
  is_settled, starts_opened, status_by, status_of-none, status_of-some, undeployed,
}
use murano_temp.Server.{Server, Session, is_opened}
use murano_temp.Server.Counts.{All-map, All-of}
use murano_temp.Server.Sql.{IsNewestFirst, Precedes, Sql}
use murano_temp.Server.Tables.{of_environment}
use murano_temp.Sessions.{get_sessions}
use murano_temp.Sessions.Valid.{find-holds}
use mathlib.Core.Path.{subst}

All-of_count :
    {A : Type 0} (p : A → Bool) (l : List A)
    → count (λ x. not (p x)) l ≡ 0
    → All (λ x. p x ≡ true) l
unfolding count
All-of_count p [] h = tt
All-of_count p (x ∷ l) h = (ground arith, All-of_count p l (ground arith))

count_of_All :
    {A : Type 0} (p : A → Bool) (l : List A)
    → All (λ x. p x ≡ true) l
    → count (λ x. not (p x)) l ≡ 0
unfolding count
count_of_All p [] h = refl
count_of_All p (x ∷ l) h = ground (arith, count_of_All p l h.1)

All-filter :
    {A : Type 0} (p q : A → Bool) (l : List A)
    → All (λ x. q x ≡ true → p x ≡ true) l
    → All (λ x. p x ≡ true) (filter q l)
unfolding filter
All-filter p q [] h = tt
All-filter p q (x ∷ l) h = elim (Bool-cases (q x)) [
  | inl e ↦ rw e (h.0 e, All-filter p q l h.1)
  | inr e ↦ rw e (All-filter p q l h.1)
]

All-unfilter :
    {A : Type 0} (p q : A → Bool) (l : List A)
    → All (λ x. p x ≡ true) (filter q l)
    → All (λ x. q x ≡ true → p x ≡ true) l
unfolding filter
All-unfilter p q [] h = tt
All-unfilter p q (x ∷ l) h = elim (Bool-cases (q x)) [
  | inl e ↦ let k = rw e at h in ((λ _. k.0), All-unfilter p q l k.1)
  | inr e ↦ ((λ y. cc), All-unfilter p q l (rw e at h))
]

-- The row belongs to the environment.
abbrev in_environment : String → Session → Bool
in_environment id r = of_environment id r && true

module _ (sql : Sql) (id : String) (s : Server) (p : Session → Bool) where
  -- What holds of the environment's rows holds of the rows that the query returns, and back.
  All-get_sessions :
      All (λ r. in_environment id r ≡ true → p r ≡ true) s.sessions
      → All (λ r. p r ≡ true) (get_sessions sql id none s)
  unfolding get_sessions
  All-get_sessions h = All-of_count p _ (
      sql.count-order (λ r. not (p r)) (filter (in_environment id) s.sessions)
      ∙ count_of_All p _ (All-filter p (in_environment id) s.sessions h))

  All-sessions :
      All (λ r. p r ≡ true) (get_sessions sql id none s)
      → All (λ r. in_environment id r ≡ true → p r ≡ true) s.sessions
  unfolding get_sessions
  All-sessions h = All-unfilter p (in_environment id) s.sessions (
      All-of_count p _ (
        sym (sql.count-order (λ r. not (p r)) (filter (in_environment id) s.sessions))
        ∙ count_of_All p _ h))

find-none :
    {A : Type 0} (q : A → Bool) (l : List A) → find q l ≡ none → All (λ x. not (q x) ≡ true) l
unfolding find
find-none q [] e = tt
find-none q (x ∷ l) e = (ground arith, find-none q l (ground arith))

find-All :
    {A : Type 0} (p q : A → Bool) (l : List A) (a : A)
    → find q l ≡ some a
    → All (λ x. p x ≡ true) l
    → p a ≡ true
unfolding find
find-All p q [] a e h = cc
find-All p q (x ∷ l) a e h = elim (Bool-cases (q x)) [
  | inl y ↦ ground arith
  | inr n ↦ find-All p q l a (ground arith) h.1
]

-- A settled row has no later version.
abbrev pub no_newer : Session → Session → Bool
no_newer r t = is_opened t.state || leb t.version r.version

All-no_newer :
    (r : Session) (l : List Session) → All (Precedes r) l → All (λ t. no_newer r t ≡ true) l
All-no_newer r [] h = tt
All-no_newer r (t ∷ l) h = (ground arith, All-no_newer r l h.1)

first_settled :
    (l : List Session) (r : Session)
    → IsNewestFirst l
    → find is_settled l ≡ some r
    → All (λ t. no_newer r t ≡ true) l
unfolding find
first_settled [] r h e = tt
first_settled (t ∷ l) r h e = elim (Bool-cases (is_settled t)) [
  | inl y ↦
      let same : t ≡ r = ground arith in
      subst (λ u. All (λ v. no_newer u v ≡ true) (t ∷ l)) same (ground arith, All-no_newer t l h.0)
  | inr n ↦ (ground arith, first_settled l r h.1 (ground arith))
]

-- Either every session of the environment is opened, and the status is `pending` if the query's
-- first session is opened and `ready` if there is none; or a settled session of the environment,
-- such that no settled one has a later version, tells the status: its own state, where DEPLOYED
-- gives `pending` if the query's first session is opened and `ready` if it is not.
pub get_status-newest :
    (sql : Sql) (id : String) (s : Server)
    → All (λ t. of_environment id t ≡ true → is_opened t.state ≡ true) s.sessions
        × (get_status sql id s ≡ undeployed (starts_opened (get_sessions sql id none s)))
      ⊎ ((r : Session) × (of_environment id r ≡ true)
          × (is_settled r ≡ true)
          × All (λ t. of_environment id t ≡ true → no_newer r t ≡ true) s.sessions
          × (get_status sql id s ≡ status_by r.state (starts_opened (get_sessions sql id none s))))
unfolding get_status
get_status-newest sql id s = elim (Option-cases (find is_settled (get_sessions sql id none s))) [
  | inl e ↦ inl (
    All-map (λ t h o. ground arith) s.sessions
        (All-sessions sql id s (λ t. not (is_settled t)) (find-none is_settled _ e)),
    status_of-none (get_sessions sql id none s) false e,
  )
  | inr (r, e) ↦ inr (
    r,
    find-All (of_environment id) is_settled _ r e
        (All-get_sessions sql id s (of_environment id) (All-of (λ t h. ground arith) s.sessions)),
    find-holds is_settled _ r e,
    All-map (λ t h o. h (ground arith)) s.sessions
        (All-sessions sql id s (no_newer r)
          (first_settled _ r (unfold get_sessions in sql.order-IsNewestFirst _) e)),
    status_of-some (get_sessions sql id none s) false r e,
  )
]

-- ===== src/Server/Sound.antt =====
-- The invariant of the session table: ids are unique, and an environment has at most one session
-- in state DEPLOYING; with what each change of the tables does to it.
use murano_temp.Base.{
  Bool, String, [], ap, arith, count, eq_iff, false, inl, inr, some, text_cases, true, update_where,
  ◌&&◌, ◌++◌, ◌==◌, ◌∷◌, ◌≡◌, ◌≤◌,
}
use murano_temp.Server.Counts.{
  All-map, All-of, count-filter_le, count-snoc, count-update_where_add, count-update_where_le,
  count_none, find_unique,
}
use murano_temp.Server.Rows.{Server, Session, is_deploying}
use murano_temp.Server.Tables.{
  add_session, delete_environment, delete_session, get_session, of_environment, update_session,
}
use murano_temp.Sessions.{any_deploying}
use mathlib.Core.Path.{subst}

abbrev pub has_id : String → Session → Bool
has_id id r = r.id == id

abbrev pub deploying_in : String → Session → Bool
deploying_in environment_id r = of_environment environment_id r && is_deploying r.state

pub record IsSound (s : Server) : Type 0 where
  pub unique : (id : String) → count (has_id id) s.sessions ≤ 1
  pub single : (environment_id : String) → count (deploying_in environment_id) s.sessions ≤ 1

-- The invariant reads nothing but the sessions.
pub IsSound-cast : {s t : Server} → t.sessions ≡ s.sessions → IsSound s → IsSound t
IsSound-cast {s} {t} e h = record {
  unique = λ id. rw e (h.unique id);
  single = λ environment_id. rw e (h.single environment_id);
}

pub IsSound-add :
    {s : Server} (r : Session)
    → IsSound s
    → count (has_id r.id) s.sessions ≡ 0
    → is_deploying r.state ≡ false
    → IsSound (add_session r s)
unfolding add_session
IsSound-add {s} r h fresh idle = record {
  unique = λ id. elim (text_cases r.id id) [
    | inl (e, same) ↦
        subst (λ i. count (has_id i) (s.sessions ++ r ∷ []) ≤ 1) same
          (ground (arith, count-snoc (has_id r.id) s.sessions r, eq_iff r.id r.id))
    | inr (e, other) ↦ ground (arith, count-snoc (has_id id) s.sessions r, h.unique id)
  ];
  single = λ i. ground (arith, count-snoc (deploying_in i) s.sessions r, h.single i);
}

pub IsSound-delete_session : {s : Server} (id : String) → IsSound s → IsSound (delete_session id s)
unfolding delete_session
IsSound-delete_session {s} id h = record {
  unique = λ i. omega (arith, h.unique i, count-filter_le (has_id i) _ s.sessions);
  single = λ i. omega (arith, h.single i, count-filter_le (deploying_in i) _ s.sessions);
}

pub IsSound-delete_environment :
    {s : Server} (id : String) → IsSound s → IsSound (delete_environment id s)
unfolding delete_environment
IsSound-delete_environment {s} id h = record {
  unique = λ i. omega (arith, h.unique i, count-filter_le (has_id i) _ s.sessions);
  single = λ i. omega (arith, h.single i, count-filter_le (deploying_in i) _ s.sessions);
}

-- A change of the session `id` that keeps its id and does not make it deploying.
pub IsSound-update :
    {s : Server} (id : String) (f : Session → Session)
    → IsSound s
    → ((r : Session) → (f r).id ≡ r.id)
    → ((r : Session) (i : String) → deploying_in i (f r) ≡ true → deploying_in i r ≡ true)
    → IsSound (update_session id f s)
unfolding update_session
IsSound-update {s} id f h same_id idle = record {
  unique = λ i. omega (
    arith,
    h.unique i,
    count-update_where_le (has_id i) (has_id id) f s.sessions
        (All-of (λ r _ e. rw same_id at e) s.sessions),
  );
  single = λ i. omega (
    arith,
    h.single i,
    count-update_where_le (deploying_in i) (has_id id) f s.sessions
        (All-of (λ r _ e. idle r i e) s.sessions),
  );
}

-- A session starts to deploy in an environment where none does.
pub IsSound-start :
    {s : Server} (session : Session) (f : Session → Session)
    → IsSound s
    → get_session session.id s ≡ some session
    → any_deploying session.environment_id s ≡ false
    → ((r : Session) → ((f r).id ≡ r.id) × ((f r).environment_id ≡ r.environment_id))
    → IsSound (update_session session.id f s)
unfolding update_session get_session any_deploying
IsSound-start {s} session f h there idle keeps = record {
  unique = λ i. omega (
    arith,
    h.unique i,
    count-update_where_le (has_id i) (has_id session.id) f s.sessions
        (All-of (λ r _ e. rw (keeps r).0 at e) s.sessions),
  );
  single = λ i. elim (text_cases session.environment_id i) [
    | inl (e, same) ↦
        subst (λ j. count (deploying_in j) (update_where (has_id session.id) f s.sessions) ≤ 1) same
          (omega (
            arith,
            h.unique session.id,
            count_none (deploying_in session.environment_id) s.sessions idle,
            count-update_where_add (deploying_in session.environment_id) (has_id session.id) f
                s.sessions,
          ))
    | inr (e, other) ↦ omega (
      arith,
      h.single i,
      count-update_where_le (deploying_in i) (has_id session.id) f s.sessions (
          All-map (elsewhere i e) s.sessions
            (find_unique (has_id session.id) s.sessions session there (h.unique session.id))),
    )
  ];
}
  where
    elsewhere :
        (i : String)
        → (session.environment_id == i) ≡ false
        → (r : Session) → (has_id session.id r ≡ true → r ≡ session)
        → has_id session.id r ≡ true
        → deploying_in i (f r) ≡ true
        → deploying_in i r ≡ true
    elsewhere i e r only q d =
        absurd (ground (arith, (keeps r).1, ap (λ (t : Session). t.environment_id) (only q)))

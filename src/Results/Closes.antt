-- ===== src/Results/Closes.antt =====
-- A deployment's result is handled to its end, and closes the session.
use murano_temp.Base.{
  Bool, Option, Option-cases, String, ap, false, filter, inl, inr, refl, some, update_where, ℕ,
  ◌&&◌, ◌==◌, ◌||◌, ◌∙◌, ◌≡◌,
}
use murano_temp.Base.Num.{ltb}
use murano_temp.Base.Result.{ok}
use murano_temp.Json.{
  Fields, Value, boolean, del_key, dict, end, get_default, int, list, lookup, nil, null,
  pop_default, set_key, store_item, str, subscript,
}
use murano_temp.Results.{
  apply_result, close_deployment, close_session, closed_state, count_level, get_last_deployment,
  is_error, process_result, save_and_close, save_result,
}
use murano_temp.Results.Model.{all_deleted, has_failed, result_model}
use murano_temp.Server.{
  Environment, Server, Session, SessionState, Task, Work, deployment, same_state,
}
use murano_temp.Server.Exec.{Exec, continue, gets, lift, modify, ◌>>=◌}
use murano_temp.Server.Sql.{Sql}
use murano_temp.Server.Tables.{
  add_status, get_environment, of_environment, update_environment, update_session, update_task_row,
}

bind_ok :
    {A B : Type 0} (m : Exec A) (k : A → Exec B) (s s' : Server) (a : A)
    → m s ≡ (ok a, s')
    → (m >>= k) s ≡ k a s'
unfolding ◌>>=◌
bind_ok m k s s' a e = ap (λ o. continue o.0 k o.1) e

-- The first session that is deploying, as the query gives it.
abbrev pub deploying_session : Sql → String → Server → Option Session
deploying_session sql environment_id s = sql.first (
    filter (λ r. of_environment environment_id r && same_state SessionState.deploying r.state)
      s.sessions)

abbrev pub closed : ℕ → Bool → Session → Session
closed now has_error r = record r { state = closed_state false has_error; updated = now }

module _ (sql : Sql) (now : ℕ) (environment_id : String) (s : Server) where
  close_deployment-ok :
      (action_result : Value) (work : Work) (task : Task)
      → get_last_deployment sql environment_id s ≡ some task
      → (s' : Server) × (close_deployment sql now environment_id action_result work s
          ≡ (ok (count_level is_error task.id s), s'))
        × (s'.sessions ≡ s.sessions)
        × (s'.environments ≡ s.environments)
  unfolding close_deployment ◌>>=◌ add_status update_task_row
  close_deployment-ok action_result work task e = (
    (close_deployment sql now environment_id action_result work s).1,
    rw e refl,
    rw e refl,
    rw e refl,
  )

  close_session-ok :
      (num_errors : ℕ) (result : Value) (raised : Bool) (row : Session)
      → has_failed num_errors result ≡ ok raised
      → deploying_session sql environment_id s ≡ some row
      → close_session sql now environment_id false num_errors result s
        ≡ (ok tt, update_session row.id (closed now raised) s)
  unfolding close_session ◌>>=◌
  close_session-ok num_errors result raised row e f = rw (f, e) refl

module _ (sql : Sql) (now : ℕ) (environment_id : String) (s : Server) (model fs : Fields)
    (objects : lookup "Objects" model ≡ some (dict fs)) where
  read_objects : subscript (dict model) "Objects" ≡ ok (dict fs)
  unfolding subscript
  read_objects = rw objects refl

  abbrev with_applications : Value → Value
  with_applications v =
      dict (set_key "Objects" (dict (set_key "services" v (del_key "applications" fs))) model)

  described : (v : Value) × (result_model (dict model) ≡ ok v)
  unfolding result_model subscript pop_default store_item
  described = elim (Option-cases (lookup "applications" fs)) [
    | inl e ↦ (with_applications (list nil), rw (objects, e) refl)
    | inr (v, e) ↦ (with_applications v, rw (objects, e) refl)
  ]

  not_deleted : all_deleted (dict model) ≡ ok false
  unfolding all_deleted
  not_deleted = rw read_objects refl

  -- The statements from `environment.description = model` on.
  save_and_close-ok :
      (result action_result : Value) (raised : Bool) (task : Task) (row : Session)
      → ((n : ℕ) → has_failed n result ≡ ok (ltb 0 n || raised))
      → get_last_deployment sql environment_id s ≡ some task
      → deploying_session sql environment_id s ≡ some row
      → (s' : Server) × (save_and_close sql now result environment_id (dict model) action_result s
          ≡ (ok tt, s'))
        × (s'.sessions
            ≡ (update_session row.id
                (closed now (ltb 0 (count_level is_error task.id s) || raised))
                s).sessions)
  unfolding save_and_close save_result modify update_environment get_last_deployment update_session
      count_level lift
  save_and_close-ok result action_result raised task row fails last found =
      let (v, e) = described in
      let s₁ = (save_result environment_id v s).1 in
      let errors = count_level is_error task.id s in
      let (s₂, e₂, same, _) =
        close_deployment-ok sql now environment_id s₁ action_result deployment task last in
      let row_is : deploying_session sql environment_id s₂ ≡ some row =
        ap
          (λ l. sql.first (
            filter
              (λ r. of_environment environment_id r && same_state SessionState.deploying r.state)
              l))
          same
        ∙ found in
      let e₃ =
        close_session-ok sql now environment_id s₂ errors result (ltb 0 errors || raised) row
          (fails errors) row_is in
      (
        update_session row.id (closed now (ltb 0 errors || raised)) s₂,
        bind_ok _ _ s s v (ap (λ r. (r, s)) e)
            ∙ bind_ok _ _ s s (dict fs) (ap (λ r. (r, s)) read_objects)
            ∙ bind_ok _ _ s s₁ tt refl
            ∙ bind_ok _ _ s₁ s₂ errors e₂
            ∙ e₃,
        ap (update_where (λ r. r.id == row.id) (closed now (ltb 0 errors || raised))) same,
      )

read_default : (v a d : Value) (k : String) → subscript v k ≡ ok a → get_default v k d ≡ ok a
unfolding subscript get_default
read_default (dict fs) a d k e = elim (Option-cases (lookup k fs)) [
  | inl n ↦ let e' = rw n at e in cc
  | inr (b, f) ↦ let e' = rw f at e in rw f e'
]
read_default null a d k e = cc
read_default (boolean b) a d k e = cc
read_default (int n) a d k e = cc
read_default (str x) a d k e = cc
read_default (list xs) a d k e = cc

-- Where the environment, a task of it and a session that is deploying are there, and the result has
-- an action and a model with objects: the result is handled without an exception, and the first such
-- session, and it alone, is closed, as failed if errors were counted or the action is one that raised,
-- and else as deployed.
pub process_result-closes :
    (sql : Sql) (now : ℕ) (environment_id : String) (s : Server) (result action_result : Value)
    (model fs : Fields) (raised : Bool) (e : Environment) (task : Task) (row : Session)
    → subscript result "model" ≡ ok (dict model)
    → lookup "Objects" model ≡ some (dict fs)
    → subscript result "action" ≡ ok action_result
    → ((n : ℕ) → has_failed n result ≡ ok (ltb 0 n || raised))
    → get_environment environment_id s ≡ some e
    → get_last_deployment sql environment_id s ≡ some task
    → deploying_session sql environment_id s ≡ some row
    → (s' : Server) × (process_result sql now result environment_id s ≡ (ok tt, s'))
      × (s'.sessions
          ≡ (update_session row.id
              (closed now (ltb 0 (count_level is_error task.id s) || raised))
              s).sessions)
unfolding process_result apply_result gets lift
process_result-closes sql now environment_id s result action_result model fs raised e task row read
      objects acted fails there last found =
    let (s', run, same) =
      save_and_close-ok sql now environment_id s model fs objects result action_result raised task
        row fails last found in
    (
      s',
      bind_ok _ _ s s (dict model) (ap (λ r. (r, s)) read)
          ∙ bind_ok _ _ s s action_result
              (ap (λ r. (r, s)) (read_default result action_result (dict end) "action" acted))
          ∙ bind_ok _ _ s s (get_environment environment_id s) refl
          ∙ rw there (
              bind_ok _ _ s s false
                (ap (λ r. (r, s)) (not_deleted sql now environment_id s model fs objects)))
          ∙ run,
      same,
    )

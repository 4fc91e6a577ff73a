-- ===== src/Reports/Counted.antt =====
-- The reports of a run count when its result is handled.
use murano_temp.Base.{
  count-append, All, List, String, [], ap, arith, count, eq_iff, eq_refl, filter, if◌then◌else◌,
  refl, some, sym, true, ℕ, ◌&&◌, ◌+◌, ◌==◌, ◌∙◌, ◌∷◌, ◌≡◌,
}
use murano_temp.Base.Result.{>>=-eq-ok, ok, ok-injective}
use murano_temp.Reports.{Report, report_all, report_notification}
use murano_temp.Results.{count_level, get_last_deployment, is_error, of_task}
use murano_temp.Server.{Server, Task}
use murano_temp.Server.Sql.{Sql}
use murano_temp.Server.Tables.{add_status}
use mathlib.Core.Path.{subst}

-- The count of errors among reports for an environment.
abbrev pub errors_in : String → List Report → ℕ
errors_in environment_id rs = count (λ r. r.environment_id == environment_id && is_error r.level) rs

module _ (sql : Sql) (environment_id : String) where
  one_report :
      (r : Report) (s s' : Server) (task : Task)
      → (r.environment_id == environment_id) ≡ true
      → get_last_deployment sql environment_id s ≡ some task
      → report_notification sql r s ≡ ok s'
      → (s'.tasks ≡ s.tasks)
        × (s'.sessions ≡ s.sessions)
        × (count_level is_error task.id s'
            ≡ count_level is_error task.id s + (if is_error r.level then 1 else 0))
  unfolding report_notification add_status count_level count
  one_report r s s' task mine last e =
      let same : r.environment_id ≡ environment_id =
        (eq_iff r.environment_id environment_id).0 mine in
      let last' : get_last_deployment sql r.environment_id s ≡ some task =
        subst (λ i. get_last_deployment sql i s ≡ some task) (sym same) last in
      let e' = rw last' at e in
      rw (← ok-injective e') (
        refl,
        refl,
        count-append (λ st. st.task_id == task.id && is_error st.level) s.statuses _
            ∙ ap (λ n. count_level is_error task.id s + n) (rw (eq_refl task.id) (omega arith)),
      )

  -- Reports for an environment that are all taken: each error among them is counted for the last
  -- task, and no session and no task changes.
  pub report_all-counted :
      (rs : List Report) (s s' : Server) (task : Task)
      → All (λ r. (r.environment_id == environment_id) ≡ true) rs
      → get_last_deployment sql environment_id s ≡ some task
      → report_all sql rs s ≡ ok s'
      → (s'.tasks ≡ s.tasks)
        × (s'.sessions ≡ s.sessions)
        × (count_level is_error task.id s'
            ≡ count_level is_error task.id s + errors_in environment_id rs)
  unfolding report_all count get_last_deployment
  report_all-counted [] s s' task mine last e = rw (← ok-injective e) (refl, refl, omega arith)
  report_all-counted (r ∷ rs) s s' task (first, mine) last e =
      >>=-eq-ok (report_notification sql r s) _ e λ t run e₁.
        let (tasks, sessions, one) = one_report r s t task first last run in
        let last' : get_last_deployment sql environment_id t ≡ some task =
          ap (λ l. sql.latest (filter (of_task environment_id) l)) tasks ∙ last in
        let (tasks', sessions', more) = report_all-counted rs t s' task mine last' e₁ in
        (tasks' ∙ tasks, sessions' ∙ sessions, more ∙ rw first (omega (arith, one)))

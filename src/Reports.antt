-- ===== src/Reports.antt =====
-- `StatusReporter` of murano/engine/system/status_reporter.py, and the endpoint
-- `report_notification` of murano/common/server.py that takes what it sends. The times, the
-- details and the entity that a status names are left out.
pub mod Counted
use murano_temp.Base.{List, String, [], ◌∷◌}
use murano_temp.Base.Result.{Result, attribute_error, from_option, ok, ◌>>=◌}
use murano_temp.Results.{get_last_deployment}
use murano_temp.Server.{Level, Server, error, info, report}
use murano_temp.Server.Sql.{Sql}
use murano_temp.Server.Tables.{add_status}

pub record Report : Type 0 where
  pub environment_id : String
  pub text : String
  pub level : Level

-- `_report`, by a reporter of an environment
unfoldable pub make_report : String → String → Level → Report
make_report environment_id msg level = record {
  environment_id = environment_id;
  text = msg;
  level = level;
}

unfoldable pub report_info : String → String → Report
unfolding make_report
report_info environment_id msg = make_report environment_id msg info

unfoldable pub report_error : String → String → Report
unfolding make_report
report_error environment_id msg = make_report environment_id msg error

-- Where the environment has no task, `id` is an attribute of `None`.
unfoldable pub report_notification : Sql → Report → Server → Result Server
report_notification sql r s = do
  running_deployment ← from_option (get_last_deployment sql r.environment_id s) attribute_error
  ok (
      add_status (record { task_id = running_deployment.id; text = report r.text; level = r.level })
        s)

-- The reports of a run, one after the other.
unfoldable pub report_all : Sql → List Report → Server → Result Server
unfolding report_notification
report_all sql [] s = ok s
report_all sql (r ∷ rs) s = do s' ← report_notification sql r s; report_all sql rs s'

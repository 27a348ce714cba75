-- ===== src/Mysql/Models/Columns.antt =====
-- The columns of each table, by the struct fields of data_model.go, and what an assignment of an
-- update does to a row. SQL adds exactly or fails, so `plus` is the sum in ℤ.
use easytask.Base.{Bool, true, false, some, ◌+ℤ◌}
use easytask.Mysql.Column.{Column, Value, int, uint, text, bool, plus, req, resp, error}
use easytask.Mysql.Models.{
  BaseModel, TaskModel, TaskCallbackSrvModel, TaskCallbackSrvRouteModel, TaskLogModel,
}

-- How gorm reads a struct that embeds BaseModel.
pub record Model (M : Type 0) : Type 0 where
  pub base : M → BaseModel
  pub with_base : M → BaseModel → M
  pub has_column : Column → Bool
  pub set_column : Column → Value → M → M

abbrev pub base_has : Column → Bool
base_has Column.id = true
base_has Column.created_at = true
base_has Column.updated_at = true
base_has Column.deleted_at = true
base_has _ = false

unfoldable pub task_has : Column → Bool
task_has Column.name = true
task_has Column.arg = true
task_has Column.last_run_at = true
task_has Column.plan_sched_next_at = true
task_has Column.time_cron_expr = true
task_has Column.time_interval_sec = true
task_has Column.sched_mode = true
task_has Column.callback_srv_id = true
task_has Column.run_times = true
task_has Column.allow_max_run_times = true
task_has Column.max_run_time_sec = true
task_has Column.callback_path = true
task_has Column.biz_id = true
task_has c = base_has c

unfoldable pub set_task : Column → Value → TaskModel → TaskModel
unfolding ◌+ℤ◌
set_task Column.deleted_at (uint n) m = record m { base = record m.base { deleted_at = n } }
set_task Column.arg (text v) m = record m { arg = v }
set_task Column.last_run_at (int v) m = record m { last_run_at = v }
set_task Column.plan_sched_next_at (int v) m = record m { plan_sched_next_at = v }
set_task Column.time_cron_expr (text v) m = record m { time_cron_expr = v }
set_task Column.time_interval_sec (int v) m = record m { time_interval_sec = v }
set_task Column.sched_mode (int v) m = record m { sched_mode = v }
set_task Column.callback_srv_id (uint v) m = record m { callback_srv_id = v }
set_task Column.run_times (plus Column.run_times n) m = record m { run_times = m.run_times +ℤ n }
set_task Column.allow_max_run_times (int v) m = record m { allow_max_run_times = v }
set_task Column.allow_max_run_times (plus Column.run_times n) m = record m {
  allow_max_run_times = m.run_times +ℤ n;
}
set_task Column.max_run_time_sec (int v) m = record m { max_run_time_sec = v }
set_task Column.callback_path (text v) m = record m { callback_path = v }
set_task _ _ m = m

unfoldable pub srv_has : Column → Bool
srv_has Column.name = true
srv_has Column.checked_health_at = true
srv_has Column.has_enable_health_check = true
srv_has c = base_has c

unfoldable pub set_srv : Column → Value → TaskCallbackSrvModel → TaskCallbackSrvModel
set_srv Column.deleted_at (uint n) m = record m { base = record m.base { deleted_at = n } }
set_srv Column.checked_health_at (int v) m = record m { checked_health_at = v }
set_srv Column.has_enable_health_check (bool v) m = record m { has_enable_health_check = v }
set_srv _ _ m = m

unfoldable pub route_has : Column → Bool
route_has Column.srv_schema = true
route_has Column.host = true
route_has Column.port = true
route_has Column.srv_id = true
route_has Column.callback_timeout_sec = true
route_has Column.checked_health_at = true
route_has Column.enable_health_check = true
route_has c = base_has c

unfoldable pub set_route : Column → Value → TaskCallbackSrvRouteModel → TaskCallbackSrvRouteModel
set_route Column.deleted_at (uint n) m = record m { base = record m.base { deleted_at = n } }
set_route Column.callback_timeout_sec (int v) m = record m { callback_timeout_sec = v }
set_route Column.checked_health_at (int v) m = record m { checked_health_at = v }
set_route Column.enable_health_check (bool v) m = record m { enable_health_check = v }
set_route _ _ m = m

unfoldable pub log_has : Column → Bool
log_has Column.task_id = true
log_has Column.started_at = true
log_has Column.ended_at = true
log_has Column.task_status = true
log_has Column.is_run_in_async = true
log_has Column.resp_extra = true
log_has Column.run_times = true
log_has Column.srv_id = true
log_has Column.req_snapshot = true
log_has Column.resp_snapshot = true
log_has Column.callback_err = true
log_has c = base_has c

unfoldable pub set_log : Column → Value → TaskLogModel → TaskLogModel
set_log Column.ended_at (int v) m = record m { ended_at = v }
set_log Column.task_status (int v) m = record m { task_status = v }
set_log Column.is_run_in_async (bool v) m = record m { is_run_in_async = v }
set_log Column.resp_extra (text v) m = record m { resp_extra = v }
set_log Column.req_snapshot (req v) m = record m { req_snapshot = some v }
set_log Column.resp_snapshot (resp v) m = record m { resp_snapshot = some v }
set_log Column.callback_err (error v) m = record m { callback_err = some v }
set_log _ _ m = m

abbrev pub task_model : Model TaskModel
task_model = record {
  base = λ m. m.base;
  with_base = λ m b. record m { base = b };
  has_column = task_has;
  set_column = set_task;
}

abbrev pub srv_model : Model TaskCallbackSrvModel
srv_model = record {
  base = λ m. m.base;
  with_base = λ m b. record m { base = b };
  has_column = srv_has;
  set_column = set_srv;
}

abbrev pub route_model : Model TaskCallbackSrvRouteModel
route_model = record {
  base = λ m. m.base;
  with_base = λ m b. record m { base = b };
  has_column = route_has;
  set_column = set_route;
}

abbrev pub log_model : Model TaskLogModel
log_model = record {
  base = λ m. m.base;
  with_base = λ m b. record m { base = b };
  has_column = log_has;
  set_column = set_log;
}

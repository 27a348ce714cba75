-- ===== src/Mysql/Column.antt =====
-- internal/task/impl/repo/mysql/db_field.go: the columns of the tables, and the values that the
-- repositories write into them.
use easytask.Base.{ℕ, Bool, ℤ, Text, Error}

pub data Column : Type 0 where
  id created_at updated_at deleted_at name arg last_run_at plan_sched_next_at : Column
  time_cron_expr time_interval_sec sched_mode callback_srv_id run_times is_run_in_async : Column
  last_failed_at last_success_at allow_max_run_times max_run_time_sec callback_path : Column
  biz_id checked_health_at has_enable_health_check srv_schema host port srv_id : Column
  callback_timeout_sec enable_health_check task_id started_at ended_at task_status : Column
  resp_extra req_snapshot resp_snapshot callback_err : Column

-- data_model.go
pub record TaskLogCallbackReqSnapshot : Type 0 where
  pub srv_schema : Text
  pub host : Text
  pub port : ℤ
  pub timeout_sec : ℤ
  pub callback_at : ℤ
  pub callback_path : Text

pub record TaskLogCallbackRespSnapshot : Type 0 where
  pub resp_raw : Text

pub data Value : Type 0 where
  int : ℤ → Value
  uint : ℕ → Value
  text : Text → Value
  bool : Bool → Value
  -- gorm.Expr(column + " + ?", n)
  plus : Column → ℤ → Value
  req : TaskLogCallbackReqSnapshot → Value
  resp : TaskLogCallbackRespSnapshot → Value
  error : Error → Value

-- ===== src/Mysql/Models.antt =====
-- internal/task/impl/repo/mysql/data_model.go: the rows of the four tables, their columns, and the
-- conversions between rows and entities.
pub mod Columns
pub mod Modes
mod Entity
mod Snapshots
use easytask.Base.{
  ℕ, Bool, Option, List, ℤ, pos, Text, codes, Error, new, Result, ok, err, if◌then◌else◌, ◌==ℤ◌,
}
use easytask.Task.{
  SchedMode, mode_nil, time_cron, time_spec, time_interval, TaskCallbackSrv, TaskCallbackSrvRoute,
  new_task_callback_srv, new_task_callback_srv_route,
}
use easytask.Mysql.Ids.{to_callback_srv_route_entity_id, to_task_callback_srv_entity_id}
use easytask.Mysql.Column.{TaskLogCallbackReqSnapshot, TaskLogCallbackRespSnapshot}

pub record BaseModel : Type 0 where
  pub id : ℕ
  pub created_at : ℤ
  pub updated_at : ℤ
  -- soft_delete.DeletedAt: the time of the deletion, 0 for a live row
  pub deleted_at : ℕ

pub record TaskModel : Type 0 where
  pub base : BaseModel
  pub open base use *
  pub name : Text
  pub arg : Text
  pub last_run_at : ℤ
  pub plan_sched_next_at : ℤ
  pub time_cron_expr : Text
  pub time_interval_sec : ℤ
  pub sched_mode : ℤ
  pub callback_srv_id : ℕ
  pub run_times : ℤ
  pub allow_max_run_times : ℤ
  pub max_run_time_sec : ℤ
  pub callback_path : Text
  pub biz_id : Text

pub record TaskCallbackSrvModel : Type 0 where
  pub base : BaseModel
  pub open base use *
  pub name : Text
  pub checked_health_at : ℤ
  pub has_enable_health_check : Bool

pub record TaskCallbackSrvRouteModel : Type 0 where
  pub base : BaseModel
  pub open base use *
  pub srv_schema : Text
  pub host : Text
  pub port : ℤ
  pub srv_id : ℕ
  pub callback_timeout_sec : ℤ
  pub checked_health_at : ℤ
  pub enable_health_check : Bool

pub record TaskLogModel : Type 0 where
  pub base : BaseModel
  pub open base use *
  pub task_id : ℕ
  pub started_at : ℤ
  pub ended_at : ℤ
  pub task_status : ℤ
  pub is_run_in_async : Bool
  pub resp_extra : Text
  pub run_times : ℤ
  pub srv_id : ℕ
  pub req_snapshot : Option TaskLogCallbackReqSnapshot
  pub resp_snapshot : Option TaskLogCallbackRespSnapshot
  pub callback_err : Option Error

-- The schedule modes of the table; the entity's constants are in another order.
abbrev pub sched_mode_nil : ℤ
sched_mode_nil = pos 0

abbrev pub sched_mode_time_spec : ℤ
sched_mode_time_spec = pos 1

abbrev pub sched_mode_time_cron : ℤ
sched_mode_time_cron = pos 2

abbrev pub sched_mode_time_interval : ℤ
sched_mode_time_interval = pos 3

abbrev pub status_running : ℤ
status_running = pos 1

abbrev pub status_success : ℤ
status_success = pos 2

abbrev pub status_failed : ℤ
status_failed = pos 3

unfoldable pub to_task_model_sched_mode : SchedMode → Result ℤ
to_task_model_sched_mode time_cron = ok sched_mode_time_cron
to_task_model_sched_mode time_spec = ok sched_mode_time_spec
to_task_model_sched_mode time_interval = ok sched_mode_time_interval
to_task_model_sched_mode mode_nil = err (new (codes "invalid schedule mode"))

unfoldable pub to_task_entity_sched_mode : ℤ → Result SchedMode
to_task_entity_sched_mode m =
    if m ==ℤ sched_mode_time_cron
    then ok time_cron
    else if m ==ℤ sched_mode_time_spec
    then ok time_spec
    else if m ==ℤ sched_mode_time_interval
    then ok time_interval
    else err (new (codes "invalid schedule mode"))

-- `toEntity` of a route and of a service.
unfoldable pub route_to_entity : TaskCallbackSrvRouteModel → TaskCallbackSrvRoute
unfolding to_callback_srv_route_entity_id new_task_callback_srv_route
route_to_entity m =
    new_task_callback_srv_route (to_callback_srv_route_entity_id m.id) m.srv_schema m.host m.port
      m.callback_timeout_sec m.enable_health_check

unfoldable pub srv_to_entity : TaskCallbackSrvModel → List TaskCallbackSrvRoute → TaskCallbackSrv
unfolding to_task_callback_srv_entity_id new_task_callback_srv
srv_to_entity m routes =
    new_task_callback_srv (to_task_callback_srv_entity_id m.id) m.name routes
      m.has_enable_health_check

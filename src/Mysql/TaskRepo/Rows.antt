-- ===== src/Mysql/TaskRepo/Rows.antt =====
-- Rows to entities in internal/task/impl/repo/mysql/task_repo.go.
use easytask.Base.{some, [], if◌then◌else◌, ℤ, pos, ◌==ℤ◌}
use easytask.Task.{TaskCallbackSrv, SchedMode, NewTaskReq}
use easytask.Mysql.Ids.{to_task_entity_id}
use easytask.Mysql.Models.{TaskModel, sched_mode_time_spec}

-- The plan time of a row that runs at a given time, the zero value of any other.
abbrev pub time_spec_at_of : TaskModel → ℤ
time_spec_at_of m = if m.sched_mode ==ℤ sched_mode_time_spec then m.plan_sched_next_at else pos 0

-- The request of `TimeoutTasks`, which leaves out MaxRunTimeSec.
abbrev pub timeout_req : TaskCallbackSrv → SchedMode → TaskModel → NewTaskReq
timeout_req srv mode m = record {
  id = to_task_entity_id m.id;
  callback_srv = some srv;
  callback_path = m.callback_path;
  name = m.name;
  arg = m.arg;
  run_times = m.run_times;
  last_run_at = m.last_run_at;
  allow_max_run_times = m.allow_max_run_times;
  max_run_time_sec = pos 0;
  sched_mode = mode;
  time_cron_expr = m.time_cron_expr;
  time_interval_sec = m.time_interval_sec;
  time_spec_at = time_spec_at_of m;
  biz_id = m.biz_id;
}

-- The request of `GetTaskById`, which leaves out MaxRunTimeSec and BizId.
abbrev pub by_id_req : TaskCallbackSrv → SchedMode → TaskModel → NewTaskReq
by_id_req srv mode m = record (timeout_req srv mode m) { biz_id = [] }

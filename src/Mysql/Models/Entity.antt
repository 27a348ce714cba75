-- ===== src/Mysql/Models/Entity.antt =====
-- `toEntity` of a task row in internal/task/impl/repo/mysql/data_model.go, which nothing calls, and
-- the names of the tables.
use easytask.Base.{
  [], ◌≡◌, ap, inl, inr, Option, Option-cases, Text, codes, pos, Error, Result, ok, err,
  Result-cases, sym, ok-injective,
}
use easytask.Task.{Task, TaskCallbackSrv, SchedMode, NewTaskReq, new_task}
use easytask.Mysql.Ids.{to_task_entity_id}
use easytask.Mysql.Models.{TaskModel, to_task_entity_sched_mode}

abbrev task_table_name : Text
task_table_name = codes "task"

abbrev task_callback_srv_table_name : Text
task_callback_srv_table_name = codes "task_callback_srv"

abbrev task_callback_srv_route_table_name : Text
task_callback_srv_route_table_name = codes "task_callback_srv_route"

abbrev task_log_table_name : Text
task_log_table_name = codes "task_log"

-- The request leaves out CallbackPath and TimeSpecAt.
abbrev entity_req : Option TaskCallbackSrv → SchedMode → TaskModel → NewTaskReq
entity_req srv mode t = record {
  id = to_task_entity_id t.id;
  callback_srv = srv;
  callback_path = [];
  name = t.name;
  arg = t.arg;
  run_times = t.run_times;
  last_run_at = t.last_run_at;
  allow_max_run_times = t.allow_max_run_times;
  max_run_time_sec = t.max_run_time_sec;
  sched_mode = mode;
  time_cron_expr = t.time_cron_expr;
  time_interval_sec = t.time_interval_sec;
  time_spec_at = pos 0;
  biz_id = t.biz_id;
}

to_entity : (NewTaskReq → Option Error) → Option TaskCallbackSrv → TaskModel → Result Task
unfolding to_task_entity_sched_mode new_task
to_entity check srv t = elim (to_task_entity_sched_mode t.sched_mode) [
  | err e ↦ err e
  | ok mode ↦ new_task check (entity_req srv mode t)
]

-- The entity of a row has an empty path and no time to run at, whatever the row has.
to_entity-lossy :
    (check : NewTaskReq → Option Error) (srv : Option TaskCallbackSrv) (t : TaskModel) (e : Task)
    → to_entity check srv t ≡ ok e
    → (e.callback_path ≡ []) × (e.time_spec_at ≡ pos 0)
unfolding to_entity new_task
to_entity-lossy check srv t e h = elim (Result-cases (to_task_entity_sched_mode t.sched_mode)) [
  | inr (x, bad) ↦ cc (rw (to_entity, bad) at h)
  | inl (mode, good) ↦ elim (Option-cases (check (entity_req srv mode t))) [
    | inr (x, refused) ↦ cc (rw (to_entity, good, new_task, refused) at h)
    | inl fine ↦
        let made : _ ≡ e = ok-injective (rw (to_entity, good, new_task, fine) at h) in
        (sym (ap (λ x. x.callback_path) made), sym (ap (λ x. x.time_spec_at) made))
  ]
]

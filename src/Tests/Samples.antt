-- ===== src/Tests/Samples.antt =====
-- The data that the tests share: libraries, a service, a row of each table, and a database.
use easytask.Base.{
  ◌≡◌, ◌≢◌, ◌↔◌, Bool, true, false, [], ◌∷◌, Option, none, some, pos, ◌+ℤ◌, Text, codes, is_empty,
  if◌then◌else◌, ◌&&◌, not, Error, foreign, ok, arith,
}
use easytask.Outside.{Outside, IsValidator}
use easytask.Task.{
  Task, TaskCallbackSrv, TaskCallbackSrvRoute, SchedMode, mode_nil, time_cron, time_spec,
  time_interval, NewTaskReq,
}
use easytask.Mysql.Models.{TaskModel, TaskCallbackSrvModel, TaskCallbackSrvRouteModel}
use easytask.Mysql.Gorm.Memory.{Memory}

abbrev is_some {ℓ} : {A : Type ℓ} → Option A → Bool
is_some none = false
is_some (some _) = true

abbrev is_mode : SchedMode → Bool
is_mode mode_nil = false
is_mode _ = true

abbrev check : NewTaskReq → Option Error
check req =
    if is_some req.callback_srv && not (is_empty req.name) && is_mode req.sched_mode
    then none
    else some (foreign 1)

-- Every cron expression means "in a minute"; an error encodes to a fixed text.
abbrev pub outside : Outside
outside = record {
  cron_next = λ expr now. ok (now +ℤ pos 60);
  check_new_task_req = check;
  marshal_internal_err = λ e at. ok (codes "{}");
}

check_iff :
    (srv : Option TaskCallbackSrv) (name : Text) (mode : SchedMode)
    → ((is_some srv && not (is_empty name) && is_mode mode) ≡ true)
      ↔ ((srv ≢ none) × (name ≢ []) × (mode ≢ mode_nil))
check_iff none name mode = ground arith
check_iff (some s) [] mode = ground arith
check_iff (some s) (c ∷ n) mode_nil = ground arith
check_iff (some s) (c ∷ n) time_cron = ground arith
check_iff (some s) (c ∷ n) time_spec = ground arith
check_iff (some s) (c ∷ n) time_interval = ground arith

pub outside-IsValidator : IsValidator outside
outside-IsValidator = record {
  accepts = λ req. ground (arith, check_iff req.callback_srv req.name req.sched_mode);
}

abbrev pub route : TaskCallbackSrvRoute
route = record {
  id = codes "4";
  scheme = codes "http";
  host = codes "h";
  port = pos 80;
  callback_timeout_sec = pos 10;
  is_enable_health_check = true;
}

abbrev pub srv : TaskCallbackSrv
srv = record {
  id = codes "3";
  name = codes "mail";
  routes = route ∷ [];
  has_enable_health_check = true;
}

-- A task that runs every minute, as a worker read it.
abbrev pub task : Task
task = record {
  id = codes "7";
  callback_srv = some srv;
  callback_path = codes "/run";
  name = codes "n";
  arg = [];
  run_times = pos 2;
  last_run_at = pos 40;
  allow_max_run_times = pos 100;
  max_run_time_sec = pos 0;
  sched_mode = time_interval;
  time_cron_expr = [];
  time_interval_sec = pos 60;
  time_spec_at = pos 0;
  biz_id = codes "b";
}

-- The row behind it.
abbrev pub row : TaskModel
row = record {
  base = record { id = 7; created_at = pos 1; updated_at = pos 40; deleted_at = 0 };
  name = codes "n";
  arg = [];
  last_run_at = pos 40;
  plan_sched_next_at = pos 100;
  time_cron_expr = [];
  time_interval_sec = pos 60;
  sched_mode = pos 3;
  callback_srv_id = 3;
  run_times = pos 2;
  allow_max_run_times = pos 100;
  max_run_time_sec = pos 60;
  callback_path = codes "/run";
  biz_id = codes "b";
}

abbrev pub srv_row : TaskCallbackSrvModel
srv_row = record {
  base = record { id = 3; created_at = pos 1; updated_at = pos 1; deleted_at = 0 };
  name = codes "mail";
  checked_health_at = pos 0;
  has_enable_health_check = true;
}

abbrev pub route_row : TaskCallbackSrvRouteModel
route_row = record {
  base = record { id = 4; created_at = pos 1; updated_at = pos 1; deleted_at = 0 };
  srv_schema = codes "http";
  host = codes "h";
  port = pos 80;
  srv_id = 3;
  callback_timeout_sec = pos 10;
  checked_health_at = pos 0;
  enable_health_check = true;
}

abbrev pub start : Memory
start = record {
  tables = record { tasks = row ∷ []; logs = []; srvs = srv_row ∷ []; routes = route_row ∷ [] };
  clock = pos 200;
}

-- The same rows without the service.
abbrev pub unserved : Memory
unserved = record {
  tables = record { tasks = row ∷ []; logs = []; srvs = []; routes = [] };
  clock = pos 200;
}

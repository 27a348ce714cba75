-- ===== src/Task.antt =====
-- internal/task/task.go: tasks, callback services and their routes, responses, and the tests on a
-- task's status.
pub mod Schedule
pub mod Logs
pub mod Repo
use easytask.Base.{
  Bool, true, false, ◌&&◌, ◌||◌, not, List, [], ◌∷◌, Option, none, some, ℤ, pos, ◌+ℤ◌, wrap64, Text,
  codes, Error, new, Result, ok, err, if◌then◌else◌,
}

-- `Status` is a Go `int`; the program uses these constants only.
pub data Status : Type 0 where
  nil ready running success failed : Status

-- `SchedMode` likewise. In Go the first constant of both is the zero value.
pub data SchedMode : Type 0 where
  mode_nil time_cron time_spec time_interval : SchedMode

pub record TaskResp : Type 0 where
  pub task_id : Text
  pub is_run_in_async : Bool
  pub task_status : Status
  pub task_run_times : ℤ
  pub extra : Text

unfoldable pub new_task_resp : Text → Bool → Status → ℤ → Text → TaskResp
new_task_resp task_id is_run_in_async task_status task_run_times extra = record {
  task_id = task_id;
  is_run_in_async = is_run_in_async;
  task_status = task_status;
  task_run_times = task_run_times;
  extra = extra;
}

-- `encode` is `json.Marshal` of the detail, the error and the time of its occurrence.
unfoldable pub new_internal_err_task_resp :
    (Error → ℤ → Result Text) → Text → Error → ℤ → Result TaskResp
new_internal_err_task_resp encode task_id e occurred_at = elim (encode e occurred_at) [
  | err failure ↦ err failure
  | ok extra ↦ ok (record {
    task_id = task_id;
    is_run_in_async = false;
    task_status = failed;
    task_run_times = pos 0;
    extra = extra;
  })
]

pub record TaskCallbackSrvRoute : Type 0 where
  pub id : Text
  pub scheme : Text
  pub host : Text
  pub port : ℤ
  pub callback_timeout_sec : ℤ
  pub is_enable_health_check : Bool

unfoldable pub new_task_callback_srv_route :
    Text → Text → Text → ℤ → ℤ → Bool → TaskCallbackSrvRoute
new_task_callback_srv_route id schema host port callback_timeout_sec is_enable_health_check =
    record {
      id = id;
      scheme = schema;
      host = host;
      port = port;
      callback_timeout_sec = callback_timeout_sec;
      is_enable_health_check = is_enable_health_check;
    }

pub record TaskCallbackSrv : Type 0 where
  pub id : Text
  pub name : Text
  pub routes : List TaskCallbackSrvRoute
  pub has_enable_health_check : Bool

unfoldable pub new_task_callback_srv :
    Text → Text → List TaskCallbackSrvRoute → Bool → TaskCallbackSrv
new_task_callback_srv id name routes has_enable_health_check = record {
  id = id;
  name = name;
  routes = routes;
  has_enable_health_check = has_enable_health_check;
}

-- The loop of `HasEnableHealthCheckRoute`.
unfoldable pub some_route_checked : List TaskCallbackSrvRoute → Bool
some_route_checked [] = false
some_route_checked (route ∷ routes) =
    if route.is_enable_health_check then true else some_route_checked routes

unfoldable pub has_enable_health_check_route : TaskCallbackSrv → Bool
unfolding some_route_checked
has_enable_health_check_route s =
    if s.has_enable_health_check then true else some_route_checked s.routes

pub record Task : Type 0 where
  pub id : Text
  -- A pointer: `none` is nil.
  pub callback_srv : Option TaskCallbackSrv
  pub callback_path : Text
  pub name : Text
  pub arg : Text
  pub run_times : ℤ
  pub last_run_at : ℤ
  pub allow_max_run_times : ℤ
  pub max_run_time_sec : ℤ
  pub sched_mode : SchedMode
  pub time_cron_expr : Text
  pub time_interval_sec : ℤ
  pub time_spec_at : ℤ
  pub biz_id : Text

-- `NewTaskReq`, with the zero value of each field that a caller leaves out.
pub record NewTaskReq : Type 0 where
  pub id : Text
  pub callback_srv : Option TaskCallbackSrv
  pub callback_path : Text
  pub name : Text
  pub arg : Text
  pub run_times : ℤ
  pub last_run_at : ℤ
  pub allow_max_run_times : ℤ
  pub max_run_time_sec : ℤ
  pub sched_mode : SchedMode
  pub time_cron_expr : Text
  pub time_interval_sec : ℤ
  pub time_spec_at : ℤ
  pub biz_id : Text

-- `check` is the validator's reading of the struct tags: the error, if a required field is zero.
unfoldable pub new_task : (NewTaskReq → Option Error) → NewTaskReq → Result Task
new_task check req = elim (check req) [
  | some e ↦ err e
  | none ↦ ok (record {
    id = req.id;
    callback_srv = req.callback_srv;
    callback_path = req.callback_path;
    name = req.name;
    arg = req.arg;
    run_times = req.run_times;
    last_run_at = req.last_run_at;
    allow_max_run_times = req.allow_max_run_times;
    max_run_time_sec = req.max_run_time_sec;
    sched_mode = req.sched_mode;
    time_cron_expr = req.time_cron_expr;
    time_interval_sec = req.time_interval_sec;
    time_spec_at = req.time_spec_at;
    biz_id = req.biz_id;
  })
]

-- `t.runTimes++` on a 64-bit int.
unfoldable pub incr_run_times : Task → Task
unfolding ◌+ℤ◌ wrap64
incr_run_times t = record t { run_times = wrap64 (t.run_times +ℤ pos 1) }

abbrev pub is_task_ready : Status → Bool
is_task_ready ready = true
is_task_ready _ = false

abbrev pub is_task_running : Status → Bool
is_task_running running = true
is_task_running _ = false

abbrev pub is_task_success : Status → Bool
is_task_success success = true
is_task_success _ = false

abbrev pub is_task_failed : Status → Bool
is_task_failed failed = true
is_task_failed _ = false

-- internal/task/callback.go
pub record TaskCallbackSrvResp : Type 0 where
  pub is_run_in_async : Bool
  pub is_success : Bool
  pub extra : Text

pub record HeartBeatResp : Type 0 where
  pub no_reply_routes : List TaskCallbackSrvRoute
  pub reply_routes : List TaskCallbackSrvRoute

-- The status of a run by the callback's answer, as `run` and `CallbackSrv` both compute it.
unfoldable pub status_of_resp : Bool → Bool → Status
status_of_resp is_success is_run_in_async =
    if is_success then success else if is_run_in_async then running else failed

-- `run`, after the call of the callback service.
unfoldable pub run_resp : Task → Result TaskCallbackSrvResp → Result TaskResp
unfolding new_task_resp status_of_resp
run_resp t (err e) = err e
run_resp t (ok resp) = ok (
    new_task_resp t.id resp.is_run_in_async (status_of_resp resp.is_success resp.is_run_in_async)
      t.run_times resp.extra)

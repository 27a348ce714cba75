-- ===== src/Api/Service.antt =====
-- internal/apihandler/service/service.go, with the requests of dto.go.
pub mod Removal
use easytask.Base.{
  Bool, true, false, ◌&&◌, List, [], ◌∷◌, Option, none, some, if◌then◌else◌, ℤ, pos, ◌==ℤ◌, Text,
  text_eq, Io, ◌>>=◌, pure, lift,
}
use easytask.Outside.{Outside}
use easytask.Task.{
  SchedMode, success, failed, NewTaskReq, new_task, new_task_resp, TaskCallbackSrv,
  TaskCallbackSrvRoute, new_task_callback_srv, new_task_callback_srv_route,
  has_enable_health_check_route,
}
use easytask.Task.Repo.{TaskRepo, TaskCallbackSrvRepo}
use easytask.Registry.{discover, register, unregister}

pub record AddTaskReq : Type 0 where
  pub name : Text
  pub srv_name : Text
  pub callback_path : Text
  pub sched_mode : SchedMode
  pub time_cron : Text
  pub time_interval_sec : ℤ
  pub time_spec_at : ℤ
  pub arg : Text
  pub biz_id : Text

pub record StopTaskReq : Type 0 where
  pub task_id : Text

pub record ConfirmTaskReq : Type 0 where
  pub task_id : Text
  pub is_success : Bool
  pub extra : Text
  pub task_run_times : ℤ

pub record RegisterTaskCallbackSrvReq : Type 0 where
  pub name : Text
  pub schema : Text
  pub host : Text
  pub port : ℤ
  pub callback_timeout_sec : ℤ
  pub is_enable_health_check : Bool

pub record UnregisterTaskCallbackSrvReq : Type 0 where
  pub name : Text
  pub schema : Text
  pub host : Text
  pub port : ℤ

-- The request of `AddTask` for a new task.
abbrev pub new_task_req : TaskCallbackSrv → AddTaskReq → NewTaskReq
new_task_req srv r = record {
  id = [];
  callback_srv = some srv;
  callback_path = r.callback_path;
  name = r.name;
  arg = r.arg;
  run_times = pos 0;
  last_run_at = pos 0;
  allow_max_run_times = pos 0;
  max_run_time_sec = pos 0;
  sched_mode = r.sched_mode;
  time_cron_expr = r.time_cron;
  time_interval_sec = r.time_interval_sec;
  time_spec_at = r.time_spec_at;
  biz_id = r.biz_id;
}

-- The loop of `UnregisterTaskCallbackSrv` over the routes of the service.
unfoldable pub ready_del_routes :
    UnregisterTaskCallbackSrvReq → List TaskCallbackSrvRoute → List TaskCallbackSrvRoute
ready_del_routes r [] = []
ready_del_routes r (route ∷ routes) =
    let rest = ready_del_routes r routes in
    if text_eq route.host r.host && text_eq route.scheme r.schema && route.port ==ℤ r.port
    then route ∷ rest
    else rest

module _ {W : Type 0} (o : Outside) (task_repo : TaskRepo W)
    (srv_repo : TaskCallbackSrvRepo W) where
  -- The id of the task.
  unfoldable pub add_task : AddTaskReq → Io W Text
  unfolding discover new_task
  add_task r = do
    srv ← discover srv_repo r.srv_name
    one_task ← lift (new_task o.check_new_task_req (new_task_req srv r))
    task_repo.add_task one_task

  unfoldable pub stop_task : StopTaskReq → Io W (Unit {0})
  stop_task r = task_repo.del_task_by_id r.task_id

  unfoldable pub confirm_task : ConfirmTaskReq → Io W (Unit {0})
  unfolding new_task_resp
  confirm_task r = task_repo.confirm_task (
      new_task_resp r.task_id true (if r.is_success then success else failed) r.task_run_times
        r.extra)

  unfoldable pub register_task_callback_srv : RegisterTaskCallbackSrvReq → Io W (Unit {0})
  unfolding new_task_callback_srv_route new_task_callback_srv register
  register_task_callback_srv r =
      let route =
        new_task_callback_srv_route [] r.schema r.host r.port r.callback_timeout_sec
          r.is_enable_health_check in
      register srv_repo (new_task_callback_srv [] r.name (route ∷ []) r.is_enable_health_check)

  unfoldable pub unregister_task_callback_srv : UnregisterTaskCallbackSrvReq → Io W (Unit {0})
  unfolding discover ready_del_routes new_task_callback_srv has_enable_health_check_route unregister
  unregister_task_callback_srv r = do
    srv ← discover srv_repo r.name
    unregister srv_repo (
        new_task_callback_srv srv.id srv.name (ready_del_routes r srv.routes)
          (has_enable_health_check_route srv))

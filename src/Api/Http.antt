-- ===== src/Api/Http.antt =====
-- internal/apihandler/http.go, with the requests of pkg/rpc/proto/httpproto/api.go and the schedule
-- modes of pkg/rpc/proto/proto.go.
pub mod Checks
pub mod Outcomes
use easytask.Base.{
  ℕ, Bool, List, [], ◌∷◌, is_empty, Option, none, some, if◌then◌else◌, ℤ, pos, ◌==ℤ◌, Text, codes,
  trim_space, Error, Result, ok, err, Io, ◌>>=◌, lift,
}
use easytask.Errs.{new_biz_err_with_msg, err_code_args_invalid}
use easytask.Outside.{Outside}
use easytask.Task.{SchedMode, mode_nil, time_cron, time_spec, time_interval}
use easytask.Task.Repo.{TaskRepo, TaskCallbackSrvRepo}
use easytask.Api.Service.{
  AddTaskReq, StopTaskReq, ConfirmTaskReq, RegisterTaskCallbackSrvReq, UnregisterTaskCallbackSrvReq,
}
use easytask.Api.Service

abbrev pub sched_mode_time_cron : ℤ
sched_mode_time_cron = pos 1

abbrev pub sched_mode_time_spec : ℤ
sched_mode_time_spec = pos 2

abbrev pub sched_mode_time_interval : ℤ
sched_mode_time_interval = pos 3

-- `AddTaskReq` of the API: its schedule mode is any integer.
pub record AddTaskHttpReq : Type 0 where
  pub name : Text
  pub srv_name : Text
  pub callback_path : Text
  pub sched_mode : ℤ
  pub time_cron : Text
  pub time_interval_sec : ℤ
  pub time_spec_at : ℤ
  pub arg : Text
  pub biz_id : Text

abbrev invalid : Text → Result SchedMode
invalid msg = err (new_biz_err_with_msg err_code_args_invalid msg)

-- The `switch` on the schedule mode: an unknown one stays the zero value.
unfoldable pub checked_mode : AddTaskHttpReq → Result SchedMode
unfolding new_biz_err_with_msg trim_space
checked_mode r =
    if r.sched_mode ==ℤ sched_mode_time_cron
    then (if is_empty (trim_space r.time_cron)
        then invalid (codes "time cron is empty")
        else ok time_cron)
    else if r.sched_mode ==ℤ sched_mode_time_spec
    then (if r.time_spec_at ==ℤ pos 0 then invalid (codes "not specific time") else ok time_spec)
    else if r.sched_mode ==ℤ sched_mode_time_interval
    then (if r.time_interval_sec ==ℤ pos 0
        then invalid (codes "specific time interval is empty")
        else ok time_interval)
    else ok mode_nil

abbrev pub service_req : SchedMode → AddTaskHttpReq → AddTaskReq
service_req mode r = record {
  name = r.name;
  srv_name = r.srv_name;
  callback_path = r.callback_path;
  sched_mode = mode;
  time_cron = r.time_cron;
  time_interval_sec = r.time_interval_sec;
  time_spec_at = r.time_spec_at;
  arg = r.arg;
  biz_id = r.biz_id;
}

-- The other four handlers copy the fields of the request, which have the same names, and call the
-- service's method: the requests are the service's.
module _ {W : Type 0} (o : Outside) (task_repo : TaskRepo W)
    (srv_repo : TaskCallbackSrvRepo W) where
  unfoldable pub add_task : AddTaskHttpReq → Io W Text
  unfolding checked_mode Service.add_task
  add_task r = do
    mode ← lift (checked_mode r)
    Service.add_task o task_repo srv_repo (service_req mode r)

  unfoldable pub stop_task : StopTaskReq → Io W (Unit {0})
  unfolding Service.stop_task
  stop_task r = Service.stop_task o task_repo srv_repo r

  unfoldable pub confirm_task : ConfirmTaskReq → Io W (Unit {0})
  unfolding Service.confirm_task
  confirm_task r = Service.confirm_task o task_repo srv_repo r

  unfoldable pub register_task_callback_srv : RegisterTaskCallbackSrvReq → Io W (Unit {0})
  unfolding Service.register_task_callback_srv
  register_task_callback_srv r = Service.register_task_callback_srv o task_repo srv_repo r

  unfoldable pub unregister_task_callback_srv : UnregisterTaskCallbackSrvReq → Io W (Unit {0})
  unfolding Service.unregister_task_callback_srv
  unregister_task_callback_srv r = Service.unregister_task_callback_srv o task_repo srv_repo r

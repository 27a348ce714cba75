-- ===== src/Tests/Requests.antt =====
-- Requests to the API at concrete inputs.
use easytask.Base.{◌≡◌, ◌≢◌, ok, err, Error, codes, pos, [], true}
use easytask.Api.Http.{AddTaskHttpReq, add_task, confirm_task}
use easytask.Api.Http.Outcomes.{add_task-unknown_mode, confirm_task-err}
use easytask.Api.Service.{ConfirmTaskReq}
use easytask.Mysql.Gorm.Memory.{memory, memory-laws}
use easytask.Mysql.Repos.{task_repo, task_srv_repo}
use easytask.Tests.Samples.{outside, outside-IsValidator, start}

abbrev modeless : AddTaskHttpReq
modeless = record {
  name = codes "n";
  srv_name = codes "mail";
  callback_path = codes "/run";
  sched_mode = pos 9;
  time_cron = [];
  time_interval_sec = pos 60;
  time_spec_at = pos 0;
  arg = [];
  biz_id = [];
}

add_task-unknown_mode_example :
    (add_task outside (task_repo memory outside) (task_srv_repo memory) modeless start).0
    ≢ ok (codes "7")
add_task-unknown_mode_example =
    add_task-unknown_mode outside (task_repo memory outside) (task_srv_repo memory) modeless start
      (codes "7") outside-IsValidator (λ e. cc) (λ e. cc) (λ e. cc)

abbrev success_req : ConfirmTaskReq
success_req = record { task_id = codes "7"; is_success = true; extra = []; task_run_times = pos 3 }

confirm_task-err_example :
    (e : Error) × ((confirm_task outside
        (task_repo memory outside)
        (task_srv_repo memory)
        success_req
        start).0
      ≡ err e)
    × ((confirm_task outside
          (task_repo memory outside)
          (task_srv_repo memory)
          success_req
          start).1.tables
        ≡ start.tables)
confirm_task-err_example = confirm_task-err memory memory-laws outside success_req start

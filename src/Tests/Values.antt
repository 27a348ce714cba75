-- ===== src/Tests/Values.antt =====
-- Ids, times, logs and requests at concrete inputs.
use easytask.Base.{◌≡◌, ◌↔◌, refl, ok, none, some, [], codes, pos, ◌+ℤ◌, wrap64, arith, text_eq}
use mathlib.Core.List.{Memᴰ}
use easytask.Task.{time_interval, TaskCallbackSrv, TaskCallbackSrvRoute}
use easytask.Registry.{discover}
use easytask.Mysql.Repos.{task_repo, task_srv_repo}
use easytask.Mysql.SrvRepo.Query.{get_srvs}
use easytask.Mysql.Gorm.Memory.{memory}
use easytask.Task.Schedule.{get_sched_next_at}
use easytask.Task.Logs.{TaskLog, started, type_started, must_new_task_log}
use easytask.Mysql.Ids.{to_task_model_id, to_task_entity_id}
use easytask.Mysql.Ids.RoundTrip.{to_task_model_id-to_task_entity_id}
use easytask.Api.Http.{AddTaskHttpReq, checked_mode}
use easytask.Api.Service.{UnregisterTaskCallbackSrvReq, unregister_task_callback_srv}
use easytask.Api.Service.Removal.{SameAddr, unregister_task_callback_srv-removed}
use easytask.Tests.Samples.{outside, task, srv, start}

to_task_model_id-to_task_entity_id_example :
    to_task_model_id (to_task_entity_id 18_446_744_073_709_551_615)
    ≡ (18_446_744_073_709_551_615, none)
to_task_model_id-to_task_entity_id_example =
    to_task_model_id-to_task_entity_id 18_446_744_073_709_551_615 (omega arith)

in_a_minute : get_sched_next_at outside.cron_next task (pos 200) ≡ ok (pos 260)
unfolding get_sched_next_at wrap64 ◌+ℤ◌
in_a_minute = refl

abbrev started_log : TaskLog
started_log = record {
  log_type = type_started;
  task_started_detail = some (record { task = task });
  task_callback_detail = none;
  task_confirmed_detail = none;
}

made : must_new_task_log type_started (started (record { task = task })) ≡ ok started_log
unfolding must_new_task_log
made = refl

abbrev every_minute : AddTaskHttpReq
every_minute = record {
  name = codes "n";
  srv_name = codes "mail";
  callback_path = codes "/run";
  sched_mode = pos 3;
  time_cron = [];
  time_interval_sec = pos 60;
  time_spec_at = pos 0;
  arg = [];
  biz_id = [];
}

accepted : checked_mode every_minute ≡ ok time_interval
unfolding checked_mode
accepted = refl

abbrev leave_req : UnregisterTaskCallbackSrvReq
leave_req = record { name = codes "mail"; schema = codes "http"; host = codes "h"; port = pos 80 }

discovered : (discover (task_srv_repo memory) (codes "mail") start).0 ≡ ok srv
unfolding discover get_srvs text_eq
discovered = refl

unregister_task_callback_srv-removed_example :
    (gone : TaskCallbackSrv) × (unregister_task_callback_srv outside
        (task_repo memory outside)
        (task_srv_repo memory)
        leave_req
        start
      ≡ (task_srv_repo memory).del_srv_routes gone
          (discover (task_srv_repo memory) (codes "mail") start).1)
    × (gone.id ≡ srv.id)
    × (gone.name ≡ srv.name)
    × ((route : TaskCallbackSrvRoute)
        → Memᴰ route gone.routes ↔ (Memᴰ route srv.routes × SameAddr leave_req route))
unregister_task_callback_srv-removed_example =
    unregister_task_callback_srv-removed outside (task_repo memory outside) (task_srv_repo memory)
      leave_req start srv discovered

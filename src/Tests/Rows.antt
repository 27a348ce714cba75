-- ===== src/Tests/Rows.antt =====
-- Rows of tasks that are locked, added, confirmed and removed, at concrete inputs.
use easytask.Base.{
  ◌≡◌, ◌≢◌, refl, inl, ok, err, Error, [], ◌∷◌, codes, pos, all, select, not, true, false, wrap64,
  ◌+ℤ◌, text_eq,
}
use easytask.Task.{Task, TaskResp, success, incr_run_times}
use easytask.Task.Logs.{created_exceed}
use easytask.Task.Schedule.{get_sched_next_at}
use easytask.Mysql.Ids.{to_task_entity_id, to_callback_srv_route_model_id, checked}
use easytask.Mysql.Models.{to_task_model_sched_mode}
use easytask.Mysql.Models.Columns.{set_task, task_has}
use easytask.Mysql.Gorm.Memory.{memory, memory-laws}
use easytask.Mysql.Gorm.Laws.{assign}
use easytask.Mysql.LogRepo.{task_log_repo, del_logs, del_log_conds}
use easytask.Mysql.LogRepo.Deletion.{del_logs-tasks}
use easytask.Mysql.TaskRepo.Lock.{lock_task}
use easytask.Mysql.TaskRepo.Lock.Outcome.{Outcome, lock_task-Outcome}
use easytask.Mysql.TaskRepo.Add.{add_task, new_row}
use easytask.Mysql.TaskRepo.Add.Laws.{Prepared, statement}
use easytask.Mysql.TaskRepo.Add.Registered.{Under, add_task-Registered}
use easytask.Mysql.TaskRepo.Confirm.{confirm_task}
use easytask.Mysql.TaskRepo.Confirm.Columns.{confirm_task-lost}
use easytask.Mysql.TaskRepo.ById.{del_task_by_id, get_task_by_id}
use easytask.Mysql.TaskRepo.ById.Deleted.{del_task_by_id-get_task_by_id}
use easytask.Mysql.Repos.{task_srv_repo}
use easytask.Tests.Samples.{outside, task, srv, start, row}

locked :
    (lock_task memory outside (task_log_repo memory) task start).0 ≡ ok (true, incr_run_times task)
unfolding lock_task task_log_repo assign set_task task_has
locked = refl

-- A task that was read before the row's last run.
abbrev stale : Task
stale = record task { run_times = pos 1 }

overtaken : (lock_task memory outside (task_log_repo memory) stale start).0 ≡ ok (false, stale)
unfolding lock_task task_log_repo assign set_task task_has
overtaken = refl

-- The task is locked, and the stale one is not.
lock_task-Outcome_example :
    Outcome memory memory-laws outside task
      (incr_run_times task)
      true
      start
      (lock_task memory outside (task_log_repo memory) task start).1
    × Outcome memory memory-laws outside stale stale false start
        (lock_task memory outside (task_log_repo memory) stale start).1
lock_task-Outcome_example = (
  lock_task-Outcome memory memory-laws outside task (incr_run_times task) true start locked,
  lock_task-Outcome memory memory-laws outside stale stale false start overtaken,
)

pub planned : get_sched_next_at outside.cron_next task (pos 200) ≡ ok (pos 260)
unfolding get_sched_next_at wrap64 ◌+ℤ◌
planned = refl

pub known_srv : checked (to_callback_srv_route_model_id srv.id) ≡ ok 3
unfolding to_callback_srv_route_model_id
known_srv = refl

pub known_mode : to_task_model_sched_mode task.sched_mode ≡ ok (pos 3)
unfolding to_task_model_sched_mode
known_mode = refl

abbrev prepared : Prepared memory memory-laws outside task start
prepared = record {
  srv = srv;
  srv_key = 3;
  mode = pos 3;
  next = pos 260;
  has_srv = refl;
  parsed = known_srv;
  known_mode = known_mode;
  planned = planned;
}

there : (statement memory memory-laws outside task start prepared).0 ≡ ok (row, 0)
unfolding new_row text_eq
there = refl

renewed : (add_task memory outside task start).0 ≡ ok (codes "7")
unfolding add_task assign set_task task_has text_eq to_task_entity_id
renewed = refl

add_task-Registered_example :
    (codes "7" ≡ to_task_entity_id 7)
    × Under memory memory-laws outside task 3
        (pos 3)
        (pos 260)
        7
        (add_task memory outside task start).1
add_task-Registered_example =
    add_task-Registered memory memory-laws outside task start prepared row 0 (codes "7") there
      renewed

-- A task was run, as a worker reports it.
abbrev answer : TaskResp
answer = record {
  task_id = codes "7";
  is_run_in_async = false;
  task_status = success;
  task_run_times = pos 3;
  extra = [];
}

confirm_task-lost_example :
    (e : Error) × ((confirm_task memory (task_log_repo memory) answer start).0 ≡ err e)
    × ((confirm_task memory (task_log_repo memory) answer start).1.tables ≡ start.tables)
confirm_task-lost_example =
    confirm_task-lost memory memory-laws (task_log_repo memory) answer start (inl refl)

removed : (del_task_by_id memory (codes "7") start).0 ≡ ok tt
unfolding del_task_by_id
removed = refl

del_task_by_id-get_task_by_id_example :
    (get_task_by_id memory outside
      (task_srv_repo memory)
      (codes "7")
      (del_task_by_id memory (codes "7") start).1).0
    ≢ ok task
del_task_by_id-get_task_by_id_example =
    del_task_by_id-get_task_by_id memory memory-laws outside (task_srv_repo memory) (codes "7")
      start task removed

purged : (del_logs memory (created_exceed (pos 0) ∷ []) start).0 ≡ ok tt
unfolding del_logs
purged = refl

del_logs-tasks_example :
    ((del_logs memory (created_exceed (pos 0) ∷ []) start).1.tables.logs ≡ [])
    × ((del_logs memory (created_exceed (pos 0) ∷ []) start).1.tables.tasks
        ≡ select
            (λ m. not (all (λ c. c m) (del_log_conds memory (created_exceed (pos 0) ∷ []))))
            (row ∷ []))
del_logs-tasks_example =
    del_logs-tasks memory memory-laws (created_exceed (pos 0) ∷ []) start purged

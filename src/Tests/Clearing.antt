-- ===== src/Tests/Clearing.antt =====
-- Paging and clearing at concrete inputs.
use easytask.Base.{All, ◌≡◌, refl, ok, List, [], ◌∷◌, codes, pos, arith, select, not, ltb_ℤ}
use easytask.Task.{TaskCallbackSrv}
use easytask.Mysql.Ids.{to_task_entity_id, to_task_model_id}
use easytask.Mysql.Gorm.Memory.{Memory, memory, memory-laws}
use easytask.Mysql.TaskRepo.Timeout.{timeout_tasks, distinct_srv_ids}
use easytask.Mysql.TaskRepo.Timeout.Complete.{Served, before, page_rows, timeout_tasks-Served}
use easytask.Mysql.SrvRepo.Query.{get_srvs_by_ids}
use easytask.Mysql.LogRepo.{del_logs}
use easytask.Mysql.Repos.{task_srv_repo}
use easytask.Tool.{expired_logs, clear_expired_tasks, clear_expired_task_logs}
use easytask.Tool.Expired.{mysql_repos, clear_expired-view}
use easytask.Tests.Samples.{outside, task, start, row}

one_page :
    (timeout_tasks memory outside (task_srv_repo memory) 10 [] start).0 ≡ ok (task ∷ [], codes "7")
unfolding timeout_tasks get_srvs_by_ids to_task_entity_id
one_page = refl

timeout_tasks-Served_example :
    (v : Memory) × (srvs : List TaskCallbackSrv) × (memory-laws.view v ≡ memory-laws.view start)
    × (((task_srv_repo memory).get_srvs_by_ids
          (distinct_srv_ids []
            (page_rows memory memory-laws outside (task_srv_repo memory) 10 0 (pos 200) start))
          v).0
        ≡ ok srvs)
    × All
        (Served srvs (task ∷ []))
        (select (before memory memory-laws outside (task_srv_repo memory) 0 7 (pos 200)) (row ∷ []))
unfolding to_task_model_id
timeout_tasks-Served_example =
    timeout_tasks-Served memory memory-laws outside (task_srv_repo memory) 10 [] start (task ∷ [])
      (codes "7") 0 7 (omega arith, tt) (tt, tt) one_page (λ e. cc) refl refl

cleared : (del_logs memory (expired_logs (pos 9)) start).0 ≡ ok tt
unfolding del_logs
cleared = refl

clear_expired-view_example :
    (memory-laws.view (clear_expired_tasks (mysql_repos memory memory-laws outside) (pos 9) start).1
      ≡ memory-laws.view start)
    × ((memory-laws.view
          (clear_expired_task_logs (mysql_repos memory memory-laws outside) (pos 9) start).1).logs
        ≡ (memory-laws.view start).logs)
    × ((memory-laws.view
          (clear_expired_task_logs (mysql_repos memory memory-laws outside) (pos 9) start).1).tasks
        ≡ select (λ m. not (ltb_ℤ (pos 9) m.created_at)) (memory-laws.view start).tasks)
clear_expired-view_example = clear_expired-view memory memory-laws outside (pos 9) start cleared

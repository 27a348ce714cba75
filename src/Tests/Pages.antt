-- ===== src/Tests/Pages.antt =====
-- Pages of due tasks at concrete inputs.
use easytask.Base.{
  ℕ, ◌≡◌, ◌≢◌, ◌<◌, ◌≤◌, refl, ok, List, [], ◌∷◌, codes, pos, All, select, take, arith, true, false,
  length, All-take, All-select_of,
}
use easytask.Task.{TaskCallbackSrv}
use easytask.Mysql.Ids.{to_task_entity_id}
use easytask.Mysql.Models.{TaskModel}
use easytask.Mysql.Models.Columns.{task_model}
use easytask.Mysql.Gorm.{in_scope}
use easytask.Mysql.Gorm.Memory.{memory, memory-laws}
use easytask.Mysql.TaskRepo.Timeout.{timeout_tasks, cursor_id, due, last_id}
use easytask.Mysql.TaskRepo.Timeout.Due.{IsDueRow, EachStems, timeout_tasks-due}
use easytask.Mysql.TaskRepo.Timeout.Advance.{timeout_tasks-cursor_id}
use easytask.Mysql.SrvRepo.Query.{get_srvs_by_ids}
use easytask.Mysql.Repos.{task_srv_repo, task_repo}
use easytask.Engine.Sched.{sent, page_size, sched_round, sched_rounds}
use easytask.Engine.Sched.Paging.{sched_round-sent}
use easytask.Engine.Sched.Starved.{Blocked, is_sent, sched_rounds-starved}
use easytask.Mysql.TaskRepo.Timeout.Unknown.{is_unknown}
use easytask.Tests.Samples.{outside, task, start, row, unserved}

one_page :
    (timeout_tasks memory outside (task_srv_repo memory) 10 [] start).0 ≡ ok (task ∷ [], codes "7")
unfolding timeout_tasks get_srvs_by_ids to_task_entity_id
one_page = refl

timeout_tasks-due_example :
    (key : ℕ) × (rows : List TaskModel) × (srvs : List TaskCallbackSrv) × (cursor_id memory outside
        (task_srv_repo memory)
        []
      ≡ ok key)
    × (rows ≡ take 10 (select (in_scope task_model (due key (pos 200))) (row ∷ [])))
    × All (IsDueRow memory memory-laws outside (task_srv_repo memory) key (pos 200)) rows
    × EachStems outside srvs rows (task ∷ [])
    × (1 ≤ 10)
    × (codes "7" ≡ last_id (task ∷ []))
timeout_tasks-due_example =
    timeout_tasks-due memory memory-laws outside (task_srv_repo memory) 10 [] start (task ∷ [])
      (codes "7") one_page

timeout_tasks-cursor_id_example :
    (later : ℕ) × (cursor_id memory outside (task_srv_repo memory) (codes "7") ≡ ok later)
    × (0 < later)
timeout_tasks-cursor_id_example =
    timeout_tasks-cursor_id memory memory-laws outside (task_srv_repo memory) 10 [] start
      (task ∷ []) (codes "7") 0 (omega arith, tt) one_page (λ e. cc) refl

round_sent :
    (sched_round (task_repo memory outside) false true [] start).0
    ≡ ok (sent (task ∷ []), codes "7")
unfolding sched_round timeout_tasks get_srvs_by_ids to_task_entity_id
round_sent = refl

sched_round-sent_example :
    (false ≡ false)
    × (true ≡ true)
    × ((task ∷ []) ≢ [])
    × (((task_repo memory outside).timeout_tasks page_size [] start).0 ≡ ok (task ∷ [], codes "7"))
sched_round-sent_example =
    sched_round-sent (task_repo memory outside) false true [] (codes "7") (task ∷ []) start
      round_sent

-- The service of the only row is gone.
all_unknown : Blocked (memory-laws.view unserved)
all_unknown now =
    All-take (λ m. is_unknown [] m ≡ true) page_size _
      (All-select_of (λ m. is_unknown [] m ≡ true) (in_scope task_model (due 0 now)) (row ∷ [])
        (refl, tt))

sched_rounds-starved_example :
    (length (sched_rounds (task_repo memory outside) 2 [] unserved).0 ≡ 2)
    × All (λ r. is_sent r ≡ false) (sched_rounds (task_repo memory outside) 2 [] unserved).0
    × (memory-laws.view (sched_rounds (task_repo memory outside) 2 [] unserved).1
        ≡ memory-laws.view unserved)
sched_rounds-starved_example =
    sched_rounds-starved memory memory-laws outside 2 unserved all_unknown

-- ===== src/Mysql/LogRepo/Deletion.antt =====
-- What `DelLogs` deletes.
use easytask.Base.{◌≡◌, ap, ◌∙◌, List, all, select, not, ok, continue-eq-ok}
use easytask.Task.Logs.{DelOpt}
use easytask.Mysql.Gorm.{Gorm, unscoped_where}
use easytask.Mysql.Gorm.Laws.{GormLaws}
use easytask.Mysql.LogRepo.{del_logs, del_log_conds}

module _ (g : Gorm) (laws : GormLaws g) where
  -- DelLogs leaves the logs as they are and removes, from the table of the tasks and for good, all rows
  -- that pass the conditions of its options.
  pub del_logs-tasks :
      (opts : List DelOpt) (w : g.World)
      → (del_logs g opts w).0 ≡ ok tt
      → ((laws.view (del_logs g opts w).1).logs ≡ (laws.view w).logs)
        × ((laws.view (del_logs g opts w).1).tasks
            ≡ select (λ m. not (all (λ c. c m) (del_log_conds g opts))) (laws.view w).tasks)
  unfolding del_logs
  del_logs-tasks opts w e =
      let q = unscoped_where (del_log_conds g opts) in
      let gone = g.tasks.delete q w in
      let (n, deleted, e1, q1) = continue-eq-ok gone.0 _ gone.1 e in
      let (at, later, become) = laws.task_laws.delete_ok q w n deleted in
      let after : laws.view (del_logs g opts w).1 ≡ _ = ap (λ r. laws.view r.1) q1 ∙ become in
      (ap (λ v. v.logs) after, ap (λ v. v.tasks) after)

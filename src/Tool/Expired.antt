-- ===== src/Tool/Expired.antt =====
-- What the commands delete, over the repositories on MySQL.
use easytask.Base.{
  Bool, true, false, ◌&&◌, ◌≡◌, refl, ap, ◌∙◌, inl, inr, ℤ, ltb_ℤ, not, select, ok, pure, Io,
  Result-cases,
}
use mathlib.Core.Path.{fun_ext}
use easytask.Outside.{Outside}
use easytask.Mysql.Gorm.{Gorm}
use easytask.Mysql.Gorm.Laws.{GormLaws}
use easytask.Mysql.LogRepo.{task_log_repo, del_logs}
use easytask.Mysql.LogRepo.Deletion.{del_logs-tasks}
use easytask.Mysql.Repos.{task_srv_repo, task_repo}
use easytask.Mysql.TaskRepo.ById.{del_tasks, del_task_conds}
use easytask.Tool.{Repos, expired_tasks, expired_logs, clear_expired_tasks, clear_expired_task_logs}

&&-true : (b : Bool) → (b && true) ≡ b
&&-true true = refl
&&-true false = refl

module _ (g : Gorm) (laws : GormLaws g) (o : Outside) where
  abbrev pub mysql_repos : Io g.World (Repos g.World)
  mysql_repos = pure (task_repo g o, task_srv_repo g, task_log_repo g)

  del_tasks-view :
      (expired_at : ℤ) (w : g.World)
      → laws.view (del_tasks g (expired_tasks expired_at) w).1 ≡ laws.view w
  unfolding del_tasks
  del_tasks-view expired_at w =
      elim (Result-cases
        (g.delete_task_log_repo (del_task_conds g (expired_tasks expired_at)) w).0) [
          | inl (n, good) ↦ rw good (laws.delete_task_log_repo_view _ w)
          | inr (e, bad) ↦ rw bad (laws.delete_task_log_repo_view _ w)
        ]

  -- ClearExpiredTasks changes no table. Where the statement of ClearExpiredTaskLogs succeeds, the
  -- command leaves the logs alone, removes for good the tasks that were created after the time given,
  -- and keeps the others.
  pub clear_expired-view :
      (expired_at : ℤ) (w : g.World)
      → (del_logs g (expired_logs expired_at) w).0 ≡ ok tt
      → (laws.view (clear_expired_tasks mysql_repos expired_at w).1 ≡ laws.view w)
        × ((laws.view (clear_expired_task_logs mysql_repos expired_at w).1).logs
            ≡ (laws.view w).logs)
        × ((laws.view (clear_expired_task_logs mysql_repos expired_at w).1).tasks
            ≡ select (λ m. not (ltb_ℤ expired_at m.created_at)) (laws.view w).tasks)
  unfolding clear_expired_tasks clear_expired_task_logs task_log_repo
  clear_expired-view expired_at w done =
      let (logs, tasks) = del_logs-tasks g laws (expired_logs expired_at) w done in
      (
        del_tasks-view expired_at w,
        logs,
        tasks
            ∙ ap (λ p. select p (laws.view w).tasks)
                (fun_ext (λ m. ap not (&&-true (ltb_ℤ expired_at m.created_at)))),
      )

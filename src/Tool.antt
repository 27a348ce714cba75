-- ===== src/Tool.antt =====
-- tool/main.go: the commands that clear expired tasks and logs.
pub mod Expired
use easytask.Base.{[], ◌∷◌, List, ℤ, Result, ok, err, Io, ◌>>=◌, pure, attempt}
use easytask.Task.Repo.{TaskRepo, TaskCallbackSrvRepo}
use easytask.Task.Logs.{TaskLogRepo, DelOpt, created_exceed, task_finished}

abbrev pub Repos : Type 0 → Type 0
Repos W = TaskRepo W × TaskCallbackSrvRepo W × TaskLogRepo W

-- The options of the two commands, with the time given by the flag `-e`.
abbrev pub expired_tasks : ℤ → List DelOpt
expired_tasks expired_at = created_exceed expired_at ∷ task_finished ∷ []

abbrev pub expired_logs : ℤ → List DelOpt
expired_logs expired_at = created_exceed expired_at ∷ []

module _ {W : Type 0} where
  -- `NewRepos`, over the constructors: the first error ends it. main.go has the same function.
  unfoldable pub new_repos :
      Io W (TaskLogRepo W)
      → Io W (TaskCallbackSrvRepo W)
      → (TaskCallbackSrvRepo W → TaskLogRepo W → Io W (TaskRepo W))
      → Io W (Repos W)
  new_repos new_task_log_repo new_task_srv_repo new_task_repo = do
    task_log_repo ← new_task_log_repo
    task_callback_srv_repo ← new_task_srv_repo
    task_repo ← new_task_repo task_callback_srv_repo task_log_repo
    pure (task_repo, task_callback_srv_repo, task_log_repo)

  -- An error is logged, and the command returns.
  abbrev pub clear_tasks : ℤ → Result (Repos W) → Io W (Unit {0})
  clear_tasks expired_at (err e) = pure tt
  clear_tasks expired_at (ok repos) = do
    _ ← attempt (repos.0.del_tasks (expired_tasks expired_at))
    pure tt

  abbrev pub clear_logs : ℤ → Result (Repos W) → Io W (Unit {0})
  clear_logs expired_at (err e) = pure tt
  clear_logs expired_at (ok repos) = do
    _ ← attempt (repos.2.del_logs (expired_logs expired_at))
    pure tt

  unfoldable pub clear_expired_tasks : Io W (Repos W) → ℤ → Io W (Unit {0})
  clear_expired_tasks repos expired_at = do r ← attempt repos; clear_tasks expired_at r

  unfoldable pub clear_expired_task_logs : Io W (Repos W) → ℤ → Io W (Unit {0})
  clear_expired_task_logs repos expired_at = do r ← attempt repos; clear_logs expired_at r

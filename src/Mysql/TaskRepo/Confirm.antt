-- ===== src/Mysql/TaskRepo/Confirm.antt =====
-- `ConfirmTask` of internal/task/impl/repo/mysql/task_repo.go.
pub mod Columns
use easytask.Base.{◌==◌, [], ◌∷◌, Io, ◌>>=◌, ◌>>◌, pure, ℕ, ℤ}
use easytask.Task.{TaskResp, Status, success, failed}
use easytask.Task.Logs.{TaskLogRepo}
use easytask.Mysql.Ids.{to_task_model_id}
use easytask.Mysql.Column.{Column, int}
use easytask.Mysql.Models.{TaskModel}
use easytask.Mysql.Gorm.{Gorm, where_}
use easytask.Mysql.LogRepo.{clock}

module _ (g : Gorm) where
  abbrev stamp : ℕ → Column → ℤ → Io g.World (Unit {0})
  stamp key column now = do
    _ ← g.tasks.updates (where_ ((λ m. m.id == key) ∷ [])) ((column, int now) ∷ [])
    pure tt

  -- The two `if` statements on the status, which exclude one another.
  unfoldable pub stamp_result : Status → ℕ → ℤ → Io g.World (Unit {0})
  stamp_result success key now = stamp key Column.last_success_at now
  stamp_result failed key now = stamp key Column.last_failed_at now
  stamp_result _ key now = pure tt

  -- The error of the id's conversion is overwritten: an id that is no number counts as 0, one that is
  -- too large as the largest.
  unfoldable pub confirm_task : TaskLogRepo g.World → TaskResp → Io g.World (Unit {0})
  unfolding to_task_model_id stamp_result
  confirm_task log_repo r = do
    now ← clock g
    stamp_result r.task_status (to_task_model_id r.task_id).0 now
    log_repo.save_task_confirmed_log (record { task_resp = r })

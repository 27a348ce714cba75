-- ===== src/Mysql/TaskRepo/Lock.antt =====
-- `LockTask` of internal/task/impl/repo/mysql/task_repo.go: the optimistic lock by which at most one
-- worker runs a task that several have read.
pub mod Counter
pub mod Overtaken
pub mod Runs
pub mod Won
pub mod Exclusive
pub mod Outcome
use easytask.Base.{
  ◌==◌, Bool, true, false, List, [], ◌∷◌, if◌then◌else◌, ℤ, pos, ◌==ℤ◌, ℕ, Io, ◌>>=◌, pure, lift,
}
use easytask.Outside.{Outside}
use easytask.Task.{Task, incr_run_times}
use easytask.Task.Schedule.{get_sched_next_at}
use easytask.Task.Logs.{TaskLogRepo}
use easytask.Mysql.Ids.{to_task_model_id, checked}
use easytask.Mysql.Column.{Column, Value, int, plus}
use easytask.Mysql.Models.{TaskModel}
use easytask.Mysql.Gorm.{Gorm, Query, where_}
use easytask.Mysql.LogRepo.{clock}

-- The row, as long as nobody has locked it since the task was read.
abbrev pub unchanged_since : ℕ → Task → Query TaskModel
unchanged_since key t = where_ (
    (λ m. m.id == key)
    ∷ (λ m. m.last_run_at ==ℤ t.last_run_at)
    ∷ (λ m. m.run_times ==ℤ t.run_times)
    ∷ [])

abbrev pub lock_updates : ℤ → ℤ → List (Column × Value)
lock_updates now next =
    (Column.last_run_at, int now)
    ∷ (Column.run_times, plus Column.run_times (pos 1))
    ∷ (Column.plan_sched_next_at, int next)
    ∷ []

module _ (g : Gorm) (o : Outside) (log_repo : TaskLogRepo g.World) where
  -- What follows the update, by the number of rows that it changed.
  unfoldable pub locked_by : Task → ℕ → Io g.World (Bool × Task)
  unfolding incr_run_times
  locked_by t affected = if affected == 0 then pure (false, t) else do
    _ ← log_repo.save_task_started_log (record { task = incr_run_times t })
    pure (true, incr_run_times t)

  unfoldable pub lock_task : Task → Io g.World (Bool × Task)
  unfolding get_sched_next_at to_task_model_id locked_by
  lock_task t = do
    now ← clock g
    later ← clock g
    next ← lift (get_sched_next_at o.cron_next t later)
    key ← lift (checked (to_task_model_id t.id))
    affected ← g.tasks.updates (unchanged_since key t) (lock_updates now next)
    locked_by t affected

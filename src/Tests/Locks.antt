-- ===== src/Tests/Locks.antt =====
-- `LockTask` at concrete inputs.
use easytask.Base.{◌≡◌, ◌≢◌, refl, true, ok, Bool, Result}
use easytask.Task.{Task, incr_run_times}
use easytask.Mysql.Gorm.Memory.{memory, memory-laws, Memory}
use easytask.Mysql.Gorm.Laws.{assign}
use easytask.Mysql.Models.Columns.{set_task, task_has}
use easytask.Mysql.LogRepo.{task_log_repo}
use easytask.Mysql.TaskRepo.Lock.{lock_task}
use easytask.Mysql.TaskRepo.Lock.Exclusive.{here, lock_task-exclusive}
use easytask.Tests.Samples.{outside, task, start}

abbrev locked : Result (Bool × Task) × Memory
locked = lock_task memory outside (task_log_repo memory) task start

locked_first : locked.0 ≡ ok (true, incr_run_times task)
unfolding lock_task task_log_repo assign set_task task_has
locked_first = refl

lock_task-exclusive_example :
    (lock_task memory outside (task_log_repo memory) task locked.1).0 ≢ ok (true, task)
lock_task-exclusive_example =
    lock_task-exclusive memory memory-laws outside task task (incr_run_times task) task start
      locked.1 (tt, tt) locked_first here refl refl

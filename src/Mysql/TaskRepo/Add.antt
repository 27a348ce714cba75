-- ===== src/Mysql/TaskRepo/Add.antt =====
-- `AddTask` of internal/task/impl/repo/mysql/task_repo.go: a task is registered, or registered anew.
pub mod Laws
pub mod Renewed
pub mod Registered
use easytask.Base.{
  ℕ, ◌==◌, Bool, ◌&&◌, ◌||◌, not, List, [], ◌∷◌, ◌++◌, if◌then◌else◌, ℤ, pos, ◌==ℤ◌, max_int, Text,
  text_eq, Io, ◌>>=◌, ◌>>◌, pure, lift, attempt, deref, Result, ok, err,
}
use easytask.Outside.{Outside}
use easytask.Task.{Task, SchedMode, mode_nil, time_cron, time_spec, time_interval}
use easytask.Task.Schedule.{get_sched_next_at}
use easytask.Mysql.Ids.{to_task_entity_id, to_callback_srv_route_model_id, checked}
use easytask.Mysql.Column.{Column, Value, int, uint, text, plus}
use easytask.Mysql.Models.{TaskModel, to_task_model_sched_mode, sched_mode_time_spec}
use easytask.Mysql.Gorm.{Gorm, Query, unscoped_where}
use easytask.Mysql.LogRepo.{clock}

-- The variable `allowMaxRunTimes`: once for a task at a given time, no bound for the others.
unfoldable pub allowed_runs : SchedMode → ℤ
allowed_runs time_spec = pos 1
allowed_runs time_cron = max_int
allowed_runs time_interval = max_int
allowed_runs mode_nil = pos 0

-- The row to create. MaxRunTimeSec is set from the interval.
unfoldable pub new_row : Task → ℕ → ℤ → ℤ → TaskModel
unfolding allowed_runs
new_row t srv_key mode next = record {
  base = record { id = 0; created_at = pos 0; updated_at = pos 0; deleted_at = 0 };
  name = t.name;
  arg = t.arg;
  last_run_at = pos 0;
  plan_sched_next_at = next;
  time_cron_expr = t.time_cron_expr;
  time_interval_sec = t.time_interval_sec;
  sched_mode = mode;
  callback_srv_id = srv_key;
  run_times = pos 0;
  allow_max_run_times = allowed_runs t.sched_mode;
  max_run_time_sec = t.time_interval_sec;
  callback_path = t.callback_path;
  biz_id = t.biz_id;
}

-- The unique key of a task, deleted rows included.
abbrev pub same_biz : TaskModel → Query TaskModel
same_biz m = unscoped_where ((λ r. text_eq r.name m.name) ∷ (λ r. text_eq r.biz_id m.biz_id) ∷ [])

-- The value of `allow_max_run_times`: a new time for a task that runs at a given time allows as many
-- runs again as it may have.
abbrev pub renewed_runs : SchedMode → ℤ → ℤ → TaskModel → Value
renewed_runs entity_mode mode next found =
    if mode ==ℤ sched_mode_time_spec
      && (not (found.sched_mode ==ℤ sched_mode_time_spec)
          || not (found.plan_sched_next_at ==ℤ next))
    then plus Column.run_times (allowed_runs entity_mode)
    else int (allowed_runs entity_mode)

-- The updates of a row that was there, `found` as it was read.
abbrev pub renewal : Task → ℕ → ℤ → ℤ → TaskModel → List (Column × Value)
renewal t srv_key mode next found =
    (Column.sched_mode, int mode)
    ∷ (Column.time_cron_expr, text t.time_cron_expr)
    ∷ (Column.time_interval_sec, int t.time_interval_sec)
    ∷ (Column.plan_sched_next_at, int next)
    ∷ (Column.callback_srv_id, uint srv_key)
    ∷ (Column.callback_path, text t.callback_path)
    ∷ (Column.allow_max_run_times, renewed_runs t.sched_mode mode next found)
    ∷ (Column.max_run_time_sec, int found.max_run_time_sec)
    ∷ (Column.deleted_at, uint 0)
    ∷ (Column.arg, text t.arg)
    ∷ []

module _ (g : Gorm) (o : Outside) where
  abbrev pub renew : Task → ℕ → ℤ → ℤ → TaskModel → Io g.World (Unit {0})
  renew t srv_key mode next row = do
    _ ←
        g.tasks.updates (unscoped_where ((λ m. m.id == row.id) ∷ []))
          (renewal t srv_key mode next row)
    pure tt

  -- What follows `FirstOrCreate`. On its error the function returns `err` of the calls before, which
  -- is nil.
  unfoldable pub stored : Task → ℕ → ℤ → ℤ → Result (TaskModel × ℕ) → Io g.World Text
  stored t srv_key mode next (err e) = pure []
  stored t srv_key mode next (ok (row, affected)) = do
    if affected == 0 then renew t srv_key mode next row else pure tt
    pure (to_task_entity_id row.id)

  unfoldable pub add_task : Task → Io g.World Text
  unfolding to_callback_srv_route_model_id to_task_model_sched_mode get_sched_next_at new_row stored
  add_task t = do
    srv ← lift (deref t.callback_srv)
    srv_key ← lift (checked (to_callback_srv_route_model_id srv.id))
    mode ← lift (to_task_model_sched_mode t.sched_mode)
    now ← clock g
    next ← lift (get_sched_next_at o.cron_next t now)
    res ← attempt (
        g.tasks.first_or_create (same_biz (new_row t srv_key mode next))
          (new_row t srv_key mode next))
    stored t srv_key mode next res

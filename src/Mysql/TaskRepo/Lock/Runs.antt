-- ===== src/Mysql/TaskRepo/Lock/Runs.antt =====
-- The statements of a call of `LockTask` that returns without an error.
use easytask.Base.{ℕ, ◌≡◌, sym, ap, ◌∙◌, false, ok-injective, Bool, ℤ, ok, continue-eq-ok}
use easytask.Outside.{Outside}
use easytask.Task.{Task}
use easytask.Task.Schedule.{get_sched_next_at}
use easytask.Task.Logs.{TaskLogRepo}
use easytask.Mysql.Ids.{to_task_model_id, checked}
use easytask.Mysql.Gorm.{Gorm}
use easytask.Base.{◌≢◌, true}
use easytask.Mysql.Gorm.Laws.{GormLaws}
use easytask.Mysql.TaskRepo.Lock.{unchanged_since, lock_updates, locked_by, lock_task}

module _ (g : Gorm) (laws : GormLaws g) (o : Outside) (log_repo : TaskLogRepo g.World) where
  pub record LockRun (t : Task) (w : g.World) (result : Bool × Task) : Type 0 where
    pub key : ℕ
    pub now : ℤ
    pub next : ℤ
    pub affected : ℕ
    pub before : g.World
    pub parsed : checked (to_task_model_id t.id) ≡ ok key
    pub planned : (later : ℤ) × (get_sched_next_at o.cron_next t later ≡ ok next)
    pub unchanged : laws.view before ≡ laws.view w
    pub updated :
        (g.tasks.updates (unchanged_since key t) (lock_updates now next) before).0 ≡ ok affected
    pub returned :
        lock_task g o log_repo t w
        ≡ locked_by g o log_repo t affected
            (g.tasks.updates (unchanged_since key t) (lock_updates now next) before).1

  pub lock_task-LockRun :
      (t : Task) (w : g.World) (result : Bool × Task)
      → (lock_task g o log_repo t w).0 ≡ ok result
      → LockRun t w result
  unfolding lock_task
  lock_task-LockRun t w result e =
      let now = g.now w in
      let later = g.now now.1 in
      let (next, planned, e1, q1) =
        continue-eq-ok (get_sched_next_at o.cron_next t later.0) _ later.1 e in
      let (key, parsed, e2, q2) = continue-eq-ok (checked (to_task_model_id t.id)) _ later.1 e1 in
      let done = g.tasks.updates (unchanged_since key t) (lock_updates now.0 next) later.1 in
      let (affected, updated, e3, q3) = continue-eq-ok done.0 _ done.1 e2 in
      record {
        key = key;
        now = now.0;
        next = next;
        affected = affected;
        before = later.1;
        parsed = parsed;
        planned = (later.0, planned);
        unchanged = laws.now_view now.1 ∙ laws.now_view w;
        updated = updated;
        returned = q1 ∙ q2 ∙ q3;
      }

  locked_by-zero :
      (t : Task) (n : ℕ) (w : g.World) → n ≡ 0 → (locked_by g o log_repo t n w).0 ≡ ok (false, t)
  unfolding locked_by
  locked_by-zero t n w e = rw (e, locked_by)

  -- A lock that is reported took an update of some row.
  pub LockRun-affected :
      {t : Task} {w : g.World} {x : Task}
      → (run : LockRun t w (true, x)) → (lock_task g o log_repo t w).0 ≡ ok (true, x)
      → run.affected ≢ 0
  LockRun-affected {t} run e none_hit =
      let same : _ =
        ok-injective
          (sym e ∙ ap (λ r. r.0) run.returned ∙ locked_by-zero t run.affected _ none_hit) in
      cc (ap (λ p. p.0) same)

-- ===== src/Mysql/TaskRepo/Lock/Exclusive.antt =====
-- At most one lock for a task and a run count, whatever statements on the tasks come between, but for
-- the purge of `DelLogs`, after which a key may be used again.
use easytask.Base.{
  ℕ, ◌≡◌, ◌≢◌, sym, ap, ◌∙◌, inl, inr, Bool, true, ◌==◌, List, arith, Bool-cases, ℤ, pos, ◌+ℤ◌,
  ◌≤ℤ◌, lt-+ℤ-one, le_of_lt_ℤ, ok, Result-cases, continue-keeps, ok-injective, length,
}
use easytask.Mysql.Column.{Column, Value}
use easytask.Mysql.Models.{TaskModel}
use easytask.Mysql.Models.Columns.{task_model}
use easytask.Mysql.Gorm.{Gorm, Query, where_}
use easytask.Mysql.Gorm.Laws.{GormLaws, assign}
use easytask.Mysql.TaskRepo.Lock.{lock_updates, locked_by, lock_task}
use easytask.Mysql.TaskRepo.Lock.Runs.{LockRun, LockRun-affected, lock_task-LockRun}
use easytask.Mysql.TaskRepo.Lock.Won.{IsKeyed, won-IsOvertaken, none_reached}
use easytask.Outside.{Outside}
use easytask.Task.{Task, incr_run_times}
use easytask.Task.Logs.{TaskStartedLogDetail}
use easytask.Mysql.Ids.{to_task_model_id, checked}
use easytask.Mysql.LogRepo.{task_log_repo, save_task_started_log}
use easytask.Mysql.LogRepo.Effects.{save_task_started_log-SameBesideLogs}
use easytask.Mysql.TaskRepo.Lock.Counter.{LeavesRuns, assign-run_times}
use easytask.Mysql.TaskRepo.Lock.Overtaken.{
  IsOvertaken, map-IsOvertaken, append-IsOvertaken, below_fresh, updated-Grows, soft_deleted-Grows,
  lock_updates-run_times,
}

-- One statement against the database: the update of a lock, another update, which does not assign the
-- counter of the runs, a soft deletion, a FirstOrCreate, or a statement that leaves the tasks alone.
module _ (g : Gorm) (laws : GormLaws g) where
  pub data Step (w : g.World) : g.World → Type 0 where
    lock_update :
        (q : Query TaskModel) (now next : ℤ)
        → Step w (g.tasks.updates q (lock_updates now next) w).1
    write :
        (q : Query TaskModel) (xs : List (Column × Value))
        → LeavesRuns xs
        → Step w (g.tasks.updates q xs w).1
    remove : (conds : List (TaskModel → Bool)) → Step w (g.tasks.delete (where_ conds) w).1
    insert : (q : Query TaskModel) (m : TaskModel) → Step w (g.tasks.first_or_create q m w).1
    elsewhere : {v : g.World} → (laws.view v).tasks ≡ (laws.view w).tasks → Step w v

  -- Any number of statements.
  pub data Reach (w : g.World) : g.World → Type 0 where
    here : Reach w w
    later : {u v : g.World} → Reach w u → Step u v → Reach w v

  module _ {key : ℕ} {times : ℤ} where
    -- The view after an update, on success and on failure.
    updates-IsOvertaken :
        (q : Query TaskModel) (xs : List (Column × Value)) (w : g.World)
        → ((m : TaskModel) → m.run_times ≤ℤ (assign task_model xs m).run_times)
        → IsOvertaken key times (laws.view w).tasks
        → IsOvertaken key times (laws.view (g.tasks.updates q xs w).1).tasks
    updates-IsOvertaken q xs w grow h = elim (Result-cases (g.tasks.updates q xs w).0) [
      | inl (n, e) ↦
          let done = laws.task_laws.updates_ok q xs w n e in
          rw (done.1) (map-IsOvertaken key times _ _ (updated-Grows q xs done.0 grow) h)
      | inr (x, e) ↦ rw (laws.task_laws.updates_err q xs w x e) h
    ]

    -- Every statement keeps it.
    Step-IsOvertaken :
        {w v : g.World}
        → Step w v
        → IsOvertaken key times (laws.view w).tasks
        → IsOvertaken key times (laws.view v).tasks
    Step-IsOvertaken {w} (lock_update q now next) h =
        updates-IsOvertaken q (lock_updates now next) w
          (λ m.
            rw (lock_updates-run_times now next m)
              (le_of_lt_ℤ m.run_times (m.run_times +ℤ pos 1) (lt-+ℤ-one m.run_times)))
          h
    Step-IsOvertaken {w} (write q xs leaves) h =
        updates-IsOvertaken q xs w (λ m. rw (assign-run_times xs m leaves) (omega arith)) h
    Step-IsOvertaken {w} (remove conds) h =
        elim (Result-cases (g.tasks.delete (where_ conds) w).0) [
          | inl (n, e) ↦
              let done = laws.task_laws.delete_ok (where_ conds) w n e in
              rw (done.2)
                (map-IsOvertaken key times _ _ (soft_deleted-Grows (where_ conds) done.0) h)
          | inr (x, e) ↦ rw (laws.task_laws.delete_err (where_ conds) w x e) h
        ]
    Step-IsOvertaken {w} (insert q m) h = elim (Result-cases (g.tasks.first_or_create q m w).0) [
      | inl ((row, n), e) ↦ elim (laws.task_laws.first_or_create_ok q m w row n e) [
        | inl found ↦ rw (found.1) h
        | inr made ↦ rw (made.3) (
            append-IsOvertaken key times _ row
              (rw (made.2.stored) (below_fresh key times _ made.2.key made.2.fresh h.present)) h)
      ]
      | inr (x, e) ↦ rw (laws.task_laws.first_or_create_err q m w x e) h
    ]
    Step-IsOvertaken (elsewhere e) h = rw e h

    Reach-IsOvertaken :
        {w v : g.World}
        → Reach w v
        → IsOvertaken key times (laws.view w).tasks
        → IsOvertaken key times (laws.view v).tasks
    Reach-IsOvertaken here h = h
    Reach-IsOvertaken (later r s) h = Step-IsOvertaken s (Reach-IsOvertaken r h)

  module _ (o : Outside) where
    -- The log entry that follows the update leaves the tasks alone.
    pub locked_by-tasks :
        (t : Task) (n : ℕ) (w : g.World)
        → (laws.view (locked_by g o (task_log_repo g) t n w).1).tasks ≡ (laws.view w).tasks
    unfolding locked_by task_log_repo
    locked_by-tasks t n w =
        let started : TaskStartedLogDetail = record { task = incr_run_times t } in
        let kept = (save_task_started_log-SameBesideLogs g laws started w).tasks in
        elim (Bool-cases (n == 0)) [
          | inl nobody ↦ rw nobody
          | inr somebody ↦ rw somebody (
              continue-keeps {B = Bool × Task} (λ u. (laws.view u).tasks ≡ (laws.view w).tasks)
                (save_task_started_log g started w).0 (λ _ u. (ok (true, incr_run_times t), u))
                (save_task_started_log g started w).1 kept (λ _. kept))
        ]

    -- An update that changed a row leaves the row under the key overtaken.
    LockRun-IsOvertaken :
        (t x : Task) (w : g.World) (run : LockRun g laws o (task_log_repo g) t w (true, x))
        → IsKeyed (laws.view w).tasks
        → run.affected ≢ 0
        → IsOvertaken run.key t.run_times (laws.view (lock_task g o (task_log_repo g) t w).1).tasks
    LockRun-IsOvertaken t x w run keyed changed =
        let done = laws.task_laws.updates_ok _ _ run.before run.affected run.updated in
        let overtaken =
          won-IsOvertaken run.key t run.now run.next done.0 (laws.view run.before).tasks
            (rw (ap (λ v. v.tasks) run.unchanged) keyed)
            (λ none. changed (omega (arith, done.2, ap length none))) in
        rw (run.returned, locked_by-tasks t run.affected _, done.1) overtaken

    -- Where no two rows share a key, a worker that read a task, with its id and run count, locks it; then
    -- no worker that read the same locks it again, after any sequence of updates of locks, updates that
    -- do not assign the counter of the runs, soft deletions, FirstOrCreates, and statements that leave
    -- the tasks alone.
    pub lock_task-exclusive :
        (t t' x x' : Task) (w v : g.World)
        → IsKeyed (laws.view w).tasks
        → (lock_task g o (task_log_repo g) t w).0 ≡ ok (true, x)
        → Reach (lock_task g o (task_log_repo g) t w).1 v
        → t'.id ≡ t.id
        → t'.run_times ≡ t.run_times
        → (lock_task g o (task_log_repo g) t' v).0 ≢ ok (true, x')
    lock_task-exclusive t t' x x' w v keyed e r same_id same_times again =
        let run = lock_task-LockRun g laws o (task_log_repo g) t w (true, x) e in
        let run' = lock_task-LockRun g laws o (task_log_repo g) t' v (true, x') again in
        let won =
          LockRun-IsOvertaken t x w run keyed (LockRun-affected g laws o (task_log_repo g) run e) in
        let kept = Reach-IsOvertaken r won in
        let done = laws.task_laws.updates_ok _ _ run'.before run'.affected run'.updated in
        let same_key : run'.key ≡ run.key =
          ok-injective
            (sym run'.parsed ∙ ap (λ s. checked (to_task_model_id s)) same_id ∙ run.parsed) in
        let none =
          none_reached run'.key t' (laws.view run'.before).tasks
            (rw (ap (λ u. u.tasks) run'.unchanged, same_key, same_times) kept.passed) in
        LockRun-affected g laws o (task_log_repo g) run' again
          (omega (arith, done.2, ap length none))

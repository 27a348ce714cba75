-- ===== src/Mysql/TaskRepo/Lock/Outcome.antt =====
-- What `LockTask` leaves behind, by its answer.
use easytask.Base.{
  ℕ, ◌≡◌, ◌≢◌, select, length, [], refl, sym, ap, ◌∙◌, ◌⊎◌, inl, inr, Bool, true, false, map, ℤ, ok,
  ok-injective, Bool-cases, ◌==◌, arith, continue-eq-ok,
}
use easytask.Outside.{Outside}
use easytask.Task.{Task, incr_run_times}
use easytask.Task.Schedule.{get_sched_next_at}
use easytask.Mysql.Ids.{to_task_model_id, checked}
use easytask.Mysql.Models.Columns.{task_model}
use easytask.Mysql.Gorm.{Gorm, in_scope}
use easytask.Mysql.Gorm.Laws.{GormLaws, updated}
use easytask.Task.Logs.{TaskStartedLogDetail}
use easytask.Mysql.LogRepo.{task_log_repo}
use easytask.Mysql.TaskRepo.Lock.{unchanged_since, lock_updates, locked_by, lock_task}
use easytask.Mysql.TaskRepo.Lock.Runs.{lock_task-LockRun}
use easytask.Mysql.TaskRepo.Lock.Exclusive.{locked_by-tasks}

-- The rows as the update left them, and what the answer means.
pub record Outcome (g : Gorm) (laws : GormLaws g) (o : Outside) (t x : Task) (b : Bool)
    (w v : g.World) : Type 0 where
  pub key : ℕ
  pub now : ℤ
  pub next : ℤ
  pub at : ℤ
  pub parsed : checked (to_task_model_id t.id) ≡ ok key
  pub planned : (later : ℤ) × (get_sched_next_at o.cron_next t later ≡ ok next)
  pub rows :
      (laws.view v).tasks
      ≡ map
          (updated task_model (unchanged_since key t) (lock_updates now next) at)
          (laws.view w).tasks
  pub won :
      b ≡ true
      → (x ≡ incr_run_times t)
        × (select (in_scope task_model (unchanged_since key t)) (laws.view w).tasks ≢ [])
  pub lost : b ≡ false → (x ≡ t) × (laws.view v ≡ laws.view w)

module _ (g : Gorm) (laws : GormLaws g) (o : Outside) where
  locked_by-answer :
      (t x : Task) (b : Bool) (n : ℕ) (w : g.World)
      → (locked_by g o (task_log_repo g) t n w).0 ≡ ok (b, x)
      → ((b ≡ true) × (x ≡ incr_run_times t) × (n ≢ 0))
        ⊎ ((b ≡ false) × (x ≡ t) × (n ≡ 0) × ((locked_by g o (task_log_repo g) t n w).1 ≡ w))
  unfolding locked_by
  locked_by-answer t x b n w e = elim (Bool-cases (n == 0)) [
    | inl none ↦
        let same = ok-injective (rw none at e) in
        inr (sym (ap (λ p. p.0) same), sym (ap (λ p. p.1) same), ground (arith, none), rw none refl)
    | inr some ↦
        let started : TaskStartedLogDetail = record { task = incr_run_times t } in
        let save = (task_log_repo g).save_task_started_log started w in
        let (u, saved, e1, q1) = continue-eq-ok save.0 _ save.1 (rw some at e) in
        let same = ok-injective e1 in
        inl
          (sym (ap (λ p. p.0) same), sym (ap (λ p. p.1) same), (λ zero. ground (arith, zero, some)))
  ]

  -- When LockTask answers, the task's next time was computed and the rows are those of before with
  -- the update of the lock applied to the row that nobody locked since; won, there
  -- was such a row, and the task has one run more; lost, the task is as it was and no table has changed.
  pub lock_task-Outcome :
      (t x : Task) (b : Bool) (w : g.World)
      → (lock_task g o (task_log_repo g) t w).0 ≡ ok (b, x)
      → Outcome g laws o t x b w (lock_task g o (task_log_repo g) t w).1
  lock_task-Outcome t x b w e =
      let run = lock_task-LockRun g laws o (task_log_repo g) t w (b, x) e in
      let done = laws.task_laws.updates_ok _ _ run.before run.affected run.updated in
      let rest =
        (g.tasks.updates (unchanged_since run.key t) (lock_updates run.now run.next)
          run.before).1 in
      let answer =
        locked_by-answer t x b run.affected rest (ap (λ r. r.0) (sym run.returned) ∙ e) in
      record {
        key = run.key;
        now = run.now;
        next = run.next;
        at = done.0;
        parsed = run.parsed;
        planned = run.planned;
        rows =
            ap (λ r. (laws.view r.1).tasks) run.returned
            ∙ locked_by-tasks g laws o t run.affected rest
            ∙ ap (λ v. v.tasks) done.1
            ∙ ap
                (λ v.
                  map
                    (updated task_model (unchanged_since run.key t) (lock_updates run.now run.next)
                      done.0)
                    v.tasks)
                run.unchanged;
        won = λ yes. elim answer [
          | inl (_, more, hit) ↦ (
            more,
            (λ none_there. hit (
                omega (
                  arith,
                  done.2,
                  ap length (
                      ap (λ v. select (in_scope task_model (unchanged_since run.key t)) v.tasks)
                        run.unchanged
                      ∙ none_there),
                ))),
          )
          | inr (lost, _, _, _) ↦ cc
        ];
        lost = λ off. elim answer [
          | inl (won, _, _) ↦ cc
          | inr (_, same, zero, here) ↦ (
            same,
            ap (λ r. laws.view r.1) run.returned
                ∙ ap laws.view here
                ∙ done.1
                ∙ ap (λ ms. record (laws.view run.before) { tasks = ms }) (done.3 zero)
                ∙ run.unchanged,
          )
        ];
      }

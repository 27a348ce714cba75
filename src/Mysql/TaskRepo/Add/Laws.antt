-- ===== src/Mysql/TaskRepo/Add/Laws.antt =====
-- What `AddTask` leaves in the table, by the outcome of its `FirstOrCreate`.
use easytask.Base.{
  ℕ, ◌≡◌, ◌∙◌, [], ℤ, Result, ok, err, Error, some, deref, ap, ok-continue, ◌↔◌, inl, inr,
  Result-cases, Bool-cases, ◌==◌, ok-injective, continue-eq-ok, Text,
}
use easytask.Outside.{Outside}
use easytask.Task.{Task, TaskCallbackSrv}
use easytask.Task.Schedule.{get_sched_next_at}
use easytask.Mysql.Ids.{to_callback_srv_route_model_id, to_task_entity_id, checked}
use easytask.Mysql.Ids.RoundTrip.{to_task_entity_id-ne-nil}
use easytask.Mysql.Models.{TaskModel, to_task_model_sched_mode}
use easytask.Mysql.Gorm.{Gorm}
use easytask.Mysql.Gorm.Laws.{GormLaws}
use easytask.Mysql.TaskRepo.Add.{add_task, same_biz, new_row, stored, renew}

module _ (g : Gorm) (laws : GormLaws g) (o : Outside) where
  -- The calls before the statement on the row.
  pub record Prepared (t : Task) (w : g.World) : Type 0 where
    pub srv : TaskCallbackSrv
    pub srv_key : ℕ
    pub mode : ℤ
    pub next : ℤ
    pub has_srv : t.callback_srv ≡ some srv
    pub parsed : checked (to_callback_srv_route_model_id srv.id) ≡ ok srv_key
    pub known_mode : to_task_model_sched_mode t.sched_mode ≡ ok mode
    pub planned : get_sched_next_at o.cron_next t (g.now w).0 ≡ ok next

  abbrev pub statement : (t : Task) (w : g.World) → Prepared t w → Result (TaskModel × ℕ) × g.World
  statement t w p =
      g.tasks.first_or_create (same_biz (new_row t p.srv_key p.mode p.next))
        (new_row t p.srv_key p.mode p.next) (g.now w).1

  pub add_task-eq :
      (t : Task) (w : g.World) (p : Prepared t w)
      → add_task g o t w
        ≡ stored g o t p.srv_key p.mode p.next (statement t w p).0 (statement t w p).1
  unfolding add_task
  add_task-eq t w p =
      ok-continue _ w (ap deref p.has_srv)
      ∙ ok-continue _ w p.parsed
      ∙ ok-continue _ w p.known_mode
      ∙ ok-continue _ (g.now w).1 p.planned

  -- The id is that of the row that was found or created.
  stored-id :
      (t : Task) (srv_key : ℕ) (mode next : ℤ) (row : TaskModel) (n : ℕ) (id : Text) (w : g.World)
      → (stored g o t srv_key mode next (ok (row, n)) w).0 ≡ ok id
      → to_task_entity_id row.id ≡ id
  unfolding stored
  stored-id t srv_key mode next row n id w e = elim (Bool-cases (n == 0)) [
    | inr made ↦ ok-injective (rw made at e)
    | inl found ↦
        let done = renew g o t srv_key mode next row w in
        let (_, _, e1, _) = continue-eq-ok done.0 _ done.1 (rw found at e) in ok-injective e1
  ]

  -- AddTask reports success with an empty id exactly when the statement that finds or creates the row
  -- has failed; and then no table has changed.
  pub add_task-lost :
      (t : Task) (w : g.World) (p : Prepared t w)
      → ((add_task g o t w).0 ≡ ok []) ↔ (
          (e : Error) × ((statement t w p).0 ≡ err e)
          × (laws.view (add_task g o t w).1 ≡ laws.view w))
  unfolding stored
  add_task-lost t w p = (
    (λ h. elim (Result-cases (statement t w p).0) [
      | inr (e, fails) ↦ (
        e,
        fails,
        rw (add_task-eq t w p, fails)
            (laws.task_laws.first_or_create_err _ _ _ e fails ∙ laws.now_view w),
      )
      | inl ((row, n), good) ↦ absurd (
          to_task_entity_id-ne-nil row.id (
            stored-id t p.srv_key p.mode p.next row n [] (statement t w p).1
              (rw (add_task-eq t w p, good) at h)))
    ]),
    (λ (e, fails, _). rw (add_task-eq t w p, fails)),
  )

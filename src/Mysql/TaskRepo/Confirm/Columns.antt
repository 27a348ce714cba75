-- ===== src/Mysql/TaskRepo/Confirm/Columns.antt =====
-- `ConfirmTask` writes a column that the table of tasks does not have.
use easytask.Base.{
  ℕ, ◌≡◌, refl, ◌∙◌, ◌⊎◌, inl, inr, [], ◌∷◌, ℤ, err, Error, Result-cases, ◌==◌, Bool,
}
use easytask.Task.{TaskResp, Status, success, failed, nil, ready, running}
use easytask.Task.Logs.{TaskLogRepo}
use easytask.Mysql.Ids.{to_task_model_id}
use easytask.Mysql.Column.{Column, int}
use easytask.Mysql.Models.{TaskModel}
use easytask.Mysql.Models.Columns.{task_has}
use easytask.Mysql.Gorm.{Gorm, Query, where_}
use easytask.Mysql.Gorm.Laws.{GormLaws}
use easytask.Mysql.TaskRepo.Confirm.{confirm_task, stamp_result}

module _ (g : Gorm) (laws : GormLaws g) where
  -- An update of an unknown column fails and changes nothing.
  unknown_column :
      (q : Query TaskModel) (c : Column) (v : ℤ) (w : g.World)
      → task_has c ≡ Bool.false
      → (e : Error) × ((g.tasks.updates q ((c, int v) ∷ []) w).0 ≡ err e)
        × (laws.view (g.tasks.updates q ((c, int v) ∷ []) w).1 ≡ laws.view w)
  unknown_column q c v w h = elim (Result-cases (g.tasks.updates q ((c, int v) ∷ []) w).0) [
    | inl (n, e) ↦ cc (h, (laws.task_laws.updates_ok q ((c, int v) ∷ []) w n e).4)
    | inr (x, e) ↦ (x, e, laws.task_laws.updates_err q ((c, int v) ∷ []) w x e)
  ]

  stamp_result-fails :
      (s : Status) (key : ℕ) (now : ℤ) (w : g.World)
      → (s ≡ success) ⊎ (s ≡ failed)
      → (e : Error) × ((stamp_result g s key now w).0 ≡ err e)
        × (laws.view (stamp_result g s key now w).1 ≡ laws.view w)
  unfolding stamp_result task_has
  stamp_result-fails success key now w h =
      let (e, fails, same) =
        unknown_column (where_ ((λ m. m.id == key) ∷ [])) Column.last_success_at now w refl in
      (e, rw fails, rw fails same)
  stamp_result-fails failed key now w h =
      let (e, fails, same) =
        unknown_column (where_ ((λ m. m.id == key) ∷ [])) Column.last_failed_at now w refl in
      (e, rw fails, rw fails same)
  stamp_result-fails nil key now w h = elim h [ inl e ↦ cc | inr e ↦ cc ]
  stamp_result-fails ready key now w h = elim h [ inl e ↦ cc | inr e ↦ cc ]
  stamp_result-fails running key now w h = elim h [ inl e ↦ cc | inr e ↦ cc ]

  -- Confirming a success or a failure always errs: the row, the logs and all other tables stay as they
  -- were, for the update names a column that the table of tasks does not have.
  pub confirm_task-lost :
      (log_repo : TaskLogRepo g.World) (r : TaskResp) (w : g.World)
      → (r.task_status ≡ success) ⊎ (r.task_status ≡ failed)
      → (e : Error) × ((confirm_task g log_repo r w).0 ≡ err e)
        × (laws.view (confirm_task g log_repo r w).1 ≡ laws.view w)
  unfolding confirm_task
  confirm_task-lost log_repo r w h =
      let now = g.now w in
      let (e, fails, same) =
        stamp_result-fails r.task_status (to_task_model_id r.task_id).0 now.0 now.1 h in
      (e, rw fails, rw fails (same ∙ laws.now_view w))

-- ===== src/Mysql/TaskRepo/ById/Deleted.antt =====
-- A task that `DelTaskById` removed is not found any more.
use easytask.Base.{
  ℕ, ◌≡◌, ◌≢◌, ◌<◌, refl, sym, ap, ◌∙◌, inl, inr, false, List, [], ◌∷◌, ◌==◌, map, select,
  Bool-cases, Text, Result, ok, err, arith, continue-eq-ok, ok-injective, Error,
}
use mathlib.Core.List.{Memᴰ}
use easytask.Outside.{Outside}
use easytask.Task.{Task}
use easytask.Task.Repo.{TaskCallbackSrvRepo}
use easytask.Mysql.Ids.{to_task_model_id, checked}
use easytask.Mysql.Models.{TaskModel}
use easytask.Mysql.Models.Columns.{task_model}
use easytask.Mysql.Gorm.{Gorm, Query, where_, in_scope}
use easytask.Mysql.Gorm.Laws.{GormLaws, soft_deleted}
use easytask.Mysql.TaskRepo.ById.{del_task_by_id, get_task_by_id, found}

module _ (key : ℕ) where
  abbrev keyed : Query TaskModel
  keyed = where_ ((λ m. m.id == key) ∷ [])

  -- A deletion by key leaves no live row under the key.
  keyed-none :
      (at : ℕ) (rows : List TaskModel)
      → 0 < at
      → select (in_scope task_model keyed) (map (soft_deleted task_model keyed at) rows) ≡ []
  keyed-none at [] h = refl
  keyed-none at (m ∷ rows) h = elim (Bool-cases (in_scope task_model keyed m)) [
    | inl hit ↦ rw (hit, out m) (keyed-none at rows h)
    | inr miss ↦ rw (miss, miss) (keyed-none at rows h)
  ]
    where
      out :
          (m : TaskModel)
          → in_scope task_model keyed (task_model.with_base m (record m.base { deleted_at = at }))
            ≡ false
      out m = ground arith

module _ (g : Gorm) (laws : GormLaws g) where
  found-ok : (r : Result TaskModel) (m : TaskModel) → found g r ≡ ok m → r ≡ ok m
  found-ok (ok x) m e = e
  found-ok (err Error.record_not_found) m e = cc
  found-ok (err (Error.biz c s)) m e = cc
  found-ok (err (Error.new s)) m e = cc
  found-ok (err Error.num_syntax) m e = cc
  found-ok (err Error.num_range) m e = cc
  found-ok (err Error.panic) m e = cc
  found-ok (err (Error.foreign n)) m e = cc

  -- What a task that was read and a task that was deleted say of the rows.
  get_task_by_id-Memᴰ :
      (o : Outside) (srv_repo : TaskCallbackSrvRepo g.World) (id : Text) (w : g.World) (t : Task)
      → (get_task_by_id g o srv_repo id w).0 ≡ ok t
      → (key : ℕ) × (checked (to_task_model_id id) ≡ ok key)
        × (m : TaskModel) × Memᴰ m (select (in_scope task_model (keyed key)) (laws.view w).tasks)
  unfolding get_task_by_id
  get_task_by_id-Memᴰ o srv_repo id w t e =
      let (key, parsed, e1, q1) = continue-eq-ok (checked (to_task_model_id id)) _ w e in
      let taken = g.tasks.take (keyed key) w in
      let (m, read, e2, q2) = continue-eq-ok (found g taken.0) _ taken.1 e1 in
      (key, parsed, m, laws.task_laws.take_ok (keyed key) w m (found-ok taken.0 m read))

  del_task_by_id-tasks :
      (id : Text) (w : g.World)
      → (del_task_by_id g id w).0 ≡ ok tt
      → (key : ℕ) × (checked (to_task_model_id id) ≡ ok key)
        × (at : ℕ) × (0 < at)
        × ((laws.view (del_task_by_id g id w).1).tasks
            ≡ map (soft_deleted task_model (keyed key) at) (laws.view w).tasks)
  unfolding del_task_by_id
  del_task_by_id-tasks id w e =
      let (key, parsed, e1, q1) = continue-eq-ok (checked (to_task_model_id id)) _ w e in
      let gone = g.tasks.delete (keyed key) w in
      let (n, deleted, e2, q2) = continue-eq-ok gone.0 _ gone.1 e1 in
      let (at, later, become) = laws.task_laws.delete_ok (keyed key) w n deleted in
      (key, parsed, at, later, ap (λ r. (laws.view r.1).tasks) (q1 ∙ q2) ∙ ap (λ v. v.tasks) become)

  -- After DelTaskById of an id has succeeded, GetTaskById of that id does not return a task, whatever
  -- the repository of the services answers.
  pub del_task_by_id-get_task_by_id :
      (o : Outside) (srv_repo : TaskCallbackSrvRepo g.World) (id : Text) (w : g.World) (t : Task)
      → (del_task_by_id g id w).0 ≡ ok tt
      → (get_task_by_id g o srv_repo id (del_task_by_id g id w).1).0 ≢ ok t
  del_task_by_id-get_task_by_id o srv_repo id w t e again =
      let (key, parsed, at, later, rows) = del_task_by_id-tasks id w e in
      let (key', parsed', m, there) =
        get_task_by_id-Memᴰ o srv_repo id (del_task_by_id g id w).1 t again in
      let same : key' ≡ key = ok-injective (sym parsed' ∙ parsed) in
      nowhere (rw (same, rows, keyed-none key at (laws.view w).tasks later) at there)
    where
      nowhere : {m : TaskModel} → Memᴰ m [] → ⊥
      nowhere h = elim h [ ]

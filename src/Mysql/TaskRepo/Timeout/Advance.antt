-- ===== src/Mysql/TaskRepo/Timeout/Advance.antt =====
-- The cursor of `TimeoutTasks` moves forward.
use easytask.Base.{
  ℕ, ◌≡◌, ◌≢◌, ◌<◌, ◌^◌, refl, sym, ap, ◌∙◌, List, [], ◌∷◌, All, All-take, All-select_of, All-both,
  Text, ok, arith, ok-injective,
}
use easytask.Outside.{Outside}
use easytask.Task.{Task, TaskCallbackSrv}
use easytask.Task.Repo.{TaskCallbackSrvRepo}
use easytask.Mysql.Ids.{to_task_entity_id, to_task_model_id, checked}
use easytask.Mysql.Ids.RoundTrip.{to_task_model_id-to_task_entity_id, to_task_entity_id-ne-nil}
use easytask.Mysql.Models.{TaskModel}
use easytask.Mysql.Models.Columns.{task_model}
use easytask.Mysql.Gorm.{Gorm, in_scope}
use easytask.Mysql.Gorm.Laws.{GormLaws}
use easytask.Mysql.TaskRepo.Timeout.{cursor_id, last_id, due, timeout_tasks}
use easytask.Mysql.TaskRepo.Timeout.Due.{
  EachStems, none_left, skipped, shown, IsDueRow, timeout_tasks-due,
}

module _ (o : Outside) (srvs : List TaskCallbackSrv) (P : TaskModel → Type 0) where
  -- The last task of a page stems from one of the rows.
  pub EachStems-last :
      {ms : List TaskModel} {ts : List Task}
      → EachStems o srvs ms ts
      → All P ms
      → ts ≢ []
      → (m : TaskModel) × P m × (last_id ts ≡ to_task_entity_id m.id)
  EachStems-last none_left a h = absurd (h refl)
  EachStems-last (skipped h) (p, a) some = EachStems-last h a some
  EachStems-last {ms = m ∷ ms} {ts = t ∷ []} (shown s h) (p, a) some = (m, p, s.same_id)
  EachStems-last {ms = m ∷ ms} {ts = t ∷ (t' ∷ ts)} (shown s h) (p, a) some =
      EachStems-last h a (λ e. cc)

module _ (g : Gorm) (laws : GormLaws g) (o : Outside) (srv_repo : TaskCallbackSrvRepo g.World) where
  cursor_id-ne_nil : (s : Text) → s ≢ [] → cursor_id g o srv_repo s ≡ checked (to_task_model_id s)
  cursor_id-ne_nil [] h = absurd (h refl)
  cursor_id-ne_nil (c ∷ s) h = refl

  pub cursor_id-to_task_entity_id :
      (n : ℕ) → n < 2 ^ 64 → cursor_id g o srv_repo (to_task_entity_id n) ≡ ok n
  cursor_id-to_task_entity_id n h =
      cursor_id-ne_nil (to_task_entity_id n) (to_task_entity_id-ne-nil n)
      ∙ ap checked (to_task_model_id-to_task_entity_id n (omega arith))

  -- Where the keys of the table are 64-bit, the cursor that TimeoutTasks returns beside some tasks is
  -- the text of a key above the key of the cursor that it was given.
  pub timeout_tasks-cursor_id :
      (size : ℕ) (cursor : Text) (w : g.World) (ts : List Task) (next : Text) (key : ℕ)
      → All (λ m. m.id < 2 ^ 64) (laws.view w).tasks
      → (timeout_tasks g o srv_repo size cursor w).0 ≡ ok (ts, next)
      → ts ≢ []
      → cursor_id g o srv_repo cursor ≡ ok key
      → (later : ℕ) × (cursor_id g o srv_repo next ≡ ok later) × (key < later)
  timeout_tasks-cursor_id size cursor w ts next key bounded e some here =
      let page = timeout_tasks-due g laws o srv_repo size cursor w ts next e in
      let (key', rows, srvs, parsed, first, due_rows, stems, short, last) = page in
      let same : key ≡ key' = ok-injective (sym here ∙ parsed) in
      let q = due key' (g.now w).0 in
      let B : TaskModel → Type 0 = λ m. m.id < 2 ^ 64 in
      let D : TaskModel → Type 0 = IsDueRow g laws o srv_repo key' (g.now w).0 in
      let narrow : All B rows =
        rw first (
          All-take B size _
            (All-select_of B (in_scope task_model q) (laws.view w).tasks bounded)) in
      let (m, (small, is_due), at) =
        EachStems-last o srvs (λ m. B m × D m) stems (All-both B D rows narrow due_rows) some in
      (
        m.id,
        ap (cursor_id g o srv_repo) (last ∙ at) ∙ cursor_id-to_task_entity_id m.id small,
        omega (arith, is_due.2, same),
      )

-- ===== src/Mysql/TaskRepo/Add/Registered.antt =====
-- What a successful `AddTask` leaves under the task's key.
use easytask.Base.{
  ℕ, ◌≡◌, ◌<◌, refl, sym, ap, ◌∙◌, inl, inr, [], ◌∷◌, ◌++◌, ℤ, Text, ok, Bool, true, ◌==◌, List,
  All, any, select, Bool-cases, arith, ok-injective, Result-cases,
}
use mathlib.Core.Path.{subst}
use easytask.Outside.{Outside}
use easytask.Task.{Task}
use easytask.Mysql.Ids.{to_task_entity_id}
use easytask.Mysql.Models.{TaskModel}
use easytask.Mysql.Models.Columns.{task_model}
use easytask.Mysql.Gorm.{Gorm}
use easytask.Mysql.Gorm.Laws.{GormLaws, Created}
use easytask.Mysql.TaskRepo.Lock.Overtaken.{present-map}
use easytask.Mysql.TaskRepo.Add.{add_task, same_biz, new_row, stored, renewal}
use easytask.Mysql.TaskRepo.Add.Laws.{Prepared, statement, add_task-eq}
use easytask.Mysql.TaskRepo.Add.Renewed.{
  Registered, Created-Registered, by_key, renewal-id, renewal-All,
}

selected-any :
    (p : TaskModel → Bool) (rows rest : List TaskModel) (row : TaskModel)
    → select p rows ≡ row ∷ rest
    → any (λ m. m.id == row.id) rows ≡ true
selected-any p [] rest row e = cc
selected-any p (m ∷ rows) rest row e = elim (Bool-cases (p m)) [
  | inl hit ↦ first m row rows (cons-head (rw hit at e))
  | inr miss ↦ later m row rows (selected-any p rows rest row (rw miss at e))
]
  where
    cons-head : {x y : TaskModel} {xs ys : List TaskModel} → x ∷ xs ≡ y ∷ ys → x ≡ y
    cons-head e = cc

    first :
        (m row : TaskModel) (rows : List TaskModel)
        → m ≡ row
        → any (λ x. x.id == row.id) (m ∷ rows) ≡ true
    first m row rows e = ground (arith, ap (λ x. x.id) e)

    later :
        (m row : TaskModel) (rows : List TaskModel)
        → any (λ x. x.id == row.id) rows ≡ true
        → any (λ x. x.id == row.id) (m ∷ rows) ≡ true
    later m row rows e = ground (arith, e)

-- Rows below a fresh key, and the row under it.
appended-All :
    (P : TaskModel → Type 0) (rows : List TaskModel) (row : TaskModel)
    → All (λ m. m.id < row.id) rows
    → P row
    → All (λ m. m.id ≡ row.id → P m) (rows ++ row ∷ [])
appended-All P [] row h p = ((λ e. p), tt)
appended-All P (m ∷ rows) row (lt, h) p =
    ((λ e. absurd (omega (arith, lt, e))), appended-All P rows row h p)

appended-any :
    (rows : List TaskModel) (row : TaskModel) → any (λ m. m.id == row.id) (rows ++ row ∷ []) ≡ true
appended-any [] row = ground arith
appended-any (m ∷ rows) row = ground (arith, appended-any rows row)

module _ (g : Gorm) (laws : GormLaws g) (o : Outside) where
  -- A row is there under the key, and every row there holds the task.
  abbrev pub Under : Task → ℕ → ℤ → ℤ → ℕ → g.World → Type 0
  Under t srv_key mode next key w =
      (any (λ m. m.id == key) (laws.view w).tasks ≡ true)
      × All (λ m. m.id ≡ key → Registered t srv_key mode next m) (laws.view w).tasks

  Created-Under :
      (t : Task) (srv_key : ℕ) (mode next : ℤ) (row : TaskModel) (rows : List TaskModel)
      (w : g.World)
      → Created task_model rows (new_row t srv_key mode next) row
      → (laws.view w).tasks ≡ rows ++ row ∷ []
      → Under t srv_key mode next row.id w
  Created-Under t srv_key mode next row rows w c e =
      let key : row.id ≡ c.key = ap (λ m. m.id) c.stored in
      rw e (
        appended-any rows row,
        appended-All (Registered t srv_key mode next) rows row (rw key c.fresh)
            (Created-Registered t srv_key mode next rows row c),
      )

  stored-Under :
      (t : Task) (srv_key : ℕ) (mode next : ℤ) (row : TaskModel) (id : Text) (w : g.World)
      → any (λ m. m.id == row.id) (laws.view w).tasks ≡ true
      → (stored g o t srv_key mode next (ok (row, 0)) w).0 ≡ ok id
      → (id ≡ to_task_entity_id row.id)
        × Under t srv_key mode next row.id (stored g o t srv_key mode next (ok (row, 0)) w).1
  unfolding stored
  stored-Under t srv_key mode next row id w there e =
      let q = by_key t srv_key mode next row.id in
      let xs = renewal t srv_key mode next row in
      let done = g.tasks.updates q xs w in
      elim (Result-cases done.0) [
        | inr (x, bad) ↦ cc (rw bad at e)
        | inl (k, good) ↦
            let (at, become, few, idle, columns) = laws.task_laws.updates_ok q xs w k good in
            let rows : (laws.view done.1).tasks ≡ _ = ap (λ v. v.tasks) become in
            rw good (
              sym (ok-injective (rw good at e)),
              (
                rw rows (
                    present-map row.id row.run_times _ (laws.view w).tasks
                      (λ m. renewal-id t srv_key mode next row m at)
                    ∙ there),
                rw rows (renewal-All t srv_key mode next row at (laws.view w).tasks),
              ),
            )
      ]

  -- A row that was created is left as it is.
  stored-created :
      (t : Task) (srv_key : ℕ) (mode next : ℤ) (row : TaskModel) (w : g.World)
      → stored g o t srv_key mode next (ok (row, 1)) w ≡ (ok (to_task_entity_id row.id), w)
  unfolding stored
  stored-created t srv_key mode next row w = refl

  -- When AddTask gets past the statement that finds or creates the row and returns an id, the id is that
  -- of a row's key, a row is there under it, and every row under it is live and holds the task's
  -- schedule mode, next time, service, path, argument and time parameters.
  pub add_task-Registered :
      (t : Task) (w : g.World) (p : Prepared g laws o t w) (row : TaskModel) (n : ℕ) (id : Text)
      → (statement g laws o t w p).0 ≡ ok (row, n)
      → (add_task g o t w).0 ≡ ok id
      → (id ≡ to_task_entity_id row.id)
        × Under t p.srv_key p.mode p.next row.id (add_task g o t w).1
  add_task-Registered t w p row n id e added =
      let found =
        g.tasks.first_or_create (same_biz (new_row t p.srv_key p.mode p.next))
          (new_row t p.srv_key p.mode p.next) (g.now w).1 in
      let here = found.1 in
      let whole : add_task g o t w ≡ stored g o t p.srv_key p.mode p.next (ok (row, n)) here =
        add_task-eq g laws o t w p ∙ ap (λ r. stored g o t p.srv_key p.mode p.next r here) e in
      let law = laws.task_laws.first_or_create_ok _ _ (g.now w).1 row n e in
      let Goal : ℕ → Type 0 = λ k.
        (id ≡ to_task_entity_id row.id)
        × Under t p.srv_key p.mode p.next row.id
            (stored g o t p.srv_key p.mode p.next (ok (row, k)) here).1 in
      let stored_ok = rw whole at added in
      rw whole (elim law [
        | inl (zero, same, rest, hit) ↦
            subst
              (λ k. (stored g o t p.srv_key p.mode p.next (ok (row, k)) here).0 ≡ ok id → Goal k)
              (sym zero)
              (stored-Under t p.srv_key p.mode p.next row id here (
                rw (ap (λ v. v.tasks) same)
                  (selected-any _ (laws.view (g.now w).1).tasks rest row hit)))
              stored_ok
        | inr (one, none, fresh, become) ↦ subst Goal (sym one) (
            let made = stored-created t p.srv_key p.mode p.next row here in
            (
              sym (ok-injective (sym (ap (λ r. r.0) made) ∙ (rw one at stored_ok))),
              rw made (
                  Created-Under t p.srv_key p.mode p.next row (laws.view (g.now w).1).tasks here
                    fresh (ap (λ v. v.tasks) become)),
            ))
      ])

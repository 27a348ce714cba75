-- ===== src/Mysql/TaskRepo/Add/Renewed.antt =====
-- A row that holds a task: new, or as the updates of `AddTask` leave it.
use easytask.Base.{
  ℕ, ◌≡◌, refl, sym, ◌∙◌, inl, inr, [], ◌∷◌, ℤ, Bool, true, false, ◌==◌, List, All, map, Bool-cases,
  if◌then◌else◌, arith,
}
use easytask.Task.{Task}
use easytask.Mysql.Models.{TaskModel}
use easytask.Mysql.Models.Columns.{task_model, set_task}
use easytask.Mysql.Gorm.{Query, in_scope, unscoped_where}
use easytask.Mysql.Gorm.Laws.{assign, updated, Created}
use easytask.Mysql.TaskRepo.Lock.Counter.{assign-id}
use easytask.Mysql.TaskRepo.Add.{new_row, renewal, allowed_runs}
use easytask.Mysql.Column.{Column, Value, int, uint, text, plus}

-- A live row that holds what a task was registered with.
pub record Registered (t : Task) (srv_key : ℕ) (mode next : ℤ) (m : TaskModel) : Type 0 where
  pub live : m.deleted_at ≡ 0
  pub same_mode : m.sched_mode ≡ mode
  pub planned : m.plan_sched_next_at ≡ next
  pub same_srv : m.callback_srv_id ≡ srv_key
  pub same_path : m.callback_path ≡ t.callback_path
  pub same_arg : m.arg ≡ t.arg
  pub same_cron : m.time_cron_expr ≡ t.time_cron_expr
  pub same_interval : m.time_interval_sec ≡ t.time_interval_sec

module _ (t : Task) (srv_key : ℕ) (mode next : ℤ) where
  pub Created-Registered :
      (rows : List TaskModel) (row : TaskModel)
      → Created task_model rows (new_row t srv_key mode next) row
      → Registered t srv_key mode next row
  unfolding new_row
  Created-Registered rows row c = rw c.stored (record {
    live = refl;
    same_mode = refl;
    planned = refl;
    same_srv = refl;
    same_path = refl;
    same_arg = refl;
    same_cron = refl;
    same_interval = refl;
  })

  abbrev pub by_key : ℕ → Query TaskModel
  by_key key = unscoped_where ((λ m. m.id == key) ∷ [])

  -- The renewal, by whether the runs are counted on.
  abbrev with_runs : Bool → TaskModel → List (Column × Value)
  with_runs b row =
      (Column.sched_mode, int mode)
      ∷ (Column.time_cron_expr, text t.time_cron_expr)
      ∷ (Column.time_interval_sec, int t.time_interval_sec)
      ∷ (Column.plan_sched_next_at, int next)
      ∷ (Column.callback_srv_id, uint srv_key)
      ∷ (Column.callback_path, text t.callback_path)
      ∷ (
        Column.allow_max_run_times,
        (if b
            then plus Column.run_times (allowed_runs t.sched_mode)
            else int (allowed_runs t.sched_mode)),
      )
      ∷ (Column.max_run_time_sec, int row.max_run_time_sec)
      ∷ (Column.deleted_at, uint 0)
      ∷ (Column.arg, text t.arg)
      ∷ []

  assign-Registered :
      (b : Bool) (row m : TaskModel)
      → Registered t srv_key mode next (assign task_model (with_runs b row) m)
  unfolding assign set_task
  assign-Registered true row m = record {
    live = refl;
    same_mode = refl;
    planned = refl;
    same_srv = refl;
    same_path = refl;
    same_arg = refl;
    same_cron = refl;
    same_interval = refl;
  }
  assign-Registered false row m = record {
    live = refl;
    same_mode = refl;
    planned = refl;
    same_srv = refl;
    same_path = refl;
    same_arg = refl;
    same_cron = refl;
    same_interval = refl;
  }

  -- The time of the update is no part of it.
  touched-Registered :
      (m : TaskModel) (at : ℤ)
      → Registered t srv_key mode next m
      → Registered t srv_key mode next (record m { base = record m.base { updated_at = at } })
  touched-Registered m at h = record {
    live = h.live;
    same_mode = h.same_mode;
    planned = h.planned;
    same_srv = h.same_srv;
    same_path = h.same_path;
    same_arg = h.same_arg;
    same_cron = h.same_cron;
    same_interval = h.same_interval;
  }

  renewal-Registered :
      (row m : TaskModel) (at : ℤ)
      → m.id ≡ row.id
      → Registered t srv_key mode next
          (updated task_model (by_key row.id) (renewal t srv_key mode next row) at m)
  renewal-Registered row m at e =
      rw (reached_by m row e) (touched-Registered _ at (assign-Registered _ row m))
    where
      reached_by :
          (m row : TaskModel) → m.id ≡ row.id → in_scope task_model (by_key row.id) m ≡ true
      reached_by m row e = ground (arith, e)

  pub renewal-id :
      (row m : TaskModel) (at : ℤ)
      → (updated task_model (by_key row.id) (renewal t srv_key mode next row) at m).id ≡ m.id
  renewal-id row m at = elim (Bool-cases (in_scope task_model (by_key row.id) m)) [
    | inl hit ↦ rw hit (assign-id (renewal t srv_key mode next row) m)
    | inr miss ↦ rw miss
  ]

  -- The rows under the key after the update.
  pub renewal-All :
      (row : TaskModel) (at : ℤ) (rows : List TaskModel)
      → All
          (λ m. m.id ≡ row.id → Registered t srv_key mode next m)
          (map (updated task_model (by_key row.id) (renewal t srv_key mode next row) at) rows)
  renewal-All row at [] = tt
  renewal-All row at (m ∷ rows) =
      ((λ e. renewal-Registered row m at (sym (renewal-id row m at) ∙ e)), renewal-All row at rows)

-- ===== src/Mysql/TaskRepo/Lock/Counter.antt =====
-- What assignments of an update do to the key and to the run counter of a task's row.
use easytask.Base.{◌≡◌, refl, ◌∙◌, Bool, true, false, List, [], ◌∷◌, All}
use easytask.Mysql.Column.{Column, Value, int, uint, text, plus}
use easytask.Mysql.Models.{TaskModel}
use easytask.Mysql.Models.Columns.{set_task, task_model}
use easytask.Mysql.Gorm.Laws.{assign}

abbrev pub is_run_times : Column → Bool
is_run_times Column.run_times = true
is_run_times _ = false

-- No assignment sets the counter of the runs.
abbrev pub LeavesRuns : List (Column × Value) → Type 0
LeavesRuns xs = All (λ x. is_run_times x.0 ≡ false) xs

set_task-id : (c : Column) (v : Value) (m : TaskModel) → (set_task c v m).id ≡ m.id
unfolding set_task
set_task-id Column.deleted_at (uint n) m = refl
set_task-id Column.arg (text v) m = refl
set_task-id Column.last_run_at (int v) m = refl
set_task-id Column.plan_sched_next_at (int v) m = refl
set_task-id Column.time_cron_expr (text v) m = refl
set_task-id Column.time_interval_sec (int v) m = refl
set_task-id Column.sched_mode (int v) m = refl
set_task-id Column.callback_srv_id (uint v) m = refl
set_task-id Column.run_times (plus Column.run_times n) m = refl
set_task-id Column.allow_max_run_times (int v) m = refl
set_task-id Column.allow_max_run_times (plus Column.run_times n) m = refl
set_task-id Column.max_run_time_sec (int v) m = refl
set_task-id Column.callback_path (text v) m = refl
set_task-id _ _ m = refl

set_task-run_times :
    (c : Column) (v : Value) (m : TaskModel)
    → is_run_times c ≡ false
    → (set_task c v m).run_times ≡ m.run_times
unfolding set_task
set_task-run_times Column.deleted_at (uint n) m h = refl
set_task-run_times Column.arg (text v) m h = refl
set_task-run_times Column.last_run_at (int v) m h = refl
set_task-run_times Column.plan_sched_next_at (int v) m h = refl
set_task-run_times Column.time_cron_expr (text v) m h = refl
set_task-run_times Column.time_interval_sec (int v) m h = refl
set_task-run_times Column.sched_mode (int v) m h = refl
set_task-run_times Column.callback_srv_id (uint v) m h = refl
set_task-run_times Column.run_times v m h = cc
set_task-run_times Column.allow_max_run_times (int v) m h = refl
set_task-run_times Column.allow_max_run_times (plus Column.run_times n) m h = refl
set_task-run_times Column.max_run_time_sec (int v) m h = refl
set_task-run_times Column.callback_path (text v) m h = refl
set_task-run_times _ _ m h = refl

pub assign-id : (xs : List (Column × Value)) (m : TaskModel) → (assign task_model xs m).id ≡ m.id
unfolding assign
assign-id [] m = refl
assign-id ((c, v) ∷ xs) m = assign-id xs (set_task c v m) ∙ set_task-id c v m

pub assign-run_times :
    (xs : List (Column × Value)) (m : TaskModel)
    → LeavesRuns xs
    → (assign task_model xs m).run_times ≡ m.run_times
unfolding assign
assign-run_times [] m h = refl
assign-run_times ((c, v) ∷ xs) m (p, h) =
    assign-run_times xs (set_task c v m) h ∙ set_task-run_times c v m p

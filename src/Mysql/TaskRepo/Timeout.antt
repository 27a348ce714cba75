-- ===== src/Mysql/TaskRepo/Timeout.antt =====
-- `TimeoutTasks` of internal/task/impl/repo/mysql/task_repo.go: a page of the tasks that are due.
pub mod Due
pub mod Advance
pub mod Complete
pub mod Unknown
use easytask.Base.{
  ℕ, ◌&&◌, ltb, Bool, true, false, List, [], ◌∷◌, is_empty, last?, Option, none, some,
  if◌then◌else◌, ℤ, ltb_ℤ, leb_ℤ, Text, text_eq, text_mem, Io, ◌>>=◌, pure, lift, Result, ok, err,
}
use easytask.Outside.{Outside}
use easytask.Task.{Task, TaskCallbackSrv, new_task}
use easytask.Task.Repo.{TaskCallbackSrvRepo}
use easytask.Mysql.Ids.{
  to_task_model_id, to_callback_srv_route_entity_id, to_task_callback_srv_entity_id, checked,
}
use easytask.Mysql.Models.{TaskModel, to_task_entity_sched_mode}
use easytask.Mysql.Gorm.{Gorm, Query, where_}
use easytask.Mysql.LogRepo.{clock}
use easytask.Mysql.TaskRepo.Rows.{timeout_req}

-- The loop over the plucked service ids: each text once, in the order of its first row.
unfoldable pub distinct_srv_ids : List Text → List TaskModel → List Text
unfolding text_mem to_callback_srv_route_entity_id
distinct_srv_ids seen [] = []
distinct_srv_ids seen (m ∷ ms) =
    let srv_id = to_callback_srv_route_entity_id m.callback_srv_id in
    let again = distinct_srv_ids seen ms in
    let new_one = srv_id ∷ distinct_srv_ids (srv_id ∷ seen) ms in
    if text_mem srv_id seen then again else new_one

-- The map from ids to services: of two with one id the later stays.
unfoldable pub find_srv : Text → List TaskCallbackSrv → Option TaskCallbackSrv
unfolding text_eq
find_srv key [] = none
find_srv key (s ∷ ss) = elim (find_srv key ss) [
  | some later ↦ some later
  | none ↦ if text_eq s.id key then some s else none
]

module _ (o : Outside) (srvs : List TaskCallbackSrv) where
  -- A row whose service is known, as a task.
  unfoldable pub row_task : TaskCallbackSrv → TaskModel → Result Task
  unfolding new_task to_task_entity_sched_mode
  row_task srv m = elim (to_task_entity_sched_mode m.sched_mode) [
    | err e ↦ err e
    | ok mode ↦ new_task o.check_new_task_req (timeout_req srv mode m)
  ]

  abbrev pub add_row : Result Task → Result (List Task) → Result (List Task)
  add_row (err e) _ = err e
  add_row (ok t) (err e) = err e
  add_row (ok t) (ok ts) = ok (t ∷ ts)

  -- The loop over the rows: a row without its service is skipped, and the first error ends it.
  unfoldable pub rows_tasks : List TaskModel → Result (List Task)
  unfolding find_srv row_task
  rows_tasks [] = ok []
  rows_tasks (m ∷ ms) =
      let rest = rows_tasks ms in
      elim (find_srv (to_task_callback_srv_entity_id m.callback_srv_id) srvs) [
        | none ↦ rest
        | some srv ↦ add_row (row_task srv m) rest
      ]

abbrev pub last_id : List Task → Text
last_id ts = elim (last? ts) [ none ↦ [] | some t ↦ t.id ]

-- The conditions of the query, beside that the row is live.
abbrev pub is_due : ℕ → ℤ → TaskModel → Bool
is_due cursor now m =
    ltb cursor m.id && ltb_ℤ m.run_times m.allow_max_run_times && leb_ℤ m.plan_sched_next_at now

abbrev pub due : ℕ → ℤ → Query TaskModel
due cursor now = where_ (
    (λ m. ltb cursor m.id)
    ∷ (λ m. ltb_ℤ m.run_times m.allow_max_run_times)
    ∷ (λ m. leb_ℤ m.plan_sched_next_at now)
    ∷ [])

module _ (g : Gorm) (o : Outside) (srv_repo : TaskCallbackSrvRepo g.World) where
  -- What follows the query: the services of the rows, the tasks, and the next cursor.
  unfoldable pub page_of : List TaskModel → Io g.World (List Task × Text)
  unfolding distinct_srv_ids rows_tasks
  page_of rows = if is_empty rows then pure ([], []) else do
    srvs ← srv_repo.get_srvs_by_ids (distinct_srv_ids [] rows)
    tasks ← lift (rows_tasks o srvs rows)
    pure (tasks, last_id tasks)

  -- The empty cursor is before all keys.
  abbrev pub cursor_id : Text → Result ℕ
  cursor_id cursor = if is_empty cursor then ok 0 else checked (to_task_model_id cursor)

  unfoldable pub timeout_tasks : ℕ → Text → Io g.World (List Task × Text)
  unfolding to_task_model_id page_of
  timeout_tasks size cursor = do
    key ← lift (cursor_id cursor)
    now ← clock g
    rows ← g.tasks.find (due key now) (record { limit = some size; offset = 0; by_id = true })
    page_of rows

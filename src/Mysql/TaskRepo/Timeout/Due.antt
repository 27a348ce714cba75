-- ===== src/Mysql/TaskRepo/Timeout/Due.antt =====
-- What a page of `TimeoutTasks` holds.
use easytask.Base.{
  ℕ, ◌≡◌, ◌≤◌, ◌<◌, refl, sym, ap, ◌∙◌, inl, inr, true, List, [], ◌∷◌, length, some, ℤ, pos, ◌<ℤ◌,
  ◌≤ℤ◌, Text, Result, ok, err, Result-cases, Option-cases, arith, ok-injective, All, All-take,
  All-map_of, All-select, select, take, length-take, continue-eq-ok,
}
use easytask.Outside.{Outside}
use easytask.Task.{Task, TaskCallbackSrv, new_task}
use easytask.Mysql.Ids.{to_task_entity_id, to_task_callback_srv_entity_id}
use easytask.Mysql.Models.{TaskModel, to_task_entity_sched_mode}
use easytask.Mysql.TaskRepo.Timeout.{
  row_task, rows_tasks, find_srv, add_row, distinct_srv_ids, last_id, due, page_of, cursor_id,
  timeout_tasks,
}
use easytask.Mysql.Models.Columns.{task_model}
use easytask.Mysql.Gorm.{Gorm, Window, in_scope}
use easytask.Mysql.Gorm.Laws.{GormLaws}
use easytask.Task.Repo.{TaskCallbackSrvRepo}
use easytask.Mysql.TaskRepo.Rows.{timeout_req}

-- How a task of a page stems from a row.
pub record StemsFrom (m : TaskModel) (srvs : List TaskCallbackSrv) (t : Task) : Type 0 where
  pub same_id : t.id ≡ to_task_entity_id m.id
  pub same_runs : t.run_times ≡ m.run_times
  pub same_last : t.last_run_at ≡ m.last_run_at
  pub same_bound : t.allow_max_run_times ≡ m.allow_max_run_times
  pub same_mode : to_task_entity_sched_mode m.sched_mode ≡ ok t.sched_mode
  pub no_longest_run : t.max_run_time_sec ≡ pos 0
  pub known_srv : find_srv (to_task_callback_srv_entity_id m.callback_srv_id) srvs ≡ t.callback_srv

module _ (o : Outside) (srvs : List TaskCallbackSrv) where
  pub row_task-StemsFrom :
      (srv : TaskCallbackSrv) (m : TaskModel) (t : Task)
      → find_srv (to_task_callback_srv_entity_id m.callback_srv_id) srvs ≡ some srv
      → row_task o srvs srv m ≡ ok t
      → StemsFrom m srvs t
  unfolding row_task new_task
  row_task-StemsFrom srv m t known e =
      elim (Result-cases (to_task_entity_sched_mode m.sched_mode)) [
        | inr (x, bad) ↦ cc
        | inl (mode, good) ↦ elim (Option-cases (o.check_new_task_req (timeout_req srv mode m))) [
          | inr (x, bad) ↦ cc
          | inl fine ↦
              let same = ok-injective (rw (row_task, new_task, good, fine) at e) in
              record {
                same_id = ap (λ x. x.id) (sym same);
                same_runs = ap (λ x. x.run_times) (sym same);
                same_last = ap (λ x. x.last_run_at) (sym same);
                same_bound = ap (λ x. x.allow_max_run_times) (sym same);
                same_mode = good ∙ ap (λ x. ok x.sched_mode) same;
                no_longest_run = ap (λ x. x.max_run_time_sec) (sym same);
                known_srv = known ∙ ap (λ x. x.callback_srv) same;
              }
        ]
      ]

  -- The tasks of a list of rows, in their order: some rows may be left out.
  pub data EachStems : List TaskModel → List Task → Type 0 where
    none_left : EachStems [] []
    skipped :
        {m : TaskModel} {ms : List TaskModel} {ts : List Task}
        → EachStems ms ts
        → EachStems (m ∷ ms) ts
    shown :
        {m : TaskModel} {ms : List TaskModel} {t : Task} {ts : List Task}
        → StemsFrom m srvs t
        → EachStems ms ts
        → EachStems (m ∷ ms) (t ∷ ts)

  pub add_row-ok :
      (r : Result Task) (rs : Result (List Task)) (ts : List Task)
      → add_row o srvs r rs ≡ ok ts
      → (t : Task) × (rest : List Task) × (r ≡ ok t) × (rs ≡ ok rest) × ((t ∷ rest) ≡ ts)
  add_row-ok (err x) rs ts h = cc
  add_row-ok (ok t) (err x) ts h = cc
  add_row-ok (ok t) (ok rest) ts h = (t, rest, refl, refl, ok-injective h)

  pub rows_tasks-EachStems :
      (ms : List TaskModel) (ts : List Task) → rows_tasks o srvs ms ≡ ok ts → EachStems ms ts
  unfolding rows_tasks
  rows_tasks-EachStems [] ts e = rw (sym (ok-injective e)) none_left
  rows_tasks-EachStems (m ∷ ms) ts e =
      elim (Option-cases (find_srv (to_task_callback_srv_entity_id m.callback_srv_id) srvs)) [
        | inl unknown ↦ skipped (rows_tasks-EachStems ms ts (rw (rows_tasks, unknown) at e))
        | inr (srv, known) ↦
            let e' : add_row o srvs (row_task o srvs srv m) (rows_tasks o srvs ms) ≡ ok ts =
              rw (rows_tasks, known) at e in
            let (t, rest, first, others, whole) = add_row-ok _ _ ts e' in
            rw (sym whole)
              (shown (row_task-StemsFrom srv m t known first) (rows_tasks-EachStems ms rest others))
      ]

  pub EachStems-length :
      {ms : List TaskModel} {ts : List Task} → EachStems ms ts → length ts ≤ length ms
  EachStems-length none_left = omega arith
  EachStems-length (skipped h) = omega (arith, EachStems-length h)
  EachStems-length (shown s h) = omega (arith, EachStems-length h)

module _ (g : Gorm) (laws : GormLaws g) (o : Outside) (srv_repo : TaskCallbackSrvRepo g.World) where
  pub page_of-EachStems :
      (rows : List TaskModel) (w : g.World) (ts : List Task) (next : Text)
      → (page_of g o srv_repo rows w).0 ≡ ok (ts, next)
      → (srvs : List TaskCallbackSrv) × EachStems o srvs rows ts × (next ≡ last_id ts)
  unfolding page_of
  page_of-EachStems [] w ts next e =
      let same = ok-injective e in
      (
        [],
        rw (sym (ap (λ p. p.0) same)) (none_left),
        rw (sym (ap (λ p. p.0) same)) (sym (ap (λ p. p.1) same)),
      )
  page_of-EachStems (m ∷ ms) w ts next e =
      let got = srv_repo.get_srvs_by_ids (distinct_srv_ids [] (m ∷ ms)) w in
      let (srvs, known, e1, q1) = continue-eq-ok got.0 _ got.1 e in
      let (tasks, made, e2, q2) = continue-eq-ok (rows_tasks o srvs (m ∷ ms)) _ got.1 e1 in
      let same = ok-injective e2 in
      let shown_tasks = ap (λ p. p.0) same in
      (
        srvs,
        rows_tasks-EachStems o srvs (m ∷ ms) ts (made ∙ ap ok shown_tasks),
        sym (ap (λ p. p.1) same) ∙ ap last_id shown_tasks,
      )

  -- A live row after the cursor, with runs left, whose time has come.
  abbrev pub IsDueRow : ℕ → ℤ → TaskModel → Type 0
  IsDueRow key now m =
      (m.deleted_at ≡ 0)
      × (key < m.id)
      × (m.run_times <ℤ m.allow_max_run_times)
      × (m.plan_sched_next_at ≤ℤ now)

  in_scope-IsDueRow :
      (key : ℕ) (now : ℤ) (m : TaskModel)
      → in_scope task_model (due key now) m ≡ true
      → IsDueRow key now m
  in_scope-IsDueRow key now m h =
      (ground (arith, h), ground (arith, h), ground (arith, h), ground (arith, h))

  -- A page that TimeoutTasks returns for a cursor: its tasks stem, in key order, from the first `size`
  -- live rows after the cursor's key that are due, that is have runs left and a plan time that has
  -- come; there are at most `size` of them, and the next cursor is the id of the last one.
  pub timeout_tasks-due :
      (size : ℕ) (cursor : Text) (w : g.World) (ts : List Task) (next : Text)
      → (timeout_tasks g o srv_repo size cursor w).0 ≡ ok (ts, next)
      → (key : ℕ) × (rows : List TaskModel) × (srvs : List TaskCallbackSrv) × (cursor_id g o
            srv_repo cursor
          ≡ ok key)
        × (rows
            ≡ take size (select (in_scope task_model (due key (g.now w).0)) (laws.view w).tasks))
        × All (IsDueRow key (g.now w).0) rows
        × EachStems o srvs rows ts
        × (length ts ≤ size)
        × (next ≡ last_id ts)
  unfolding timeout_tasks
  timeout_tasks-due size cursor w ts next e =
      let (key, parsed, e1, q1) = continue-eq-ok (cursor_id g o srv_repo cursor) _ w e in
      let now = g.now w in
      let q = due key now.0 in
      let win : Window = record { limit = some size; offset = 0; by_id = true } in
      let found = g.tasks.find q win now.1 in
      let (rows, read, e2, q2) = continue-eq-ok found.0 _ found.1 e1 in
      let (listed, same, cut) = laws.task_laws.find_ok q win now.1 rows read in
      let first : rows ≡ take size (select (in_scope task_model q) (laws.view w).tasks) =
        cut
        ∙ ap (take size)
            (same ∙ ap (λ v. select (in_scope task_model q) v.tasks) (laws.now_view w)) in
      let (srvs, stems, last) = page_of-EachStems rows found.1 ts next e2 in
      (
        key,
        rows,
        srvs,
        parsed,
        first,
        rw first (
            All-take (IsDueRow key now.0) size (select (in_scope task_model q) (laws.view w).tasks)
              (All-map_of (in_scope-IsDueRow key now.0)
                (select (in_scope task_model q) (laws.view w).tasks)
                (All-select (in_scope task_model q) (laws.view w).tasks))),
        stems,
        omega (
          arith,
          EachStems-length o srvs stems,
          ap length first,
          length-take size (select (in_scope task_model q) (laws.view w).tasks),
        ),
        last,
      )

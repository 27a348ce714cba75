-- ===== src/Mysql/TaskRepo/Timeout/Complete.antt =====
-- A page of `TimeoutTasks` misses no due task before its next cursor.
use easytask.Base.{
  ◌&&◌, &&-split, leb, ℤ, subst, All-map_of, ℕ, suc, zero, ◌≡◌, ◌≢◌, ◌⊎◌, ◌≤◌, ◌<◌, ◌^◌, refl, sym,
  ap, ◌∙◌, inl, inr, Bool, true, List, [], ◌∷◌, All, All-take, All-Memᴰ, All-select_of, All-both,
  none, Option-cases, Bool-cases, Text, ok, arith, ok-injective, select, take, continue-eq-ok,
}
use mathlib.Core.Option.{Option}
use mathlib.Core.List.{Memᴰ}
use easytask.Outside.{Outside}
use easytask.Task.{Task, TaskCallbackSrv}
use easytask.Task.Repo.{TaskCallbackSrvRepo}
use easytask.Mysql.Ids.{to_task_callback_srv_entity_id}
use easytask.Mysql.Models.{TaskModel}
use easytask.Mysql.Models.Columns.{task_model}
use easytask.Mysql.Gorm.{Gorm, Window, in_scope}
use easytask.Mysql.Gorm.Laws.{GormLaws}
use easytask.Mysql.TaskRepo.Timeout.{
  row_task, rows_tasks, find_srv, add_row, distinct_srv_ids, last_id, due, page_of, cursor_id,
  timeout_tasks,
}
use easytask.Mysql.TaskRepo.Timeout.Due.{
  StemsFrom, row_task-StemsFrom, rows_tasks-EachStems, add_row-ok,
}
use easytask.Mysql.TaskRepo.Timeout.Advance.{EachStems-last, cursor_id-to_task_entity_id}

-- Rows in the order of their keys.
abbrev pub IsIncreasing : List TaskModel → Type 0
IsIncreasing [] = Unit
IsIncreasing (m ∷ ms) = All (λ x. m.id < x.id) ms × IsIncreasing ms

select-IsIncreasing :
    (p : TaskModel → Bool) (ms : List TaskModel) → IsIncreasing ms → IsIncreasing (select p ms)
select-IsIncreasing p [] h = tt
select-IsIncreasing p (m ∷ ms) (first, rest) = elim (Bool-cases (p m)) [
  | inl hit ↦ rw hit (All-select_of _ p ms first, select-IsIncreasing p ms rest)
  | inr miss ↦ rw miss (select-IsIncreasing p ms rest)
]

select-Memᴰ :
    (p : TaskModel → Bool) (ms : List TaskModel) {m : TaskModel}
    → p m ≡ true
    → Memᴰ m ms
    → Memᴰ m (select p ms)
select-Memᴰ p [] h i = elim i [ ]
select-Memᴰ p (x ∷ ms) {m} h (Memᴰ.head e) = rw (ap p (sym e) ∙ h) (Memᴰ.head e)
select-Memᴰ p (x ∷ ms) h (Memᴰ.tail i) = elim (Bool-cases (p x)) [
  | inl hit ↦ rw hit (Memᴰ.tail (select-Memᴰ p ms h i))
  | inr miss ↦ rw miss (select-Memᴰ p ms h i)
]

-- In key order, what is not above a row of the first few is among them.
take-Memᴰ :
    (n : ℕ) (ms : List TaskModel) {m last : TaskModel}
    → IsIncreasing ms
    → Memᴰ m ms
    → Memᴰ last (take n ms)
    → m.id ≤ last.id
    → Memᴰ m (take n ms)
take-Memᴰ zero ms h i j le = elim j [ ]
take-Memᴰ (suc n) [] h i j le = elim i [ ]
take-Memᴰ (suc n) (x ∷ ms) h (Memᴰ.head e) j le = Memᴰ.head e
take-Memᴰ (suc n) (x ∷ ms) {m} {last} (first, rest) (Memᴰ.tail i) (Memᴰ.head e) le =
    absurd (omega (arith, All-Memᴰ (λ y. x.id < y.id) ms first i, le, ap (λ y. y.id) e))
take-Memᴰ (suc n) (x ∷ ms) (first, rest) (Memᴰ.tail i) (Memᴰ.tail j) le =
    Memᴰ.tail (take-Memᴰ n ms rest i j le)

All-self : (ms : List TaskModel) → All (λ m. Memᴰ m ms) ms
All-self [] = tt
All-self (m ∷ ms) = (Memᴰ.head refl, All-map_of (λ x i. Memᴰ.tail i) ms (All-self ms))

-- What holds of the elements that pass a test.
All-selected :
    (p : TaskModel → Bool) (P : TaskModel → Type 0) (ms : List TaskModel)
    → ((m : TaskModel) → Memᴰ m ms → p m ≡ true → P m)
    → All P (select p ms)
All-selected p P [] h = tt
All-selected p P (m ∷ ms) h =
    let rest = All-selected p P ms (λ x i. h x (Memᴰ.tail i)) in
    elim (Bool-cases (p m)) [
      | inl hit ↦ rw hit (h m (Memᴰ.head refl) hit, rest)
      | inr miss ↦ rw miss rest
    ]

leb→le : (a b : ℕ) → leb a b ≡ true → a ≤ b
leb→le a b h = ground arith

-- A row's task is among the tasks, or its service is not known.
abbrev pub Served : List TaskCallbackSrv → List Task → TaskModel → Type 0
Served srvs ts m =
    (find_srv (to_task_callback_srv_entity_id m.callback_srv_id) srvs ≡ none)
    ⊎ ((t : Task) × Memᴰ t ts × StemsFrom m srvs t)

later-Served :
    (srvs : List TaskCallbackSrv) (t : Task) (ts : List Task) (m : TaskModel)
    → Served srvs ts m
    → Served srvs (t ∷ ts) m
later-Served srvs t ts m (inl unknown) = inl unknown
later-Served srvs t ts m (inr (u, i, s)) = inr (u, Memᴰ.tail i, s)

rows_tasks-Served :
    (o : Outside) (srvs : List TaskCallbackSrv) (ms : List TaskModel) (ts : List Task)
    → rows_tasks o srvs ms ≡ ok ts
    → All (Served srvs ts) ms
unfolding rows_tasks
rows_tasks-Served o srvs [] ts e = tt
rows_tasks-Served o srvs (m ∷ ms) ts e =
    elim (Option-cases (find_srv (to_task_callback_srv_entity_id m.callback_srv_id) srvs)) [
      | inl unknown ↦ (inl unknown, rows_tasks-Served o srvs ms ts (rw (rows_tasks, unknown) at e))
      | inr (srv, known) ↦
          let e' : add_row o srvs (row_task o srvs srv m) (rows_tasks o srvs ms) ≡ ok ts =
            rw (rows_tasks, known) at e in
          let (t, rest, first, others, whole) = add_row-ok o srvs _ _ ts e' in
          subst (λ l. All (Served srvs l) (m ∷ ms)) whole
            (
              inr (t, Memᴰ.head refl, row_task-StemsFrom o srvs srv m t known first),
              All-map_of (later-Served srvs t rest) ms (rows_tasks-Served o srvs ms rest others),
            )
    ]

module _ (g : Gorm) (laws : GormLaws g) (o : Outside) (srv_repo : TaskCallbackSrvRepo g.World) where
  -- A page with tasks, taken apart.
  page_of-made :
      (rows : List TaskModel) (w : g.World) (ts : List Task) (next : Text)
      → ts ≢ []
      → (page_of g o srv_repo rows w).0 ≡ ok (ts, next)
      → (srvs : List TaskCallbackSrv) × ((srv_repo.get_srvs_by_ids (distinct_srv_ids [] rows) w).0
          ≡ ok srvs)
        × (rows_tasks o srvs rows ≡ ok ts)
        × (next ≡ last_id ts)
  unfolding page_of
  page_of-made [] w ts next nonempty e = absurd (nonempty (sym (ap (λ p. p.0) (ok-injective e))))
  page_of-made (m ∷ ms) w ts next nonempty e =
      let got = srv_repo.get_srvs_by_ids (distinct_srv_ids [] (m ∷ ms)) w in
      let (srvs, known, e1, q1) = continue-eq-ok got.0 _ got.1 e in
      let (tasks, made, e2, q2) = continue-eq-ok (rows_tasks o srvs (m ∷ ms)) _ got.1 e1 in
      let same = ok-injective e2 in
      let shown_tasks = ap (λ p. p.0) same in
      (srvs, known, made ∙ ap ok shown_tasks, sym (ap (λ p. p.1) same) ∙ ap last_id shown_tasks)

  -- The rows of a page.
  abbrev pub page_rows : ℕ → ℕ → ℤ → g.World → List TaskModel
  page_rows size key now w =
      take size (select (in_scope task_model (due key now)) (laws.view w).tasks)

  -- A row that is due for a cursor, up to another.
  abbrev pub before : ℕ → ℕ → ℤ → TaskModel → Bool
  before key later now m = in_scope task_model (due key now) m && leb m.id later

  -- Where the table is in the order of its 64-bit keys: for every row that is due for the cursor and
  -- whose key is at most that of the next cursor, a page with tasks holds the row's task, unless the
  -- row's service is not among those that the repository of services returned for the rows of the page,
  -- in a world with the same tables.
  pub timeout_tasks-Served :
      (size : ℕ) (cursor : Text) (w : g.World) (ts : List Task) (next : Text) (key later : ℕ)
      → All (λ m. m.id < 2 ^ 64) (laws.view w).tasks
      → IsIncreasing (laws.view w).tasks
      → (timeout_tasks g o srv_repo size cursor w).0 ≡ ok (ts, next)
      → ts ≢ []
      → cursor_id g o srv_repo cursor ≡ ok key
      → cursor_id g o srv_repo next ≡ ok later
      → (v : g.World) × (srvs : List TaskCallbackSrv) × (laws.view v ≡ laws.view w)
        × ((srv_repo.get_srvs_by_ids (distinct_srv_ids [] (page_rows size key (g.now w).0 w)) v).0
            ≡ ok srvs)
        × All (Served srvs ts) (select (before key later (g.now w).0) (laws.view w).tasks)
  unfolding timeout_tasks
  timeout_tasks-Served size cursor w ts next key later bounded sorted e nonempty here there =
      let now = g.now w in
      let (key', parsed, e1, q1) = continue-eq-ok (cursor_id g o srv_repo cursor) _ w e in
      let q = due key' now.0 in
      let win : Window = record { limit = Option.some size; offset = 0; by_id = true } in
      let found = g.tasks.find q win now.1 in
      let (rows, read, e2, q2) = continue-eq-ok found.0 _ found.1 e1 in
      let (listed, same, cut) = laws.task_laws.find_ok q win now.1 rows read in
      let reached = select (in_scope task_model q) (laws.view w).tasks in
      let first : rows ≡ take size reached =
        cut
        ∙ ap (take size)
            (same ∙ ap (λ v. select (in_scope task_model q) v.tasks) (laws.now_view w)) in
      let (srvs, known, made, last) = page_of-made rows found.1 ts next nonempty e2 in
      let B : TaskModel → Type 0 = λ m. m.id < 2 ^ 64 in
      let narrow : All B rows =
        rw first (
          All-take B size _
            (All-select_of B (in_scope task_model q) (laws.view w).tasks bounded)) in
      let (l, (small, among), at) =
        EachStems-last o srvs (λ m. B m × Memᴰ m rows) (rows_tasks-EachStems o srvs rows ts made)
          (All-both B (λ m. Memᴰ m rows) rows narrow (All-self rows)) nonempty in
      let end : later ≡ l.id = ok-injective (
        sym there
        ∙ ap (cursor_id g o srv_repo) (last ∙ at)
        ∙ cursor_id-to_task_entity_id g laws o srv_repo l.id small) in
      let same_key : key' ≡ key = ok-injective (sym parsed ∙ here) in
      let read_rows : rows ≡ page_rows size key now.0 w =
        first ∙ ap (λ k. page_rows size k now.0 w) same_key in
      (
        found.1,
        srvs,
        laws.task_laws.find_view q win now.1 ∙ laws.now_view w,
        subst (λ l. (srv_repo.get_srvs_by_ids (distinct_srv_ids [] l) found.1).0 ≡ ok srvs)
            read_rows known,
        All-selected (before key later now.0) (Served srvs ts) (laws.view w).tasks (λ m i h.
            let (due_now, le) =
              &&-split (in_scope task_model (due key now.0) m) (leb m.id later) h in
            let hit : in_scope task_model q m ≡ true = rw same_key due_now in
            let picked =
              take-Memᴰ size reached
                (select-IsIncreasing (in_scope task_model q) (laws.view w).tasks sorted)
                (select-Memᴰ (in_scope task_model q) (laws.view w).tasks hit i)
                (subst (Memᴰ l) first among) (omega (arith, leb→le _ _ le, end)) in
            All-Memᴰ (Served srvs ts) rows (rows_tasks-Served o srvs rows ts made)
              (subst (Memᴰ m) (sym first) picked)),
      )

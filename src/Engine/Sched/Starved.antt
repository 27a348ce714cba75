-- ===== src/Engine/Sched/Starved.antt =====
-- A first page whose services are all unknown keeps the scheduler from every other task.
use easytask.Base.{
  ℕ, zero, suc, ◌≡◌, refl, ap, ◌∙◌, Bool, false, true, List, [], some, Text, Result, ok, err,
  select, take, All, ℤ, continue-keeps, continue-eq-ok, length,
}
use easytask.Outside.{Outside}
use easytask.Task.{Task}
use easytask.Mysql.Models.Columns.{task_model}
use easytask.Mysql.Gorm.{Gorm, Tables, Window, in_scope}
use easytask.Mysql.Gorm.Laws.{GormLaws}
use easytask.Mysql.TaskRepo.Timeout.{due, timeout_tasks}
use easytask.Mysql.Repos.{task_repo, task_srv_repo}
use easytask.Engine.Sched.{Round, sent, page_size, after_page, sched_rounds}
use easytask.Mysql.TaskRepo.Timeout.Unknown.{is_unknown, page_of-unknown, page_of-view}

-- Whenever the first page of due rows is read, no live service has an id that one of them names.
abbrev pub Blocked : Tables → Type 0
Blocked v =
    (now : ℤ)
    → All (λ m. is_unknown v.srvs m ≡ true)
        (take page_size (select (in_scope task_model (due 0 now)) v.tasks))

abbrev pub is_sent : Round → Bool
is_sent (sent ts) = true
is_sent _ = false

module _ (g : Gorm) (laws : GormLaws g) (o : Outside) where
  timeout_tasks-Blocked :
      (w : g.World)
      → Blocked (laws.view w)
      → ((page : List Task × Text)
          → (timeout_tasks g o (task_srv_repo g) page_size [] w).0 ≡ ok page
          → page ≡ ([], []))
        × (laws.view (timeout_tasks g o (task_srv_repo g) page_size [] w).1 ≡ laws.view w)
  unfolding timeout_tasks
  timeout_tasks-Blocked w blocked =
      let now = g.now w in
      let q = due 0 now.0 in
      let win : Window = record { limit = some page_size; offset = 0; by_id = true } in
      let found = g.tasks.find q win now.1 in
      let same : laws.view found.1 ≡ laws.view w =
        laws.task_laws.find_view q win now.1 ∙ laws.now_view w in
      (
        (λ page e.
            let (rows, read, e1, q1) = continue-eq-ok found.0 _ found.1 e in
            let (listed, shown, cut) = laws.task_laws.find_ok q win now.1 rows read in
            let first : rows ≡ take page_size (select (in_scope task_model q) (laws.view w).tasks) =
              cut
              ∙ ap (take page_size)
                  (shown ∙ ap (λ v. select (in_scope task_model q) v.tasks) (laws.now_view w)) in
            page_of-unknown g laws o rows found.1 page
              (rw (ap (λ v. v.srvs) same) (rw first (blocked now.0))) e1),
        continue-keeps (λ u. laws.view u ≡ laws.view w) found.0 _ found.1 same
            (λ rows. page_of-view g laws o rows found.1 w same),
      )

  after_page-idle :
      (page : Result (List Task × Text))
      → ((p : List Task × Text) → page ≡ ok p → p ≡ ([], []))
      → (is_sent (after_page (task_repo g o) [] page).0 ≡ false)
        × ((after_page (task_repo g o) [] page).1 ≡ [])
  after_page-idle (err e) h = (refl, refl)
  after_page-idle (ok p) h = rw (h p refl) (refl, refl)

  -- While the first page of due rows names no live service, and nothing else changes the tables, none of
  -- the rounds of the scheduler, however many, sends a task, whatever rows are due behind that page; and
  -- the tables stay as they are.
  pub sched_rounds-starved :
      (n : ℕ) (w : g.World)
      → Blocked (laws.view w)
      → (length (sched_rounds (task_repo g o) n [] w).0 ≡ n)
        × All (λ r. is_sent r ≡ false) (sched_rounds (task_repo g o) n [] w).0
        × (laws.view (sched_rounds (task_repo g o) n [] w).1 ≡ laws.view w)
  unfolding sched_rounds
  sched_rounds-starved zero w blocked = (refl, tt, refl)
  sched_rounds-starved (suc n) w blocked =
      let page = timeout_tasks g o (task_srv_repo g) page_size [] w in
      let (only, same) = timeout_tasks-Blocked w blocked in
      let (unsent, again) = after_page-idle page.0 only in
      let (count, rest, kept) = sched_rounds-starved n page.1 (rw same blocked) in
      rw again (ap suc count, (unsent, rest), kept ∙ same)

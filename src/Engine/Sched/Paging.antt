-- ===== src/Engine/Sched/Paging.antt =====
-- Pages of the scheduler: what is sent on, and how its cursor moves.
use easytask.Base.{
  ◌≡◌, ◌≢◌, refl, ap, ◌∙◌, Bool, true, false, List, [], ◌∷◌, Text, Result, ok, err, ok-injective,
}
use easytask.Task.{Task}
use easytask.Task.Repo.{TaskRepo}
use easytask.Engine.Sched.{sent, page_size, after_page, sched_round}

sent-injective : {ts ts' : List Task} → sent ts ≡ sent ts' → ts ≡ ts'
sent-injective e = cc

module _ {W : Type 0} (repo : TaskRepo W) where
  after_page-sent :
      (cursor next : Text) (ts : List Task) (page : Result (List Task × Text))
      → after_page repo cursor page ≡ (sent ts, next)
      → (ts ≢ []) × (page ≡ ok (ts, next))
  after_page-sent cursor next ts (err x) e = cc (ap (λ p. p.0) e)
  after_page-sent cursor next ts (ok ([], n)) e = cc (ap (λ p. p.0) e)
  after_page-sent cursor next ts (ok (t ∷ rest, n)) e =
      let same : _ ≡ ts = sent-injective (ap (λ p. p.0) e) in
      (
        (λ none. cc (same, none)),
        ap ok (ap (λ l. (l, n)) same ∙ ap (λ m. (ts, m)) (ap (λ p. p.1) e)),
      )

  -- Tasks are sent on only by a master that is not exiting, and they are the page that the repository
  -- returned for the cursor, with the cursor to go on with.
  pub sched_round-sent :
      (is_exiting is_master : Bool) (cursor next : Text) (ts : List Task) (w : W)
      → (sched_round repo is_exiting is_master cursor w).0 ≡ ok (sent ts, next)
      → (is_exiting ≡ false)
        × (is_master ≡ true)
        × (ts ≢ [])
        × ((repo.timeout_tasks page_size cursor w).0 ≡ ok (ts, next))
  unfolding sched_round
  sched_round-sent true is_master cursor next ts w e = cc (ap (λ p. p.0) (ok-injective e))
  sched_round-sent false false cursor next ts w e = cc (ap (λ p. p.0) (ok-injective e))
  sched_round-sent false true cursor next ts w e =
      let (full, read) =
        after_page-sent cursor next ts (repo.timeout_tasks page_size cursor w).0 (ok-injective e) in
      (refl, refl, full, read)

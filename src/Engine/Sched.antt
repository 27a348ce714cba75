-- ===== src/Engine/Sched.antt =====
-- internal/task/sched.go
pub mod Paging
pub mod Starved
use easytask.Base.{
  ℕ, zero, suc, Bool, true, false, List, [], ◌∷◌, is_empty, if◌then◌else◌, Text, Error, Result, ok,
  err, Io, ◌>>=◌, pure, attempt,
}
use easytask.Task.{Task, TaskResp}
use easytask.Task.Repo.{TaskRepo}

-- What a round of the loop of `schedule` did. `idle` sleeps a second, and so does `no_master`.
pub data Round : Type 0 where
  exited no_master idle : Round
  failing : Error → Round
  sent : List Task → Round

abbrev pub page_size : ℕ
page_size = 1000

module _ {W : Type 0} (repo : TaskRepo W) where
  -- The round by the page read, and the cursor after it.
  abbrev pub after_page : Text → Result (List Task × Text) → Round × Text
  after_page cursor (err e) = (failing e, cursor)
  after_page cursor (ok (tasks, next)) = if is_empty tasks then (idle, []) else (sent tasks, next)

  abbrev page_round : Text → Io W (Round × Text)
  page_round cursor = do
    page ← attempt (repo.timeout_tasks page_size cursor)
    pure (after_page cursor page)

  -- A round: whether an exit signal waits and whether this node is the master are read first.
  unfoldable pub sched_round : Bool → Bool → Text → Io W (Round × Text)
  sched_round is_exiting is_master cursor =
      if is_exiting
      then pure (exited, cursor)
      else if is_master
      then page_round cursor
      else pure (no_master, cursor)

  -- Rounds of a master that is not told to exit, one after the other; a panic ends them.
  unfoldable pub sched_rounds : ℕ → Text → W → List Round × W
  unfolding sched_round
  sched_rounds zero cursor w = ([], w)
  sched_rounds (suc n) cursor w =
      let (res, v) = sched_round false true cursor w in
      elim res [
        | err e ↦ ([], v)
        | ok (round, next) ↦ (let (rounds, u) = sched_rounds n next v in (round ∷ rounds, u))
      ]

  unfoldable pub lock_task_for_run : Task → Io W (Bool × Task)
  lock_task_for_run t = repo.lock_task t

  unfoldable pub submit_task_resp : TaskResp → Io W (Unit {0})
  submit_task_resp r = repo.confirm_task r

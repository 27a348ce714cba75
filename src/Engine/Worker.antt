-- ===== src/Engine/Worker.antt =====
-- internal/task/worker.go: the loop of a worker, and the engine's wait group.
pub mod Stopping
use easytask.Base.{
  ℕ, suc, ◌+◌, ◌-◌, ◌==◌, Bool, true, false, List, [], ◌∷◌, is_empty, Option, none, some,
  if◌then◌else◌, ℤ, Text, Error, Result, ok, err, Io, ◌>>=◌, pure, lift, attempt, deref,
}
use easytask.Outside.{Outside}
use easytask.Task.{
  Task, TaskResp, TaskCallbackSrv, TaskCallbackSrvResp, run_resp, new_internal_err_task_resp,
}
use easytask.Task.Repo.{TaskRepo, TaskCallbackSrvExec}
use easytask.Engine.Sched.{lock_task_for_run, submit_task_resp}

-- How a round of a worker's loop ends: it goes on, it leaves after `Done`, or it leaves without.
pub data End : Type 0 where
  goes_on done gone : End

module _ {W : Type 0} (o : Outside) (repo : TaskRepo W) (exec : TaskCallbackSrvExec W) where
  -- `task.run`
  unfoldable pub run : Task → Io W (Result TaskResp)
  unfolding run_resp
  run t = do answer ← attempt (exec.callback_srv t); pure (run_resp t answer)

  -- The response that is submitted: that of the run, or one that holds its error.
  abbrev pub resp_or_internal : Task → ℤ → Result TaskResp → Result TaskResp
  resp_or_internal t now (ok r) = ok r
  resp_or_internal t now (err e) = new_internal_err_task_resp o.marshal_internal_err t.id e now

  -- What follows the run, by the response: an error of marshalling skips the submission, and an error
  -- of the submission is logged.
  abbrev pub submit : Result TaskResp → Io W End
  submit (err e) = pure goes_on
  submit (ok r) = do _ ← attempt (submit_task_resp repo r); pure goes_on

  -- What follows the lock.
  abbrev pub run_locked : ℤ → Result (Bool × Task) → Io W End
  run_locked now (err e) = pure goes_on
  run_locked now (ok (false, t)) = pure goes_on
  run_locked now (ok (true, t)) = do r ← run t; submit (resp_or_internal t now r)

  abbrev pub locked_run : ℤ → Task → Io W End
  locked_run now t = do locked ← attempt (lock_task_for_run repo t); run_locked now locked

  -- A round that took a task from the channel, `now` the clock read. The loop's function returns at a
  -- service with no routes.
  unfoldable pub take_task : ℤ → Task → Io W End
  unfolding run new_internal_err_task_resp lock_task_for_run submit_task_resp
  take_task now t = do
    srv ← lift (deref t.callback_srv)
    if is_empty srv.routes then pure gone else locked_run now t

  -- A round of the loop: a task from the channel, or a tick, `none`, at which the flag is read.
  unfoldable pub worker_round : Bool → ℤ → Option Task → Io W End
  unfolding take_task
  worker_round is_paused now none = pure (if is_paused then done else goes_on)
  worker_round is_paused now (some t) = take_task now t

-- The engine as its wait group sees it: the counter, and which workers still run their loop.
pub record Engine : Type 0 where
  pub waiting : ℕ
  pub running : List Bool
  pub is_paused : Bool

abbrev pub default_worker_pool_size : ℕ
default_worker_pool_size = 100

-- `NewWorkerEngine` and `createWorkerPool`.
abbrev pub all_running : ℕ → List Bool
all_running ℕ.zero = []
all_running (suc n) = true ∷ all_running n

unfoldable pub create_worker_pool : ℕ → Engine
create_worker_pool size =
    let n = (if size == 0 then default_worker_pool_size else size) in
    record { waiting = n; running = all_running n; is_paused = false }

abbrev pub leave : ℕ → List Bool → List Bool
leave i [] = []
leave ℕ.zero (b ∷ bs) = false ∷ bs
leave (suc i) (b ∷ bs) = b ∷ leave i bs

-- What the end of a round of worker `i` does to the engine. `Done` takes one off the counter.
unfoldable pub end_round : ℕ → End → Engine → Engine
end_round i goes_on e = e
end_round i done e = record e { waiting = e.waiting - 1; running = leave i e.running }
end_round i gone e = record e { running = leave i e.running }

-- What `Stop` does before it waits for the counter to reach 0.
unfoldable pub pause : Engine → Engine
pause e = record e { is_paused = true }

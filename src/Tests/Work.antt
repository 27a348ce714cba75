-- ===== src/Tests/Work.antt =====
-- Workers at concrete inputs.
use easytask.Base.{◌≡◌, ◌+◌, refl, none, some, [], pos, err, panic}
use easytask.Task.{Task, TaskCallbackSrv}
use easytask.Task.Repo.{TaskCallbackSrvExec}
use easytask.Mysql.Gorm.Memory.{memory, Memory}
use easytask.Mysql.Repos.{task_repo}
use easytask.Engine.Worker.{gone, done, worker_round, create_worker_pool, end_round, pause, Engine}
use easytask.Engine.Worker.Stopping.{Trace, alive, Trace-waiting}
use easytask.Tests.Samples.{outside, task, srv, start}

abbrev deaf : TaskCallbackSrvExec Memory
deaf = record { callback_srv = λ t w. (err panic, w); heart_beat = λ s w. (err panic, w) }

abbrev bare : TaskCallbackSrv
bare = record srv { routes = [] }

abbrev bare_task : Task
bare_task = record task { callback_srv = some bare }

-- A pool of two: one worker leaves at a task without routes, the engine is told to stop, and the
-- other leaves at its next tick.
abbrev one_gone : Engine
one_gone = end_round 0 gone (create_worker_pool 2)

abbrev left : Engine
left = end_round 1 done (pause one_gone)

one_gone-Trace : Trace outside (task_repo memory outside) deaf one_gone 1
unfolding worker_round create_worker_pool
one_gone-Trace = Trace.round 0 (pos 200) (some bare_task) start gone refl refl (Trace.started 2)

left-Trace : Trace outside (task_repo memory outside) deaf left 1
unfolding worker_round create_worker_pool pause end_round
left-Trace =
    Trace.round {e = pause one_gone} 1 (pos 201) none start done refl refl
      (Trace.stopping one_gone-Trace)

Trace-waiting_example : left.waiting ≡ alive left.running + 1
Trace-waiting_example = Trace-waiting outside (task_repo memory outside) deaf left-Trace

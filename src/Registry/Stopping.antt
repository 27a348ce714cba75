-- ===== src/Registry/Stopping.antt =====
-- The goroutines of internal/registry/registry.go: the loop of `sched` with HealthCheck in it, the
-- pool of `runWorker`, and a call of Stop, over the channels, the flag and the wait group they share.
-- An event is what one of them does next, or a rendezvous of two at a channel without a buffer.
pub mod Returned
pub mod Stuck
use easytask.Base.{
  ℕ, zero, suc, ◌-◌, ◌==◌, Bool, true, false, List, [], ◌∷◌, Option, none, some, if◌then◌else◌,
}

-- `sending n` has n services of a page left to send to the workers.
pub data SchedAt : Type 0 where
  at_select querying sleeping exited : SchedAt
  sending : ℕ → SchedAt

pub data WorkerAt : Type 0 where
  idle checking gone : WorkerAt

-- Stop was not called, has set the flag, sends the exit signal, waits for the workers, or is back.
pub data StopAt : Type 0 where
  not_called pausing signalling waiting returned : StopAt

pub record Goroutines : Type 0 where
  pub sched : SchedAt
  pub workers : List WorkerAt
  pub stop : StopAt
  pub is_paused : Bool
  pub exit_worker_wait : ℕ

abbrev pub default_check_worker_pool_size : ℕ
default_check_worker_pool_size = 100

abbrev pub idle_workers : ℕ → List WorkerAt
idle_workers zero = []
idle_workers (suc n) = idle ∷ idle_workers n

-- `NewRegistry` and `createHealthCheckWorkerPool`, where all the workers have been started.
unfoldable pub created : ℕ → Goroutines
created check_health_worker_pool_size =
    let size =
      if check_health_worker_pool_size == 0
      then default_check_worker_pool_size
      else check_health_worker_pool_size in
    record {
      sched = at_select;
      workers = idle_workers size;
      stop = not_called;
      is_paused = false;
      exit_worker_wait = size;
    }

pub data Event : Type 0 where
  -- Stop sets the flag
  stop_called : Event
  -- Stop comes to the exit signal, and blocks there until it is taken
  stop_sends : Event
  -- the select of `sched`: the exit signal if Stop is sending it, else the default
  sched_selects : Event
  -- HealthCheck found a page of services, or ended, with or without an error
  page_found : ℕ → Event
  health_check_ended : Event
  -- a service goes to worker i, if one is to be sent; or the page is sent
  service_sent : ℕ → Event
  page_sent : Event
  sched_wakes : Event
  -- worker i is done with its service, or its ticker fires
  service_checked : ℕ → Event
  ticked : ℕ → Event
  -- Wait returns
  wait_ended : Event

-- Worker i, and the workers with worker i elsewhere.
abbrev pub worker_at : ℕ → List WorkerAt → WorkerAt
worker_at i [] = gone
worker_at zero (w ∷ ws) = w
worker_at (suc i) (w ∷ ws) = worker_at i ws

abbrev pub moved : ℕ → WorkerAt → List WorkerAt → List WorkerAt
moved i v [] = []
moved zero v (w ∷ ws) = v ∷ ws
moved (suc i) v (w ∷ ws) = w ∷ moved i v ws

-- Each part of a step, by where the goroutine stands; none where it cannot do this now.
unfoldable pub select_step : SchedAt → StopAt → Goroutines → Option Goroutines
select_step at_select signalling s = some (record s { sched = exited; stop = waiting })
select_step at_select _ s = some (record s { sched = querying })
select_step _ _ s = none

unfoldable pub query_step : SchedAt → SchedAt → Goroutines → Option Goroutines
query_step querying next s = some (record s { sched = next })
query_step _ next s = none

unfoldable pub send_step : SchedAt → WorkerAt → ℕ → Goroutines → Option Goroutines
send_step (sending (suc n)) idle i s =
    some (record s { sched = sending n; workers = moved i checking s.workers })
send_step _ _ i s = none

unfoldable pub sent_step : SchedAt → Goroutines → Option Goroutines
sent_step (sending zero) s = some (record s { sched = querying })
sent_step _ s = none

unfoldable pub wake_step : SchedAt → Goroutines → Option Goroutines
wake_step sleeping s = some (record s { sched = at_select })
wake_step _ s = none

unfoldable pub checked_step : WorkerAt → ℕ → Goroutines → Option Goroutines
checked_step checking i s = some (record s { workers = moved i idle s.workers })
checked_step _ i s = none

unfoldable pub tick_step : WorkerAt → Bool → ℕ → Goroutines → Option Goroutines
tick_step idle true i s =
    some (record s { workers = moved i gone s.workers; exit_worker_wait = s.exit_worker_wait - 1 })
tick_step idle false i s = some s
tick_step _ _ i s = none

unfoldable pub stop_step : StopAt → Goroutines → Option Goroutines
stop_step not_called s = some (record s { stop = pausing; is_paused = true })
stop_step _ s = none

unfoldable pub exit_step : StopAt → Goroutines → Option Goroutines
exit_step pausing s = some (record s { stop = signalling })
exit_step _ s = none

unfoldable pub wait_step : StopAt → ℕ → Goroutines → Option Goroutines
wait_step waiting zero s = some (record s { stop = returned })
wait_step _ _ s = none

unfoldable pub step : Event → Goroutines → Option Goroutines
unfolding select_step query_step send_step sent_step wake_step checked_step tick_step stop_step
    exit_step wait_step
step stop_called s = stop_step s.stop s
step stop_sends s = exit_step s.stop s
step sched_selects s = select_step s.sched s.stop s
step (page_found n) s = query_step s.sched (sending n) s
step health_check_ended s = query_step s.sched sleeping s
step (service_sent i) s = send_step s.sched (worker_at i s.workers) i s
step page_sent s = sent_step s.sched s
step sched_wakes s = wake_step s.sched s
step (service_checked i) s = checked_step (worker_at i s.workers) i s
step (ticked i) s = tick_step (worker_at i s.workers) s.is_paused i s
step wait_ended s = wait_step s.stop s.exit_worker_wait s

-- The states that are reached by a sequence of events.
unfoldable pub run : List Event → Goroutines → Option Goroutines
unfolding step
run [] s = some s
run (e ∷ es) s = elim (step e s) [ none ↦ none | some t ↦ run es t ]

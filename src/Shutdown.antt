-- ===== src/Shutdown.antt =====
-- main.go: the goroutine that stops the parts after a signal, beside the registry, the workers of the
-- engine and the router, as one sequence of events. The loop of the engine's scheduler is there by its
-- receiving of the exit signal only.
pub mod Kept
pub mod Ordered
pub mod Hanging
use easytask.Base.{
  ℕ, zero, suc, Bool, true, false, ◌&&◌, List, [], ◌∷◌, Option, none, some, if◌then◌else◌,
}
use easytask.Registry.Stopping.{Goroutines, created}
use easytask.Registry.Stopping.{StopAt as RegistryStopAt, returned as registry_returned}
use easytask.Registry.Stopping.{Event as RegistryEvent, stop_called as stop_registry}
use easytask.Registry.Stopping.{step as registry_step}
use easytask.Engine.Worker.{End, done, Engine, create_worker_pool, end_round, pause}
use easytask.Engine.Worker.Stopping.{is_alive}
use easytask.Router.Serving.{Serving, serving_started, StopAt, returned, Event, stop_called}
use easytask.Router.Serving.{step as router_step}

-- What the goroutine waits for: a signal, the Stop of the registry, the scheduler's receiving of the
-- exit signal, the wait group of the engine, and the Stop of the router.
pub data ShutdownAt : Type 0 where
  running : ShutdownAt
  stopping_registry : ShutdownAt
  signalling_sched : ShutdownAt
  waiting_workers : ShutdownAt
  stopping_api : ShutdownAt
  exited : ShutdownAt

pub record Program (W : Type 0) : Type 1 where
  pub shutdown : ShutdownAt
  pub registry : Goroutines
  pub engine : Engine
  pub router : Serving W

pub data Happening (W : Type 0) : Type 1 where
  signalled : Happening W
  registry_stopped : Happening W
  sched_signalled : Happening W
  workers_gone : Happening W
  api_stopped : Happening W
  registry_event : RegistryEvent → Happening W
  round_ended : ℕ → End → Happening W
  router_event : Event W → Happening W

-- A worker calls Done only when the engine is paused.
abbrev pub may_end : End → Bool → Bool
may_end done is_paused = is_paused
may_end _ is_paused = true

abbrev pub is_exited : ShutdownAt → Bool
is_exited exited = true
is_exited _ = false

module _ {W : Type 0} where
  unfoldable pub started : ℕ → ℕ → W → Program W
  unfolding created create_worker_pool serving_started
  started health_check_worker_pool_size task_worker_pool_size w = record {
    shutdown = running;
    registry = created health_check_worker_pool_size;
    engine = create_worker_pool task_worker_pool_size;
    router = serving_started w;
  }

  -- Each part of a step, by where the goroutine stands; none where it cannot do this now. The mastership
  -- is given up first, by a third-party package.
  abbrev pub signal_step : ShutdownAt → Option Goroutines → Program W → Option (Program W)
  signal_step running (some r) p = some (record p { shutdown = stopping_registry; registry = r })
  signal_step _ _ p = none

  abbrev pub registry_stopped_step : ShutdownAt → RegistryStopAt → Program W → Option (Program W)
  registry_stopped_step stopping_registry registry_returned p =
      some (record p { shutdown = signalling_sched })
  registry_stopped_step _ _ p = none

  unfoldable pub sched_step : ShutdownAt → Program W → Option (Program W)
  unfolding pause
  sched_step signalling_sched p =
      some (record p { shutdown = waiting_workers; engine = pause p.engine })
  sched_step _ p = none

  abbrev pub workers_step : ShutdownAt → ℕ → Option (Serving W) → Program W → Option (Program W)
  workers_step waiting_workers zero (some r) p =
      some (record p { shutdown = stopping_api; router = r })
  workers_step _ _ _ p = none

  -- Then the logs are flushed, and the process exits.
  abbrev pub api_step : ShutdownAt → StopAt → Program W → Option (Program W)
  api_step stopping_api returned p = some (record p { shutdown = exited })
  api_step _ _ p = none

  abbrev pub registry_moved : Option Goroutines → Program W → Option (Program W)
  registry_moved none p = none
  registry_moved (some r) p = some (record p { registry = r })

  -- Only the goroutine calls Stop.
  abbrev pub registry_event_step : RegistryEvent → Program W → Option (Program W)
  registry_event_step stop_registry p = none
  registry_event_step e p = registry_moved (registry_step e p.registry) p

  abbrev pub router_moved : Option (Serving W) → Program W → Option (Program W)
  router_moved none p = none
  router_moved (some r) p = some (record p { router = r })

  abbrev pub router_event_step : Event W → Program W → Option (Program W)
  router_event_step stop_called p = none
  router_event_step e p = router_moved (router_step e p.router) p

  unfoldable pub round_step : ℕ → End → Program W → Option (Program W)
  unfolding end_round
  round_step i end p =
      if is_alive i p.engine.running && may_end end p.engine.is_paused
      then some (record p { engine = end_round i end p.engine })
      else none

  unfoldable pub live_step : Happening W → Program W → Option (Program W)
  unfolding registry_step router_step sched_step round_step
  live_step signalled p = signal_step p.shutdown (registry_step stop_registry p.registry) p
  live_step registry_stopped p = registry_stopped_step p.shutdown p.registry.stop p
  live_step sched_signalled p = sched_step p.shutdown p
  live_step workers_gone p =
      workers_step p.shutdown p.engine.waiting (router_step stop_called p.router) p
  live_step api_stopped p = api_step p.shutdown p.router.stop p
  live_step (registry_event e) p = registry_event_step e p
  live_step (round_ended i end) p = round_step i end p
  live_step (router_event e) p = router_event_step e p

  -- Nothing happens when the process has exited, at the end of the goroutine or at a panic of a handler.
  unfoldable pub happen : Happening W → Program W → Option (Program W)
  unfolding live_step
  happen e p =
      if is_exited p.shutdown then none else if p.router.has_exited then none else live_step e p

  unfoldable pub run : List (Happening W) → Program W → Option (Program W)
  unfolding happen
  run [] p = some p
  run (e ∷ es) p = elim (happen e p) [ none ↦ none | some q ↦ run es q ]

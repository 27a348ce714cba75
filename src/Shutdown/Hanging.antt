-- ===== src/Shutdown/Hanging.antt =====
-- A process that a signal does not stop.
use easytask.Base.{
  ℕ, suc, ◌≡◌, refl, sym, ap, ◌∙◌, Bool, true, false, List, Option, none, some, if◌then◌else◌, ◌&&◌,
  arith,
}
use easytask.Registry.Stopping.{
  Goroutines, StopAt as RegistryStopAt, Event as RegistryEvent, stop_called as stop_registry,
  step as registry_step, sending,
}
use easytask.Registry.Stopping.Returned.{
  Then as RegistryThen, Balanced, step-Balanced, created-Balanced, alive, has_exited, is_signalled,
}
use easytask.Registry.Stopping.Stuck.{Stuck, step-Stuck}
use easytask.Engine.Worker.{Engine, end_round}
use easytask.Engine.Worker.Stopping.{is_alive}
use easytask.Router.Serving.{Serving, StopAt, not_called, Event, stop_called, step as router_step}
use easytask.Shutdown.{
  ShutdownAt, running, Program, Happening, signalled, registry_stopped, sched_signalled,
  workers_gone, api_stopped, registry_event, round_ended, router_event, started, signal_step,
  registry_stopped_step, sched_step, workers_step, api_step, registry_moved, registry_event_step,
  router_moved, router_event_step, may_end, round_step, live_step, run,
}
use easytask.Shutdown.Ordered.{
  is_past_registry, is_past_workers, Then, Ordered, live_step-Ordered, run-keeps, run-Ordered,
}

module _ {W : Type 0} (P : Goroutines → Type 0)
    (keeps : (e : RegistryEvent) (s : Goroutines) → P s → RegistryThen P (registry_step e s)) where
  abbrev Of : Program W → Type 0
  Of p = P p.registry

  signal_step-Of :
      (a : ShutdownAt) (t : Option Goroutines) (p : Program W)
      → RegistryThen P t
      → Then Of (signal_step a t p)
  signal_step-Of running (some r) p h = h
  signal_step-Of _ _ p h = tt

  registry_stopped_step-Of :
      (a : ShutdownAt) (c : RegistryStopAt) (p : Program W)
      → Of p
      → Then Of (registry_stopped_step a c p)
  registry_stopped_step-Of a c p h = ground arith

  sched_step-Of : (a : ShutdownAt) (p : Program W) → Of p → Then Of (sched_step a p)
  unfolding sched_step
  sched_step-Of a p h = ground arith

  workers_step-Of :
      (a : ShutdownAt) (n : ℕ) (r : Option (Serving W)) (p : Program W)
      → Of p
      → Then Of (workers_step a n r p)
  workers_step-Of a n r p h = ground arith

  api_step-Of : (a : ShutdownAt) (c : StopAt) (p : Program W) → Of p → Then Of (api_step a c p)
  api_step-Of a c p h = ground arith

  registry_moved-Of :
      (t : Option Goroutines) (p : Program W) → RegistryThen P t → Then Of (registry_moved t p)
  registry_moved-Of none p h = tt
  registry_moved-Of (some r) p h = h

  registry_event_step-Of :
      (e : RegistryEvent) (p : Program W) → Of p → Then Of (registry_event_step e p)
  registry_event_step-Of stop_registry p h = tt
  registry_event_step-Of e p h =
      registry_moved-Of (registry_step e p.registry) p (keeps e p.registry h)

  router_moved-Of : (t : Option (Serving W)) (p : Program W) → Of p → Then Of (router_moved t p)
  router_moved-Of none p h = tt
  router_moved-Of (some r) p h = h

  router_event_step-Of : (e : Event W) (p : Program W) → Of p → Then Of (router_event_step e p)
  router_event_step-Of stop_called p h = tt
  router_event_step-Of e p h = router_moved-Of (router_step e p.router) p h

  round_step-Of :
      (b : Bool) (e : Engine) (p : Program W)
      → Of p
      → Then Of (if b then some (record p { engine = e }) else none)
  round_step-Of true e p h = h
  round_step-Of false e p h = tt

  -- What the events of the registry keep of it, the program keeps.
  live_step-Of : (e : Happening W) (p : Program W) → Of p → Then Of (live_step e p)
  unfolding live_step round_step
  live_step-Of signalled p h =
      signal_step-Of p.shutdown (registry_step stop_registry p.registry) p
        (keeps stop_registry p.registry h)
  live_step-Of registry_stopped p h = registry_stopped_step-Of p.shutdown p.registry.stop p h
  live_step-Of sched_signalled p h = sched_step-Of p.shutdown p h
  live_step-Of workers_gone p h =
      workers_step-Of p.shutdown p.engine.waiting (router_step stop_called p.router) p h
  live_step-Of api_stopped p h = api_step-Of p.shutdown p.router.stop p h
  live_step-Of (registry_event e) p h = registry_event_step-Of e p h
  live_step-Of (round_ended i end) p h =
      round_step-Of (is_alive i p.engine.running && may_end end p.engine.is_paused)
        (end_round i end p.engine) p h
  live_step-Of (router_event e) p h = router_event_step-Of e p h

not_past : (b c : Bool) → (b ≡ true → c ≡ true) → c ≡ false → b ≡ false
not_past true c h e = cc (h refl, e)
not_past false c h e = refl

past_workers : (a : ShutdownAt) → is_past_registry a ≡ false → is_past_workers a ≡ false
past_workers a h = ground arith

-- Once all workers of the registry have left while its health check still has a service to send, a
-- signal does not stop the process, whatever happens: the goroutine that stops the parts is not past
-- the Stop of the registry, and that of the router is never called.
pub run-hanging :
    {W : Type 0} (m n left : ℕ) (w : W) (es later : List (Happening W)) (s t : Program W)
    → run es (started m n w) ≡ some s
    → s.registry.sched ≡ sending (suc left)
    → alive s.registry.workers ≡ 0
    → run later s ≡ some t
    → (is_past_registry t.shutdown ≡ false) × (t.router.stop ≡ not_called)
unfolding started
run-hanging {W} m n left w es later s t h unsent none_alive goes =
    let before : Balanced s.registry =
      run-keeps (λ p. Balanced p.registry) (live_step-Of Balanced step-Balanced) es (started m n w)
        s (created-Balanced m) h in
    let start : Stuck s.registry = record {
      left = left;
      unsent = unsent;
      none_alive = none_alive;
      unsignalled = sym before.signalled ∙ ap has_exited unsent;
    } in
    let after : Stuck t.registry =
      run-keeps (λ p. Stuck p.registry) (live_step-Of Stuck step-Stuck) later s t start goes in
    let o = run-keeps Ordered live_step-Ordered later s t (run-Ordered m n w es s h) goes in
    let past =
      not_past (is_past_registry t.shutdown) (is_signalled t.registry.stop)
        (λ e. ap is_signalled (o.back e)) after.unsignalled in
    (past, o.serving (past_workers t.shutdown past))

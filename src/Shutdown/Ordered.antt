-- ===== src/Shutdown/Ordered.antt =====
-- The order in which the parts stop.
use easytask.Base.{
  ℕ, ◌≡◌, refl, inl, inr, Bool, true, false, ◌&&◌, List, [], ◌∷◌, Option, none, some, Option-cases,
  if◌then◌else◌, arith, subst,
}
use easytask.Registry.Stopping.{
  Goroutines, StopAt as RegistryStopAt, Event as RegistryEvent, stop_called as stop_registry,
  step as registry_step,
}
use easytask.Registry.Stopping.Returned.{Then as RegistryThen}
use easytask.Engine.Worker.{End, Engine, end_round}
use easytask.Engine.Worker.Stopping.{is_alive}
use easytask.Router.Serving.{
  Serving, StopAt, not_called, returned, Event, stop_called, serving_started, step as router_step,
}
use easytask.Router.Serving.Orderly.{Then as RouterThen}
use easytask.Shutdown.{
  ShutdownAt, running, stopping_registry, stopping_api, exited, Program, Happening, signalled,
  registry_stopped, sched_signalled, workers_gone, api_stopped, registry_event, round_ended,
  router_event, started, signal_step, registry_stopped_step, sched_step, workers_step, api_step,
  registry_moved, registry_event_step, router_moved, router_event_step, round_step, may_end,
  live_step, is_exited, happen, run,
}
use easytask.Shutdown.Kept.{Back, step-Back, step-At, is_waiting}

abbrev pub is_past_registry : ShutdownAt → Bool
is_past_registry running = false
is_past_registry stopping_registry = false
is_past_registry _ = true

abbrev pub is_past_workers : ShutdownAt → Bool
is_past_workers stopping_api = true
is_past_workers exited = true
is_past_workers _ = false

end_round-waiting :
    (i : ℕ) (end : End) (e : Engine) → e.waiting ≡ 0 → (end_round i end e).waiting ≡ 0
unfolding end_round
end_round-waiting i end e h = ground arith

module _ {W : Type 0} where
  pub record Ordered (p : Program W) : Type 0 where
    pub back : is_past_registry p.shutdown ≡ true → Back p.registry
    pub idle : is_past_workers p.shutdown ≡ true → p.engine.waiting ≡ 0
    pub serving : is_past_workers p.shutdown ≡ false → p.router.stop ≡ not_called
    pub over : is_exited p.shutdown ≡ true → p.router.stop ≡ returned

  abbrev pub Then : (Program W → Type 0) → Option (Program W) → Type 0
  Then P none = Unit
  Then P (some t) = P t

  signal_step-Ordered :
      (a : ShutdownAt) (r : Option Goroutines) (p : Program W)
      → p.shutdown ≡ a
      → Ordered p
      → Then Ordered (signal_step a r p)
  signal_step-Ordered a r p e o = ground arith

  registry_stopped_step-Ordered :
      (a : ShutdownAt) (c : RegistryStopAt) (p : Program W)
      → p.shutdown ≡ a
      → p.registry.stop ≡ c
      → Ordered p
      → Then Ordered (registry_stopped_step a c p)
  registry_stopped_step-Ordered a c p e f o = ground arith

  sched_step-Ordered :
      (a : ShutdownAt) (p : Program W) → p.shutdown ≡ a → Ordered p → Then Ordered (sched_step a p)
  unfolding sched_step
  sched_step-Ordered a p e o = ground arith

  workers_step-Ordered :
      (a : ShutdownAt) (n : ℕ) (r : Option (Serving W)) (p : Program W)
      → p.shutdown ≡ a
      → p.engine.waiting ≡ n
      → Ordered p
      → Then Ordered (workers_step a n r p)
  workers_step-Ordered a n r p e f o = ground arith

  api_step-Ordered :
      (a : ShutdownAt) (c : StopAt) (p : Program W)
      → p.shutdown ≡ a
      → p.router.stop ≡ c
      → Ordered p
      → Then Ordered (api_step a c p)
  api_step-Ordered a c p e f o = ground arith

  registry_moved-Ordered :
      (t : Option Goroutines) (p : Program W)
      → (Back p.registry → RegistryThen Back t)
      → Ordered p
      → Then Ordered (registry_moved t p)
  registry_moved-Ordered none p keeps o = tt
  registry_moved-Ordered (some r) p keeps o = record {
    back = λ past. keeps (o.back past);
    idle = o.idle;
    serving = o.serving;
    over = o.over;
  }

  router_moved-Ordered :
      (t : Option (Serving W)) (p : Program W)
      → ((b : StopAt) → is_waiting b ≡ false → p.router.stop ≡ b → RouterThen (λ r. r.stop ≡ b) t)
      → Ordered p
      → Then Ordered (router_moved t p)
  router_moved-Ordered none p keeps o = tt
  router_moved-Ordered (some r) p keeps o = record {
    back = o.back;
    idle = o.idle;
    serving = λ before. keeps not_called refl (o.serving before);
    over = λ after. keeps returned refl (o.over after);
  }

  registry_event_step-Ordered :
      (e : RegistryEvent) (p : Program W) → Ordered p → Then Ordered (registry_event_step e p)
  registry_event_step-Ordered stop_registry p o = tt
  registry_event_step-Ordered e p o =
      registry_moved-Ordered (registry_step e p.registry) p (step-Back e p.registry) o

  router_event_step-Ordered :
      (e : Event W) (p : Program W) → Ordered p → Then Ordered (router_event_step e p)
  router_event_step-Ordered stop_called p o = tt
  router_event_step-Ordered e p o =
      router_moved-Ordered (router_step e p.router) p (λ b. step-At b e p.router refl) o

  round_step-Ordered :
      (b : Bool) (i : ℕ) (end : End) (p : Program W)
      → Ordered p
      → Then Ordered (if b then some (record p { engine = end_round i end p.engine }) else none)
  round_step-Ordered false i end p o = tt
  round_step-Ordered true i end p o = record {
    back = o.back;
    idle = λ past. end_round-waiting i end p.engine (o.idle past);
    serving = o.serving;
    over = o.over;
  }

  pub live_step-Ordered :
      (e : Happening W) (p : Program W) → Ordered p → Then Ordered (live_step e p)
  unfolding live_step round_step
  live_step-Ordered signalled p o = signal_step-Ordered p.shutdown _ p refl o
  live_step-Ordered registry_stopped p o =
      registry_stopped_step-Ordered p.shutdown p.registry.stop p refl refl o
  live_step-Ordered sched_signalled p o = sched_step-Ordered p.shutdown p refl o
  live_step-Ordered workers_gone p o =
      workers_step-Ordered p.shutdown p.engine.waiting (router_step stop_called p.router) p refl
        refl o
  live_step-Ordered api_stopped p o = api_step-Ordered p.shutdown p.router.stop p refl refl o
  live_step-Ordered (registry_event e) p o = registry_event_step-Ordered e p o
  live_step-Ordered (round_ended i end) p o =
      round_step-Ordered (is_alive i p.engine.running && may_end end p.engine.is_paused) i end p o
  live_step-Ordered (router_event e) p o = router_event_step-Ordered e p o

  -- A process that has exited does nothing.
  unless_over :
      (P : Program W → Type 0) (a b : Bool) (t : Option (Program W))
      → Then P t
      → Then P (if a then none else if b then none else t)
  unless_over P true b t h = tt
  unless_over P false true t h = tt
  unless_over P false false t h = h

  -- What a live step keeps, a run keeps.
  pub run-keeps :
      (P : Program W → Type 0)
      → ((e : Happening W) (p : Program W) → P p → Then P (live_step e p))
      → (es : List (Happening W)) (p q : Program W) → P p
      → run es p ≡ some q
      → P q
  unfolding run happen
  run-keeps P keeps [] p q h e = subst (Then P) e h
  run-keeps P keeps (x ∷ es) p q h e =
      let first : Then P (happen x p) =
        unless_over P (is_exited p.shutdown) p.router.has_exited (live_step x p) (keeps x p h) in
      elim (Option-cases (happen x p)) [
        | inl stops ↦ cc (rw (run, stops) at e)
        | inr (t, goes) ↦ run-keeps P keeps es t q (subst (Then P) goes first) (rw (run, goes) at e)
      ]

  started-Ordered : (m n : ℕ) (w : W) → Ordered (started m n w)
  unfolding started serving_started
  started-Ordered m n w = record {
    back = λ h. cc;
    idle = λ h. cc;
    serving = λ h. refl;
    over = λ h. cc;
  }

  -- After every sequence of events: past the Stop of the registry, that Stop is back; past the wait group
  -- of the engine, its counter is 0, and until then the Stop of the router is not called; and a process
  -- that exits at the end of the goroutine has the Stop of the router back.
  pub run-Ordered :
      (m n : ℕ) (w : W) (es : List (Happening W)) (p : Program W)
      → run es (started m n w) ≡ some p
      → Ordered p
  run-Ordered m n w es p h =
      run-keeps Ordered live_step-Ordered es (started m n w) p (started-Ordered m n w) h

-- ===== src/Shutdown/Kept.antt =====
-- Where the Stops of the router and of the registry stand, and what leaves them there.
use easytask.Base.{ℕ, ◌≡◌, refl, ap, Bool, true, false, List, Option, none, some, arith}
use easytask.Router.{FinalStdoutResp, serve}
use easytask.Router.Serving.{
  Phase, counted, admitted, refused, Request, Serving, StopAt, not_called, waiting, returned, Event,
  received, tested, answered, stop_called, wait_ended, picked, test_at, test_step, replied,
  finished, answer_at, answer_step, wait_step, live_step, step,
}
use easytask.Router.Serving.Orderly.{Then, unless_exited}
use easytask.Registry.Stopping.{
  Goroutines, SchedAt, WorkerAt, StopAt as RegistryStopAt, returned as registry_returned,
  Event as RegistryEvent, stop_called as stop_registry, stop_sends, step as registry_step,
  select_step, query_step, send_step, sent_step, wake_step, checked_step, tick_step, stop_step,
  exit_step, wait_step as registry_wait, sched_selects, page_found, health_check_ended,
  service_sent, page_sent, sched_wakes, service_checked, ticked, wait_ended as registry_wait_ended,
  worker_at, sleeping, sending,
}
use easytask.Registry.Stopping.Returned.{Then as RegistryThen}

abbrev pub is_waiting : StopAt → Bool
is_waiting waiting = true
is_waiting _ = false

abbrev pub is_stop_call : {W : Type 0} → Event W → Bool
is_stop_call stop_called = true
is_stop_call _ = false

-- No event but a call of Stop, or the end of its waiting, changes where the Stop of the router stands.
module _ {W : Type 0} (b : StopAt) where
  abbrev At : Serving W → Type 0
  At r = r.stop ≡ b

  test_at-At :
      (p : Phase) (q : Request W) (rest : List (Request W)) (r : Serving W)
      → At r
      → Then At (test_at p q rest r)
  test_at-At counted q rest r h = h
  test_at-At admitted q rest r h = tt
  test_at-At refused q rest r h = tt

  test_step-At :
      (x : Option (Request W × List (Request W))) (r : Serving W) → At r → Then At (test_step x r)
  test_step-At none r h = tt
  test_step-At (some (q, rest)) r h = test_at-At q.phase q rest r h

  replied-At :
      (a : Option FinalStdoutResp × W) (rest : List (Request W)) (r : Serving W)
      → At r
      → At (replied rest a r)
  replied-At (none, v) rest r h = h
  replied-At (some a, v) rest r h = h

  answer_at-At :
      (p : Phase) (q : Request W) (rest : List (Request W)) (r : Serving W)
      → At r
      → Then At (answer_at p q rest r)
  unfolding finished
  answer_at-At counted q rest r h = tt
  answer_at-At admitted q rest r h =
      replied-At (serve false q.methods q.trace_id q.req r.world) rest r h
  answer_at-At refused q rest r h =
      replied-At (serve true q.methods q.trace_id q.req r.world) rest r h

  answer_step-At :
      (x : Option (Request W × List (Request W))) (r : Serving W) → At r → Then At (answer_step x r)
  answer_step-At none r h = tt
  answer_step-At (some (q, rest)) r h = answer_at-At q.phase q rest r h

  wait_step-At :
      (c : StopAt) (n : ℕ) (r : Serving W)
      → c ≡ b
      → is_waiting b ≡ false
      → Then At (wait_step c n r)
  wait_step-At waiting n r e calm = cc (ap is_waiting e, calm)
  wait_step-At not_called n r e calm = tt
  wait_step-At returned n r e calm = tt

  pub step-At :
      (e : Event W) (r : Serving W)
      → is_stop_call e ≡ false
      → is_waiting b ≡ false
      → At r
      → Then At (step e r)
  unfolding step live_step
  step-At e r other calm h = unless_exited At r.has_exited (live_step e r) (live e other)
    where
      live : (e : Event W) → is_stop_call e ≡ false → Then At (live_step e r)
      live (received methods trace_id req) other = h
      live (tested i) other = test_step-At (picked i r.requests) r h
      live (answered i) other = answer_step-At (picked i r.requests) r h
      live stop_called other = cc
      live wait_ended other = wait_step-At r.stop r.serving_wait r h calm

-- Once the Stop of the registry is back, it stays so.
abbrev pub Back : Goroutines → Type 0
Back s = s.stop ≡ registry_returned

select_step-Back :
    (a : SchedAt) (c : RegistryStopAt) (s : Goroutines)
    → s.stop ≡ c
    → Back s
    → RegistryThen Back (select_step a c s)
unfolding select_step
select_step-Back a c s e h = ground arith

query_step-Back :
    (a next : SchedAt) (s : Goroutines) → Back s → RegistryThen Back (query_step a next s)
unfolding query_step
query_step-Back a next s h = ground arith

send_step-Back :
    (a : SchedAt) (w : WorkerAt) (i : ℕ) (s : Goroutines)
    → Back s
    → RegistryThen Back (send_step a w i s)
unfolding send_step
send_step-Back a w i s h = ground arith

sent_step-Back : (a : SchedAt) (s : Goroutines) → Back s → RegistryThen Back (sent_step a s)
unfolding sent_step
sent_step-Back a s h = ground arith

wake_step-Back : (a : SchedAt) (s : Goroutines) → Back s → RegistryThen Back (wake_step a s)
unfolding wake_step
wake_step-Back a s h = ground arith

checked_step-Back :
    (w : WorkerAt) (i : ℕ) (s : Goroutines) → Back s → RegistryThen Back (checked_step w i s)
unfolding checked_step
checked_step-Back w i s h = ground arith

tick_step-Back :
    (w : WorkerAt) (p : Bool) (i : ℕ) (s : Goroutines)
    → Back s
    → RegistryThen Back (tick_step w p i s)
unfolding tick_step
tick_step-Back w p i s h = ground arith

wait_step-Back :
    (c : RegistryStopAt) (k : ℕ) (s : Goroutines) → Back s → RegistryThen Back (registry_wait c k s)
unfolding registry_wait
wait_step-Back c k s h = ground arith

pub step-Back :
    (e : RegistryEvent) (s : Goroutines) → Back s → RegistryThen Back (registry_step e s)
unfolding registry_step stop_step exit_step
step-Back stop_registry s h = rw h tt
step-Back stop_sends s h = rw h tt
step-Back sched_selects s h = select_step-Back s.sched s.stop s refl h
step-Back (page_found n) s h = query_step-Back s.sched (sending n) s h
step-Back health_check_ended s h = query_step-Back s.sched sleeping s h
step-Back (service_sent i) s h = send_step-Back s.sched (worker_at i s.workers) i s h
step-Back page_sent s h = sent_step-Back s.sched s h
step-Back sched_wakes s h = wake_step-Back s.sched s h
step-Back (service_checked i) s h = checked_step-Back (worker_at i s.workers) i s h
step-Back (ticked i) s h = tick_step-Back (worker_at i s.workers) s.is_paused i s h
step-Back registry_wait_ended s h = wait_step-Back s.stop s.exit_worker_wait s h

-- ===== src/Registry/Stopping/Stuck.antt =====
-- A Stop that never comes back: it sets the flag before it sends the exit signal, so the workers may
-- leave while HealthCheck has services to send, and then nothing receives either.
use easytask.Base.{ℕ, zero, suc, ◌≡◌, ◌≢◌, refl, List, some, arith, ap, false, [], ◌∷◌, ◌∙◌, sym}
use easytask.Registry.Stopping.{
  exited, sending, WorkerAt, idle, checking, gone, StopAt, not_called, pausing, waiting, returned,
  Goroutines, created, Event, stop_called, stop_sends, sched_selects, page_found,
  health_check_ended, service_sent, page_sent, sched_wakes, service_checked, ticked, wait_ended,
  worker_at, select_step, query_step, send_step, sent_step, wake_step, checked_step, tick_step,
  stop_step, exit_step, wait_step, step, run,
}
use easytask.Registry.Stopping.Returned.{
  alive, Then, has_exited, is_signalled, run-keeps, run-Balanced,
}

-- All the workers have left while a service is to be sent, and Stop is not past the exit signal.
pub record Stuck (s : Goroutines) : Type 0 where
  pub left : ℕ
  pub unsent : s.sched ≡ sending (suc left)
  pub none_alive : alive s.workers ≡ 0
  pub unsignalled : is_signalled s.stop ≡ false

worker_at-gone : (i : ℕ) (ws : List WorkerAt) → alive ws ≡ 0 → worker_at i ws ≡ gone
worker_at-gone i [] h = refl
worker_at-gone zero (gone ∷ ws) h = refl
worker_at-gone zero (idle ∷ ws) h = absurd (omega (arith, h))
worker_at-gone zero (checking ∷ ws) h = absurd (omega (arith, h))
worker_at-gone (suc i) (w ∷ ws) h = worker_at-gone i ws (omega (arith, h))

stop_step-Stuck : (b : StopAt) (s : Goroutines) → Stuck s → Then Stuck (stop_step b s)
unfolding stop_step
stop_step-Stuck not_called s v = record {
  left = v.left;
  unsent = v.unsent;
  none_alive = v.none_alive;
  unsignalled = refl;
}
stop_step-Stuck b s v = tt

exit_step-Stuck : (b : StopAt) (s : Goroutines) → Stuck s → Then Stuck (exit_step b s)
unfolding exit_step
exit_step-Stuck pausing s v = record {
  left = v.left;
  unsent = v.unsent;
  none_alive = v.none_alive;
  unsignalled = refl;
}
exit_step-Stuck b s v = tt

wait_step-Stuck :
    (b : StopAt) (k : ℕ) (s : Goroutines) → s.stop ≡ b → Stuck s → Then Stuck (wait_step b k s)
unfolding wait_step
wait_step-Stuck waiting zero s e v = cc (ap is_signalled e, v.unsignalled)
wait_step-Stuck b k s e v = tt

pub step-Stuck : (e : Event) (s : Goroutines) → Stuck s → Then Stuck (step e s)
unfolding step
step-Stuck stop_called s v = stop_step-Stuck s.stop s v
step-Stuck stop_sends s v = exit_step-Stuck s.stop s v
step-Stuck sched_selects s v = rw (v.unsent, select_step) tt
step-Stuck (page_found n) s v = rw (v.unsent, query_step) tt
step-Stuck health_check_ended s v = rw (v.unsent, query_step) tt
step-Stuck (service_sent i) s v =
    rw (v.unsent, worker_at-gone i s.workers v.none_alive, send_step) tt
step-Stuck page_sent s v = rw (v.unsent, sent_step) tt
step-Stuck sched_wakes s v = rw (v.unsent, wake_step) tt
step-Stuck (service_checked i) s v = rw (worker_at-gone i s.workers v.none_alive, checked_step) tt
step-Stuck (ticked i) s v = rw (worker_at-gone i s.workers v.none_alive, tick_step) tt
step-Stuck wait_ended s v = wait_step-Stuck s.stop s.exit_worker_wait s refl v

-- Once all the workers have left while HealthCheck still has a service to send, Stop never comes back,
-- whatever happens: the service stays unsent, and Stop does not get past its signal.
pub run-stuck :
    (size left : ℕ) (es later : List Event) (s t : Goroutines)
    → run es (created size) ≡ some s
    → s.sched ≡ sending (suc left)
    → alive s.workers ≡ 0
    → run later s ≡ some t
    → (t.stop ≢ returned) × (t.stop ≢ waiting) × (t.sched ≢ exited)
run-stuck size left es later s t h a b k =
    let before = run-Balanced size es s h in
    let start : Stuck s = record {
      left = left;
      unsent = a;
      none_alive = b;
      unsignalled = sym before.signalled ∙ ap has_exited a;
    } in
    let after = run-keeps Stuck step-Stuck later s t start k in
    (
      (λ e. cc (ap is_signalled e, after.unsignalled)),
      (λ e. cc (ap is_signalled e, after.unsignalled)),
      (λ e. cc (e, after.unsent)),
    )

-- ===== src/Registry/Stopping/Returned.antt =====
-- What has happened when Stop is back.
use easytask.Base.{
  ◌⊎◌, inl, inr, ℕ, zero, suc, ◌+◌, ◌≡◌, refl, sym, ap, ◌∙◌, inl, inr, Bool, true, false, List, [],
  ◌∷◌, Option, none, some, Option-cases, arith, subst,
}
use easytask.Registry.Stopping.{
  SchedAt, sleeping, exited, sending, WorkerAt, idle, checking, gone, StopAt, waiting, returned,
  Goroutines, idle_workers, created, Event, stop_called, stop_sends, sched_selects, page_found,
  health_check_ended, service_sent, page_sent, sched_wakes, service_checked, ticked, wait_ended,
  worker_at, moved, select_step, query_step, send_step, sent_step, wake_step, checked_step,
  tick_step, stop_step, exit_step, wait_step, step, run,
}

-- 1 for a worker that is still in its loop, and the number of those.
abbrev pub in_loop : WorkerAt → ℕ
in_loop gone = 0
in_loop _ = 1

abbrev pub alive : List WorkerAt → ℕ
alive [] = 0
alive (w ∷ ws) = in_loop w + alive ws

abbrev pub has_exited : SchedAt → Bool
has_exited exited = true
has_exited _ = false

-- Whether Stop is past the exit signal, and whether it is back.
abbrev pub is_signalled : StopAt → Bool
is_signalled waiting = true
is_signalled returned = true
is_signalled _ = false

abbrev pub is_back : StopAt → Bool
is_back returned = true
is_back _ = false

-- The wait group counts the workers in their loop, `sched` has left exactly if it took the signal of
-- Stop, and Stop comes back only when the counter is zero.
pub record Balanced (s : Goroutines) : Type 0 where
  pub counted : s.exit_worker_wait ≡ alive s.workers
  pub signalled : has_exited s.sched ≡ is_signalled s.stop
  pub settled : is_back s.stop ≡ true → s.exit_worker_wait ≡ 0

-- A predicate of the state that a step leads to, if it can be taken.
abbrev pub Then : (Goroutines → Type 0) → Option Goroutines → Type 0
Then P none = Unit
Then P (some t) = P t

alive-moved :
    (i : ℕ) (v : WorkerAt) (ws : List WorkerAt) (w : WorkerAt)
    → worker_at i ws ≡ w
    → in_loop w ≡ 1
    → alive (moved i v ws) + 1 ≡ in_loop v + alive ws
alive-moved i v [] w e h = cc
alive-moved zero v (u ∷ ws) w e h = omega (arith, ap in_loop e)
alive-moved (suc i) v (u ∷ ws) w e h = omega (arith, alive-moved i v ws w e h)

select_step-Balanced :
    (a : SchedAt) (b : StopAt) (s : Goroutines)
    → s.sched ≡ a
    → s.stop ≡ b
    → Balanced s
    → Then Balanced (select_step a b s)
unfolding select_step
select_step-Balanced a b s e f v = ground arith

send_step-Balanced :
    (a : SchedAt) (w : WorkerAt) (i : ℕ) (s : Goroutines)
    → s.sched ≡ a
    → worker_at i s.workers ≡ w
    → Balanced s
    → Then Balanced (send_step a w i s)
unfolding send_step
send_step-Balanced (sending (suc n)) idle i s e f v =
    ground (arith, alive-moved i checking s.workers idle f refl)
send_step-Balanced a w i s e f v = ground arith

checked_step-Balanced :
    (w : WorkerAt) (i : ℕ) (s : Goroutines)
    → worker_at i s.workers ≡ w
    → Balanced s
    → Then Balanced (checked_step w i s)
unfolding checked_step
checked_step-Balanced checking i s f v =
    ground (arith, alive-moved i idle s.workers checking f refl)
checked_step-Balanced w i s f v = ground arith

tick_step-Balanced :
    (w : WorkerAt) (p : Bool) (i : ℕ) (s : Goroutines)
    → worker_at i s.workers ≡ w
    → Balanced s
    → Then Balanced (tick_step w p i s)
unfolding tick_step
tick_step-Balanced idle true i s f v = ground (arith, alive-moved i gone s.workers idle f refl)
tick_step-Balanced idle false i s f v = v
tick_step-Balanced w p i s f v = ground arith

-- The steps that leave the workers and the counter alone.
query_step-Balanced :
    (a : SchedAt) (next : SchedAt) (s : Goroutines)
    → s.sched ≡ a
    → has_exited next ≡ false
    → Balanced s
    → Then Balanced (query_step a next s)
unfolding query_step
query_step-Balanced a next s e f v = ground arith

sent_step-Balanced :
    (a : SchedAt) (s : Goroutines) → s.sched ≡ a → Balanced s → Then Balanced (sent_step a s)
unfolding sent_step
sent_step-Balanced (sending zero) s e v = ground arith
sent_step-Balanced a s e v = ground arith

wake_step-Balanced :
    (a : SchedAt) (s : Goroutines) → s.sched ≡ a → Balanced s → Then Balanced (wake_step a s)
unfolding wake_step
wake_step-Balanced a s e v = ground arith

stop_step-Balanced :
    (b : StopAt) (s : Goroutines) → s.stop ≡ b → Balanced s → Then Balanced (stop_step b s)
unfolding stop_step
stop_step-Balanced b s e v = ground arith

exit_step-Balanced :
    (b : StopAt) (s : Goroutines) → s.stop ≡ b → Balanced s → Then Balanced (exit_step b s)
unfolding exit_step
exit_step-Balanced b s e v = ground arith

wait_step-Balanced :
    (b : StopAt) (k : ℕ) (s : Goroutines)
    → s.stop ≡ b
    → s.exit_worker_wait ≡ k
    → Balanced s
    → Then Balanced (wait_step b k s)
unfolding wait_step
wait_step-Balanced waiting zero s e f v = ground arith
wait_step-Balanced b k s e f v = ground arith

pub step-Balanced : (e : Event) (s : Goroutines) → Balanced s → Then Balanced (step e s)
unfolding step
step-Balanced stop_called s v = stop_step-Balanced s.stop s refl v
step-Balanced stop_sends s v = exit_step-Balanced s.stop s refl v
step-Balanced sched_selects s v = select_step-Balanced s.sched s.stop s refl refl v
step-Balanced (page_found n) s v = query_step-Balanced s.sched (sending n) s refl refl v
step-Balanced health_check_ended s v = query_step-Balanced s.sched sleeping s refl refl v
step-Balanced (service_sent i) s v =
    send_step-Balanced s.sched (worker_at i s.workers) i s refl refl v
step-Balanced page_sent s v = sent_step-Balanced s.sched s refl v
step-Balanced sched_wakes s v = wake_step-Balanced s.sched s refl v
step-Balanced (service_checked i) s v = checked_step-Balanced (worker_at i s.workers) i s refl v
step-Balanced (ticked i) s v = tick_step-Balanced (worker_at i s.workers) s.is_paused i s refl v
step-Balanced wait_ended s v = wait_step-Balanced s.stop s.exit_worker_wait s refl refl v

-- What every step keeps holds after every sequence of events.
pub run-keeps :
    (P : Goroutines → Type 0)
    → ((e : Event) (s : Goroutines) → P s → Then P (step e s))
    → (es : List Event) (s t : Goroutines) → P s
    → run es s ≡ some t
    → P t
unfolding run
run-keeps P keep [] s t v h = subst (Then P) h v
run-keeps P keep (e ∷ es) s t v h = elim (Option-cases (step e s)) [
  | inl stuck ↦ cc (rw (run, stuck) at h)
  | inr (u, next) ↦ run-keeps P keep es u t (subst (Then P) next (keep e s v)) (rw (run, next) at h)
]

alive-idle_workers : (n : ℕ) → alive (idle_workers n) ≡ n
alive-idle_workers zero = refl
alive-idle_workers (suc n) = omega (arith, alive-idle_workers n)

pub created-Balanced : (size : ℕ) → Balanced (created size)
unfolding created
created-Balanced size = record {
  counted = sym (alive-idle_workers _);
  signalled = refl;
  settled = λ h. cc;
}

pub run-Balanced :
    (size : ℕ) (es : List Event) (s : Goroutines) → run es (created size) ≡ some s → Balanced s
run-Balanced size es s h =
    run-keeps Balanced step-Balanced es (created size) s (created-Balanced size) h

back_or_alive : (b : Bool) (n : ℕ) → (b ≡ true → n ≡ 0) → (b ≡ false) ⊎ (n ≡ 0)
back_or_alive true n h = inr (h refl)
back_or_alive false n h = inl refl

-- At any time the wait group counts the workers that are in their loop, the loop of `sched` has been
-- left exactly if Stop is past its exit signal, and Stop is not back unless no worker is in its loop.
pub run-returned :
    (size : ℕ) (es : List Event) (s : Goroutines)
    → run es (created size) ≡ some s
    → (s.exit_worker_wait ≡ alive s.workers)
      × (has_exited s.sched ≡ is_signalled s.stop)
      × ((is_back s.stop ≡ false) ⊎ (alive s.workers ≡ 0))
run-returned size es s h =
    let v = run-Balanced size es s h in
    (
      v.counted,
      v.signalled,
      back_or_alive (is_back s.stop) (alive s.workers) (λ back. sym v.counted ∙ v.settled back),
    )

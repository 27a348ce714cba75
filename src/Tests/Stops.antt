-- ===== src/Tests/Stops.antt =====
-- The registry is stopped, in order and while services are being sent.
use easytask.Base.{◌⊎◌, false, ◌≡◌, ◌≢◌, refl, true, List, [], ◌∷◌, some}
use easytask.Registry.Stopping.{
  exited, sending, gone, signalling, waiting, returned, Goroutines, created, Event, stop_called,
  stop_sends, sched_selects, page_found, health_check_ended, service_sent, page_sent, sched_wakes,
  service_checked, ticked, wait_ended, run,
}
use easytask.Registry.Stopping.Returned.{alive, has_exited, is_signalled, is_back, run-returned}
use easytask.Registry.Stopping.Stuck.{run-stuck}

-- Two workers check the two services of a page; then Stop is called, and comes back.
abbrev in_order : List Event
in_order =
    sched_selects
    ∷ page_found 2
    ∷ service_sent 0
    ∷ service_sent 1
    ∷ page_sent
    ∷ health_check_ended
    ∷ stop_called
    ∷ stop_sends
    ∷ service_checked 0
    ∷ ticked 0
    ∷ sched_wakes
    ∷ sched_selects
    ∷ service_checked 1
    ∷ ticked 1
    ∷ wait_ended
    ∷ []

abbrev stopped : Goroutines
stopped = record {
  sched = exited;
  workers = gone ∷ gone ∷ [];
  stop = returned;
  is_paused = true;
  exit_worker_wait = 0;
}

in_order-run : run in_order (created 2) ≡ some stopped
unfolding run created
in_order-run = refl

run-returned_example :
    (stopped.exit_worker_wait ≡ alive stopped.workers)
    × (has_exited stopped.sched ≡ is_signalled stopped.stop)
    × ((is_back stopped.stop ≡ false) ⊎ (alive stopped.workers ≡ 0))
run-returned_example = run-returned 2 in_order stopped in_order-run

-- Stop is called while one of two services is not sent yet, and the only worker leaves.
abbrev too_early : List Event
too_early =
    sched_selects
    ∷ page_found 2
    ∷ service_sent 0
    ∷ stop_called
    ∷ stop_sends
    ∷ service_checked 0
    ∷ ticked 0
    ∷ []

abbrev hanging : Goroutines
hanging = record {
  sched = sending 1;
  workers = gone ∷ [];
  stop = signalling;
  is_paused = true;
  exit_worker_wait = 0;
}

too_early-run : run too_early (created 1) ≡ some hanging
unfolding run created
too_early-run = refl

run-stuck_example : (hanging.stop ≢ returned) × (hanging.stop ≢ waiting) × (hanging.sched ≢ exited)
unfolding run
run-stuck_example = run-stuck 1 0 too_early [] hanging hanging too_early-run refl refl refl

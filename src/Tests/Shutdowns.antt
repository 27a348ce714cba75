-- ===== src/Tests/Shutdowns.antt =====
-- A signal stops the process, in order, and does not where the registry hangs.
use easytask.Base.{◌≡◌, refl, false, true, List, [], ◌∷◌, Text, some}
use easytask.Registry.Stopping.{
  sched_selects, page_found, service_sent, service_checked, ticked, wait_ended, exited, sending,
  gone, signalling, returned, stop_sends,
}
use easytask.Engine.Worker.{done}
use easytask.Router.Serving.{not_called, returned as api_returned, wait_ended as api_wait_ended}
use easytask.Shutdown.{
  Program, Happening, exited as process_exited, stopping_registry, signalled, registry_stopped,
  sched_signalled, workers_gone, api_stopped, registry_event, round_ended, router_event, started,
  run,
}
use easytask.Shutdown.Ordered.{Ordered, is_past_registry, run-Ordered}
use easytask.Shutdown.Hanging.{run-hanging}

-- One worker of each pool.
abbrev in_order : List (Happening Text)
in_order =
    signalled
    ∷ registry_event stop_sends
    ∷ registry_event sched_selects
    ∷ registry_event (ticked 0)
    ∷ registry_event wait_ended
    ∷ registry_stopped
    ∷ sched_signalled
    ∷ round_ended 0 done
    ∷ workers_gone
    ∷ router_event api_wait_ended
    ∷ api_stopped
    ∷ []

abbrev ended : Program Text
ended = record {
  shutdown = process_exited;
  registry = record {
    sched = exited;
    workers = gone ∷ [];
    stop = returned;
    is_paused = true;
    exit_worker_wait = 0;
  };
  engine = record { waiting = 0; running = false ∷ []; is_paused = true };
  router = record {
    is_paused = true;
    serving_wait = 0;
    requests = [];
    stop = api_returned;
    world = [];
    answers = [];
    has_exited = false;
  };
}

in_order-run : run in_order (started 1 1 []) ≡ some ended
unfolding run started
in_order-run = refl

run-Ordered_example : Ordered ended
run-Ordered_example = run-Ordered 1 1 [] in_order ended in_order-run

-- The signal comes while one of two services is not sent.
abbrev too_early : List (Happening Text)
too_early =
    registry_event sched_selects
    ∷ registry_event (page_found 2)
    ∷ registry_event (service_sent 0)
    ∷ signalled
    ∷ registry_event stop_sends
    ∷ registry_event (service_checked 0)
    ∷ registry_event (ticked 0)
    ∷ []

abbrev hanging : Program Text
hanging = record {
  shutdown = stopping_registry;
  registry = record {
    sched = sending 1;
    workers = gone ∷ [];
    stop = signalling;
    is_paused = true;
    exit_worker_wait = 0;
  };
  engine = record { waiting = 1; running = true ∷ []; is_paused = false };
  router = record {
    is_paused = false;
    serving_wait = 0;
    requests = [];
    stop = not_called;
    world = [];
    answers = [];
    has_exited = false;
  };
}

too_early-run : run too_early (started 1 1 []) ≡ some hanging
unfolding run started
too_early-run = refl

run-hanging_example :
    (is_past_registry hanging.shutdown ≡ false) × (hanging.router.stop ≡ not_called)
unfolding run
run-hanging_example = run-hanging 1 1 0 [] too_early [] hanging hanging too_early-run refl refl refl

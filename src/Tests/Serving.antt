-- ===== src/Tests/Serving.antt =====
-- The router is stopped while a request is served, and another comes later.
use easytask.Base.{◌≡◌, ◌⊎◌, refl, false, true, Text, codes, List, [], ◌∷◌, All, some}
use easytask.Errs.{err_code_server_stopped}
use easytask.Router.{FinalStdoutResp, resp_err}
use easytask.Router.Serving.{
  returned, waiting, admitted, Serving, Event, received, tested, answered, stop_called, wait_ended,
  serving_started, run,
}
use easytask.Router.Serving.Stopped.{Quiet, run-Quiet}
use easytask.Router.Serving.Drained.{is_new, run-Drains}
use easytask.Tests.Routing.{methods, posted, echoed}

abbrev one_request : List (Event Text)
one_request =
    received methods (codes "t") posted ∷ tested 0 ∷ stop_called ∷ answered 0 ∷ wait_ended ∷ []

abbrev another : List (Event Text)
another = received methods (codes "u") posted ∷ tested 0 ∷ answered 0 ∷ []

abbrev later_answer : FinalStdoutResp
later_answer = resp_err err_code_server_stopped [] (codes "u")

abbrev back : List FinalStdoutResp → Serving Text
back answers = record {
  is_paused = true;
  serving_wait = 0;
  requests = [];
  stop = returned;
  world = [];
  answers = answers;
  has_exited = false;
}

one_request-run : run one_request (serving_started []) ≡ some (back (echoed ∷ []))
unfolding run serving_started
one_request-run = refl

another-run : run another (back (echoed ∷ [])) ≡ some (back (later_answer ∷ echoed ∷ []))
unfolding run
another-run = refl

run-Quiet_example : Quiet (back (echoed ∷ [])) (back (later_answer ∷ echoed ∷ []))
run-Quiet_example = run-Quiet one_request another [] _ _ one_request-run refl another-run

abbrev waited : Serving Text
waited = record {
  is_paused = true;
  serving_wait = 1;
  requests =
      record { phase = admitted; methods = methods; trace_id = codes "t"; req = posted } ∷ [];
  stop = waiting;
  world = [];
  answers = [];
  has_exited = false;
}

waited-run :
    run (received methods (codes "t") posted ∷ tested 0 ∷ stop_called ∷ []) (serving_started [])
    ≡ some waited
unfolding run serving_started
waited-run = refl

run-Drains_example :
    (later : List (Event Text)) × (t : Serving Text) × (run later waited ≡ some t)
    × All (λ e. is_new e ≡ false) later
    × ((t.stop ≡ returned) ⊎ (t.has_exited ≡ true))
run-Drains_example =
    run-Drains (received methods (codes "t") posted ∷ tested 0 ∷ stop_called ∷ []) [] waited
      waited-run refl refl

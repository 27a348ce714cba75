-- ===== src/Router/Serving.antt =====
-- internal/apiserver/http_router.go: Stop and the requests that are being served, as events over the
-- flag `isPaused` and the wait group `servingWait` that they share.
pub mod Orderly
pub mod Stopped
pub mod Drained
use easytask.Base.{
  ℕ, zero, suc, ◌+◌, ◌-◌, Bool, true, false, List, [], ◌∷◌, Option, none, some, if◌then◌else◌, Text,
}
use easytask.Router.{HttpReq, FinalStdoutResp, Methods, serve}

-- Where the handler function of a request stands: it has called Add; or it has read the flag and goes
-- on, or answers that the server is stopped.
pub data Phase : Type 0 where
  counted : Phase
  admitted : Phase
  refused : Phase

-- A request to a path, `methods` those of the path.
pub record Request (W : Type 0) : Type 1 where
  pub phase : Phase
  pub methods : Methods W
  pub trace_id : Text
  pub req : HttpReq

-- The call of Stop, which main.go makes once.
pub data StopAt : Type 0 where
  not_called : StopAt
  waiting : StopAt
  returned : StopAt

pub record Serving (W : Type 0) : Type 1 where
  pub is_paused : Bool
  pub serving_wait : ℕ
  pub requests : List (Request W)
  pub stop : StopAt
  pub world : W
  -- the newest first
  pub answers : List FinalStdoutResp
  -- a panic in a handler ends the process
  pub has_exited : Bool

-- `tested` and `answered` name a request by its place in the list.
pub data Event (W : Type 0) : Type 1 where
  received : Methods W → Text → HttpReq → Event W
  tested : ℕ → Event W
  answered : ℕ → Event W
  stop_called : Event W
  wait_ended : Event W

-- The element at a place, and the others.
unfoldable pub picked {ℓ} : {A : Type ℓ} → ℕ → List A → Option (A × List A)
picked i [] = none
picked zero (x ∷ xs) = some (x, xs)
picked (suc i) (x ∷ xs) = elim (picked i xs) [ none ↦ none | some p ↦ some (p.0, x ∷ p.1) ]

abbrev pub phase_of : Bool → Phase
phase_of is_paused = if is_paused then refused else admitted

module _ {W : Type 0} where
  unfoldable pub serving_started : W → Serving W
  serving_started w = record {
    is_paused = false;
    serving_wait = 0;
    requests = [];
    stop = not_called;
    world = w;
    answers = [];
    has_exited = false;
  }

  -- The test of the flag.
  abbrev pub test_at : Phase → Request W → List (Request W) → Serving W → Option (Serving W)
  test_at counted r rest s =
      some (record s { requests = record r { phase = phase_of s.is_paused } ∷ rest })
  test_at admitted r rest s = none
  test_at refused r rest s = none

  abbrev pub test_step : Option (Request W × List (Request W)) → Serving W → Option (Serving W)
  test_step none s = none
  test_step (some (r, rest)) s = test_at r.phase r rest s

  -- The rest of the handler function, with the deferred Done, which a panic does not get to: the
  -- process exits.
  abbrev pub replied : List (Request W) → Option FinalStdoutResp × W → Serving W → Serving W
  replied rest (none, v) s = record s { world = v; has_exited = true }
  replied rest (some a, v) s = record s {
    serving_wait = s.serving_wait - 1;
    requests = rest;
    world = v;
    answers = a ∷ s.answers;
  }

  unfoldable pub finished : Bool → Request W → List (Request W) → Serving W → Serving W
  unfolding serve
  finished is_paused r rest s = replied rest (serve is_paused r.methods r.trace_id r.req s.world) s

  abbrev pub answer_at : Phase → Request W → List (Request W) → Serving W → Option (Serving W)
  answer_at counted r rest s = none
  answer_at admitted r rest s = some (finished false r rest s)
  answer_at refused r rest s = some (finished true r rest s)

  abbrev pub answer_step : Option (Request W × List (Request W)) → Serving W → Option (Serving W)
  answer_step none s = none
  answer_step (some (r, rest)) s = answer_at r.phase r rest s

  abbrev pub stop_step : StopAt → Serving W → Option (Serving W)
  stop_step not_called s = some (record s { is_paused = true; stop = waiting })
  stop_step waiting s = none
  stop_step returned s = none

  abbrev pub wait_step : StopAt → ℕ → Serving W → Option (Serving W)
  wait_step waiting zero s = some (record s { stop = returned })
  wait_step waiting (suc n) s = none
  wait_step not_called n s = none
  wait_step returned n s = none

  -- An event, none where it cannot happen.
  unfoldable pub live_step : Event W → Serving W → Option (Serving W)
  unfolding picked finished
  live_step (received methods trace_id req) s = some (record s {
    serving_wait = s.serving_wait + 1;
    requests =
        record { phase = counted; methods = methods; trace_id = trace_id; req = req } ∷ s.requests;
  })
  live_step (tested i) s = test_step (picked i s.requests) s
  live_step (answered i) s = answer_step (picked i s.requests) s
  live_step stop_called s = stop_step s.stop s
  live_step wait_ended s = wait_step s.stop s.serving_wait s

  unfoldable pub step : Event W → Serving W → Option (Serving W)
  unfolding live_step
  step e s = if s.has_exited then none else live_step e s

  -- The state that a sequence of events leads to.
  unfoldable pub run : List (Event W) → Serving W → Option (Serving W)
  unfolding step
  run [] s = some s
  run (e ∷ es) s = elim (step e s) [ none ↦ none | some t ↦ run es t ]

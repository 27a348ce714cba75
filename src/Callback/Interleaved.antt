-- ===== src/Callback/Interleaved.antt =====
-- HeartBeat in internal/task/impl/callback/http.go: the goroutines of the routes, statement by
-- statement, over the variables `httpResp`, `err` and the two lists that they share. A call of doReq,
-- which ends by decoding into `httpResp`, is one statement; an append is two, which read the list and
-- store the longer one. A list is its elements: that two appends may write one place of an array that
-- they share is left out, and it takes a list of three for that.
pub mod Misplaced
pub mod Ended
use easytask.Base.{
  ℕ, zero, suc, Bool, true, false, List, [], ◌∷◌, ◌++◌, map, Option, none, some, if◌then◌else◌,
  Text, Error, Result, ok, err,
}
use easytask.Task.{TaskCallbackSrv, TaskCallbackSrvRoute, HeartBeatResp}
use easytask.Task.Logs.{TaskLogRepo}
use easytask.Callback.{Http, send, heart_beat_body}

-- Where a goroutine stands: at doReq, at the assignment of its error to `err`, at the test of `err`, at
-- the test of `httpResp.Pong`, at the two parts of an append, or past it.
pub data BeatAt : Type 0 where
  requesting : BeatAt
  returned : Option Error → BeatAt
  assigned : BeatAt
  unfailed : BeatAt
  appending : Bool → BeatAt
  storing : Bool → List TaskCallbackSrvRoute → BeatAt
  finished : BeatAt

pub record Shared (W : Type 0) : Type 0 where
  pub pong : Bool
  pub error : Option Error
  pub lists : HeartBeatResp
  pub world : W

pub record Beating (W : Type 0) : Type 0 where
  pub goroutines : List (TaskCallbackSrvRoute × BeatAt)
  pub shared : Shared W

-- Where the test of `err` leads.
abbrev pub tested : Option Error → BeatAt
tested none = unfailed
tested (some e) = appending false

-- The list that an append reads, and the lists after it is stored.
abbrev pub listed : Bool → HeartBeatResp → List TaskCallbackSrvRoute
listed replied b = if replied then b.reply_routes else b.no_reply_routes

abbrev pub relisted : Bool → List TaskCallbackSrvRoute → HeartBeatResp → HeartBeatResp
relisted replied rs b =
    if replied then record b { reply_routes = rs } else record b { no_reply_routes = rs }

module _ {W : Type 0} (h : Http W) (log_repo : TaskLogRepo W) where
  -- What doReq leaves in `httpResp`, and its error.
  abbrev pub decoded_into : Bool → Result Text → Bool × Option Error
  decoded_into pong (err e) = (pong, some e)
  decoded_into pong (ok raw) = h.unmarshal_pong raw pong

  abbrev pub requested : Result Text × W → Shared W → BeatAt × Shared W
  requested (raw, w) s =
      let (pong, e) = decoded_into s.pong raw in (returned e, record s { pong = pong; world = w })

  unfoldable pub beat_step : BeatAt → TaskCallbackSrvRoute → Shared W → BeatAt × Shared W
  unfolding send
  beat_step requesting r s =
      requested (send h log_repo r [] r.callback_timeout_sec (heart_beat_body 1) s.world) s
  beat_step (returned e) r s = (assigned, record s { error = e })
  beat_step assigned r s = (tested s.error, s)
  beat_step unfailed r s = (appending s.pong, s)
  beat_step (appending replied) r s = (storing replied (listed replied s.lists ++ r ∷ []), s)
  beat_step (storing replied rs) r s = (finished, record s { lists = relisted replied rs s.lists })
  beat_step finished r s = (finished, s)

  -- A statement of the goroutine at a place, and a sequence of those.
  unfoldable pub step_at :
      ℕ
      → List (TaskCallbackSrvRoute × BeatAt)
      → Shared W
      → List (TaskCallbackSrvRoute × BeatAt) × Shared W
  unfolding beat_step
  step_at i [] s = ([], s)
  step_at zero ((r, at) ∷ gs) s = let (at', s') = beat_step at r s in ((r, at') ∷ gs, s')
  step_at (suc i) (g ∷ gs) s = let (gs', s') = step_at i gs s in (g ∷ gs', s')

  unfoldable pub run : List ℕ → Beating W → Beating W
  unfolding step_at
  run [] b = b
  run (i ∷ is) b =
      let (gs, s) = step_at i b.goroutines b.shared in
      run is (record { goroutines = gs; shared = s })

  -- One goroutine for each route.
  unfoldable pub started : TaskCallbackSrv → W → Beating W
  started srv w = record {
    goroutines = map (λ r. (r, requesting)) srv.routes;
    shared = record {
      pong = false;
      error = none;
      lists = record { no_reply_routes = []; reply_routes = [] };
      world = w;
    };
  }

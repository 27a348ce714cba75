-- ===== src/Callback.antt =====
-- internal/task/impl/callback/http.go: the call of a task's callback service over HTTP.
pub mod Timeouts
pub mod Scheduled
pub mod HeartBeat
pub mod Interleaved
use easytask.Base.{
  ℕ, ◌==◌, ◌*◌, ◌%◌, Bool, true, false, List, [], ◌∷◌, ◌++◌, length, is_empty, Option, none, some,
  if◌then◌else◌, ℤ, pos, negsuc, suc, ltb_ℤ, wrap64, Text, codes, trim_space, trim_left, Error,
  panic, Result, ok, err, Io, ◌>>=◌, pure, lift, attempt, deref,
}
use easytask.Task.{
  Task, TaskCallbackSrv, TaskCallbackSrvRoute, TaskCallbackSrvResp, HeartBeatResp, Status,
  status_of_resp,
}
use easytask.Task.Logs.{
  TaskLogRepo, TaskCallbackLogDetail, callback, type_callback, must_new_task_log, log,
}
use easytask.Task.Repo.{TaskCallbackSrvExec}
use easytask.Mysql.Ids.{sprint_uint}

-- pkg/rpc/proto/httpproto/callback.go
pub record CallbackReq : Type 0 where
  pub cmd : ℕ
  pub task_id : Text
  pub task_name : Text
  pub arg : Text
  pub run_times : ℤ
  pub biz_id : Text

pub record CallbackResp : Type 0 where
  pub is_run_in_async : Bool
  pub is_success : Bool
  pub extra : Text

-- The two requests: that of a callback, and the `Cmd` of a heart beat.
pub data Body : Type 0 where
  callback_body : CallbackReq → Body
  heart_beat_body : ℕ → Body

-- A POST: the URL, the client's timeout in nanoseconds (0 is none), and the request.
pub record Post : Type 0 where
  pub url : Text
  pub timeout : ℤ
  pub body : Body

-- The network, the random source, the JSON decoder and the validator, as parameters.
pub record Http (W : Type 0) : Type 0 where
  -- http.NewRequest, Client.Do and io.ReadAll
  pub post : Post → Io W Text
  -- rand.Intn
  pub intn : ℕ → W → ℕ × W
  -- json.Unmarshal into a response that may hold values already: what it holds then, and the error
  pub unmarshal : Text → CallbackResp → CallbackResp × Option Error
  -- the same for the response to a heart beat, which is its `Pong`
  pub unmarshal_pong : Text → Bool → Bool × Option Error
  -- the order in which the goroutines of a heart beat finish
  pub order : List TaskCallbackSrvRoute → W → List TaskCallbackSrvRoute × W
  -- validator.New().Struct on the log detail's request
  pub check_log_detail : TaskCallbackLogDetail → Option Error

abbrev get_elem? {ℓ} : {A : Type ℓ} → List A → ℕ → Option A
get_elem? [] i = none
get_elem? (x ∷ xs) ℕ.zero = some x
get_elem? (x ∷ xs) (suc i) = get_elem? xs i

abbrev sprint_int : ℤ → Text
sprint_int (pos n) = sprint_uint n
sprint_int (negsuc n) = b'-' ∷ sprint_uint (suc n)

-- `doReqInput.Check`, past the validation.
unfoldable pub clean_path : Text → Text
unfolding trim_space trim_left
clean_path path =
    let trimmed = trim_space path in
    if is_empty trimmed then [] else b'/' ∷ trim_left (λ c. c == b'/') trimmed

unfoldable pub req_url : TaskCallbackSrvRoute → Text → Text
unfolding sprint_uint
req_url route path =
    route.scheme ++ (codes "://" ++ (route.host ++ (codes ":" ++ (sprint_int route.port ++ path))))

-- The smaller of the route's timeout and the task's longest run time.
unfoldable pub timeout_sec : TaskCallbackSrvRoute → Task → ℤ
timeout_sec route t =
    if ltb_ℤ t.max_run_time_sec route.callback_timeout_sec
    then t.max_run_time_sec
    else route.callback_timeout_sec

abbrev pub nanoseconds : ℤ → ℤ
nanoseconds (pos n) = wrap64 (pos (n * 1_000_000_000))
nanoseconds (negsuc n) = pos 0

-- `http.Client.Timeout`, which is set for a positive number of seconds only.
unfoldable pub client_timeout : ℤ → ℤ
unfolding wrap64
client_timeout sec = if ltb_ℤ (pos 0) sec then nanoseconds sec else pos 0

abbrev blank_resp : CallbackResp
blank_resp = record { is_run_in_async = false; is_success = false; extra = [] }

module _ {W : Type 0} (h : Http W) (log_repo : TaskLogRepo W) where
  -- `GetRandomRoute`: nil without routes.
  unfoldable pub get_random_route : TaskCallbackSrv → Io W (Option TaskCallbackSrvRoute)
  get_random_route srv w =
      if length srv.routes == 0
      then (ok none, w)
      else (let (i, w') = h.intn (length srv.routes) w in (ok (get_elem? srv.routes i), w'))

  -- `doReq`: the raw answer if there is one, the response as decoded, and the error.
  abbrev Answer : Type 0
  Answer = Option Text × CallbackResp × Option Error

  abbrev decoded : Result Text → Answer
  decoded (err e) = (none, blank_resp, some e)
  decoded (ok raw) = let r = h.unmarshal raw blank_resp in (some raw, r.0, r.1)

  -- `doReq` up to the decoder.
  unfoldable pub send : TaskCallbackSrvRoute → Text → ℤ → Body → Io W Text
  unfolding clean_path req_url client_timeout
  send route path sec body =
      h.post (record {
        url = req_url route (clean_path path);
        timeout = client_timeout sec;
        body = body;
      })

  unfoldable pub do_req : TaskCallbackSrvRoute → Text → ℤ → CallbackReq → Io W Answer
  unfolding send
  do_req route path sec req = do
    raw ← attempt (send route path sec (callback_body req))
    pure (decoded raw)

  -- The deferred log entry. Its `Err` is the error of marshalling the request, which is nil here.
  unfoldable pub log_detail : Task → TaskCallbackSrvRoute → Answer → TaskCallbackLogDetail
  unfolding status_of_resp
  log_detail t route a = record {
    task_id = t.id;
    callback_path = t.callback_path;
    run_times = t.run_times;
    route = some route;
    resp_raw = elim a.0 [ none ↦ [] | some raw ↦ raw ];
    is_run_in_async = a.1.is_run_in_async;
    task_status = status_of_resp a.1.is_success a.1.is_run_in_async;
    error = none;
  }

  -- Errors of the deferred function are logged and dropped.
  unfoldable pub log_callback : TaskCallbackLogDetail → Io W (Result (Unit {0}))
  unfolding must_new_task_log log
  log_callback d = elim (h.check_log_detail d) [
    | some e ↦ pure (err e)
    | none ↦ attempt (do l ← lift (must_new_task_log type_callback (callback d)); log log_repo l)
  ]

  abbrev answered : Answer → Result TaskCallbackSrvResp
  answered a = elim a.2 [
    | some e ↦ err e
    | none ↦ ok (record {
      is_run_in_async = a.1.is_run_in_async;
      is_success = a.1.is_success;
      extra = a.1.extra;
    })
  ]

  abbrev request : Task → CallbackReq
  request t = record {
    cmd = 0;
    task_id = t.id;
    task_name = t.name;
    arg = t.arg;
    run_times = t.run_times;
    biz_id = t.biz_id;
  }

  -- A nil route panics where its timeout is read.
  unfoldable pub callback_srv : Task → Io W TaskCallbackSrvResp
  unfolding get_random_route timeout_sec do_req log_detail log_callback
  callback_srv t = do
    srv ← lift (deref t.callback_srv)
    picked ← get_random_route srv
    route ← lift (deref picked)
    a ← do_req route t.callback_path (timeout_sec route t) (request t)
    _ ← log_callback (log_detail t route a)
    lift (answered a)

  -- A route's goroutine, in one piece: whether it replied, and the shared response after it.
  unfoldable pub beat_of : Bool → Result Text → Bool × Bool
  beat_of pong (err e) = (false, pong)
  beat_of pong (ok raw) =
      let r = h.unmarshal_pong raw pong in elim r.1 [ none ↦ (r.0, r.0) | some e ↦ (false, r.0) ]

  -- The route goes to one of the two lists.
  abbrev pub sorted_in : Bool → TaskCallbackSrvRoute → HeartBeatResp → HeartBeatResp
  sorted_in replied route b =
      if replied
      then record b { reply_routes = b.reply_routes ++ route ∷ [] }
      else record b { no_reply_routes = b.no_reply_routes ++ route ∷ [] }

  -- The goroutines, one after the other, over the response that they share.
  unfoldable pub beats : List TaskCallbackSrvRoute → Bool → HeartBeatResp → Io W HeartBeatResp
  unfolding send beat_of
  beats [] pong b = pure b
  beats (route ∷ routes) pong b = do
    raw ← attempt (send route [] route.callback_timeout_sec (heart_beat_body 1))
    let (replied, pong') = beat_of pong raw
    beats routes pong' (sorted_in replied route b)

  unfoldable pub heart_beat : TaskCallbackSrv → Io W HeartBeatResp
  unfolding beats
  heart_beat srv w =
      let (routes, w') = h.order srv.routes w in
      beats routes false (record { no_reply_routes = []; reply_routes = [] }) w'

  abbrev pub http_exec : TaskCallbackSrvExec W
  http_exec = record { callback_srv = callback_srv; heart_beat = heart_beat }

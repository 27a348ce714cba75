-- ===== src/Router.antt =====
-- internal/apiserver/http_router.go: the table of routes, what a request is answered, and how the
-- answer is written.
pub mod Table
pub mod Boot
pub mod Replies
pub mod Writing
pub mod Serving
use easytask.Base.{
  ℕ, zero, suc, ◌+◌, ltb, leb, Bool, true, false, List, [], ◌∷◌, length, drop, is_empty, Option,
  none, some, if◌then◌else◌, Text, codes, text_eq, Error, biz, new, num_syntax, num_range,
  record_not_found, panic, foreign, Result, ok, err, Io, ◌>>=◌, pure, fail,
}
use easytask.Errs.{
  get_err_msg, err_code_internal, err_code_route_method_not_allow, err_code_args_invalid,
  err_code_server_stopped, err_server_started,
}

pub record HttpReq : Type 0 where
  pub method : Text
  pub path : Text
  pub raw : Text

-- FinalStdoutResp of pkg/rpc/proto/httpproto/api.go, its `Data`, as JSON, is `content`.
pub record FinalStdoutResp : Type 0 where
  pub code : ℕ
  pub msg : Text
  pub content : Option Text
  pub hint : Text

-- A handler as reflection sees it: its types, the readers of arguments, the validator of the
-- request's struct tags, and the JSON of a response.
pub record HandlerReflect (W : Type 0) : Type 1 where
  pub Req : Type 0
  pub Resp : Type 0
  pub blank : Req
  pub post_arg : Text → Req → Result Req
  pub get_arg : Text → Req → Result Req
  pub validate : Req → Option Text
  pub handler : Req → Io W Resp
  pub to_json : Resp → Result Text

-- A map as the list of its keys and values.
unfoldable pub lookup {ℓ} : {A : Type ℓ} → Text → List (Text × A) → Option A
unfolding text_eq
lookup key [] = none
lookup key ((k, v) ∷ rest) = let found = lookup key rest in if text_eq k key then some v else found

unfoldable pub insert {ℓ} : {A : Type ℓ} → Text → A → List (Text × A) → List (Text × A)
unfolding text_eq
insert key v [] = (key, v) ∷ []
insert key v ((k, u) ∷ rest) =
    let later = (k, u) ∷ insert key v rest in if text_eq k key then (key, v) ∷ rest else later

abbrev pub Methods : Type 0 → Type 1
Methods W = List (Text × HandlerReflect W)

pub record HttpRouter (W : Type 0) : Type 1 where
  pub route_map : List (Text × Methods W)
  pub is_booted : Bool
  pub is_paused : Bool

pub record HttpRoute (W : Type 0) : Type 1 where
  pub path : Text
  pub method : Text
  pub handler : HandlerReflect W

module _ {W : Type 0} where
  abbrev pub known_methods : Option (Methods W) → Methods W
  known_methods none = []
  known_methods (some methods) = methods

  -- The methods of a path, none where the path is new.
  abbrev pub methods_of : Text → List (Text × Methods W) → Methods W
  methods_of path map = known_methods (lookup path map)

  abbrev pub stored_route : HttpRoute W → HttpRouter W → HttpRouter W
  stored_route route r = record r {
    route_map =
        insert route.path (insert route.method route.handler (methods_of route.path r.route_map))
          r.route_map;
  }

  -- `check` is the validation of the route and the tests on the handler's type.
  unfoldable pub register :
      (HttpRoute W → Option Error) → HttpRoute W → HttpRouter W → Result (HttpRouter W)
  unfolding lookup insert
  register check route r =
      if r.is_booted
      then err err_server_started
      else elim (check route) [ some e ↦ err e | none ↦ ok (stored_route route r) ]

  -- On an error the routes before it stay registered.
  unfoldable pub register_batch :
      (HttpRoute W → Option Error)
      → List (HttpRoute W)
      → HttpRouter W
      → Result (Unit {0}) × HttpRouter W
  unfolding register
  register_batch check [] r = (ok tt, r)
  register_batch check (route ∷ routes) r = elim (register check route r) [
    | err e ↦ (err e, r)
    | ok r' ↦ register_batch check routes r'
  ]

  unfoldable pub new_http_router : HttpRouter W
  new_http_router = record { route_map = []; is_booted = false; is_paused = false }

  -- `Stop`, before it waits for the requests being served.
  unfoldable pub stop : HttpRouter W → HttpRouter W
  stop r = record r { is_paused = true }

-- `respErr`, before the response is written.
unfoldable pub resp_err : ℕ → Text → Text → FinalStdoutResp
unfolding get_err_msg
resp_err code msg trace_id = record {
  code = code;
  msg = if is_empty msg then get_err_msg code else msg;
  content = none;
  hint = trace_id;
}

module _ {W : Type 0} where
  -- The argument of the handler, by the method of the request.
  unfoldable pub arg_of : (r : HandlerReflect W) → HttpReq → Result r.Req
  unfolding text_eq
  arg_of r q =
      if text_eq q.method (codes "POST")
      then r.post_arg q.raw r.blank
      else if text_eq q.method (codes "GET")
      then r.get_arg q.raw r.blank
      else ok r.blank

  -- What the handler's result is answered. A panic ends the process, without an answer. The error of
  -- json.Marshal is none of this package's HandleErr, for which the code has a branch.
  unfoldable pub reply_of : (r : HandlerReflect W) → Text → Result r.Resp → Option FinalStdoutResp
  unfolding resp_err
  reply_of r trace_id (err (biz code msg)) = some (resp_err code msg trace_id)
  reply_of r trace_id (err panic) = none
  reply_of r trace_id (err _) = some (resp_err err_code_internal [] trace_id)
  reply_of r trace_id (ok resp) = elim (r.to_json resp) [
    | err e ↦ some (resp_err err_code_internal [] trace_id)
    | ok json ↦ some (record { code = 0; msg = []; content = some json; hint = trace_id })
  ]

  -- The rest of the handler function, for a request with its argument.
  unfoldable pub call :
      (r : HandlerReflect W) → Text → Result r.Req → W → Option FinalStdoutResp × W
  unfolding resp_err reply_of
  call r trace_id (err e) w = (some (resp_err err_code_args_invalid [] trace_id), w)
  call r trace_id (ok arg) w = elim (r.validate arg) [
    | some msg ↦ (some (resp_err err_code_args_invalid msg trace_id), w)
    | none ↦ (let (res, v) = r.handler arg w in (reply_of r trace_id res, v))
  ]

  -- What a request to a path is answered, `methods` those of the path.
  unfoldable pub serve : Bool → Methods W → Text → HttpReq → W → Option FinalStdoutResp × W
  unfolding lookup resp_err arg_of call
  serve is_paused methods trace_id q w =
      if is_paused
      then (some (resp_err err_code_server_stopped [] trace_id), w)
      else elim (lookup q.method methods) [
        | none ↦ (some (resp_err err_code_route_method_not_allow [] trace_id), w)
        | some r ↦ call r trace_id (arg_of r q) w
      ]

-- The loop of `writeResp`, on fuel: `write` is the writer's method, `written` the bytes so far. The
-- slice is taken from the rest by the number of all bytes written, and out of range it panics.
module _ {W : Type 0} (write : Text → Io W ℕ) where
  unfoldable pub write_loop : ℕ → ℕ → ℕ → Text → Io W (Option (Unit {0}))
  write_loop zero content_len written content = pure none
  write_loop (suc fuel) content_len written content = do
    n ← write content
    (if leb content_len (written + n)
        then pure (some tt)
        else (if ltb (length content) (written + n)
            then fail panic
            else write_loop fuel content_len (written + n) (drop (written + n) content)))

  unfoldable pub write_resp : ℕ → Text → Io W (Option (Unit {0}))
  unfolding write_loop
  write_resp fuel content = write_loop fuel (length content) 0 content

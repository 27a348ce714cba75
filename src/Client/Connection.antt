-- ===== src/Client/Connection.antt =====
-- The client and a router at the two ends of a connection.
use easytask.Base.{
  ℕ, zero, suc, ◌≡◌, [], ◌++◌, is_empty, Option, none, some, if◌then◌else◌, pos, Bool, true, false,
  Text, codes, Error, biz, panic, Result, ok, err, Io,
}
use easytask.Errs.{
  get_err_msg, err_code_internal, err_code_args_invalid, err_code_server_stopped, new_biz_err,
}
use easytask.Router.{HandlerReflect, HttpRouter, FinalStdoutResp, Methods, lookup, serve}
use easytask.Client.{HttpRequest, Net, Json, exchange}

-- What the peer of a connection reads: the answer as JSON, or that the connection was closed.
abbrev pub received :
    {W : Type 0} → (FinalStdoutResp → Text) → Error → Option FinalStdoutResp × W → Result Text × W
received envelope closed (some reply, w) = (ok (envelope reply), w)
received envelope closed (none, w) = (err closed, w)

-- net/http between a client and a router at an address: requests are built as asked for, a client
-- without a timeout waits for the answer of the path's handler function, and a request that is not
-- answered ends in the error `closed`. `envelope` is json.Marshal of the answer.
pub record Connection {W : Type 0} (net : Net W) (addr : Text) (router : HttpRouter W)
    : Type 1 where
  pub envelope : FinalStdoutResp → Text
  pub closed : Error
  pub trace_id_of : HttpRequest → Text
  pub builds :
      (path body : Text)
      → net.new_request (codes "POST") (addr ++ path) body
        ≡ ok (record { method = codes "POST"; url = addr ++ path; headers = []; body = body })
  pub delivers :
      (path : Text) (methods : Methods W) (q : HttpRequest) (w : W)
      → q.url ≡ addr ++ path
      → lookup path router.route_map ≡ some methods
      → exchange net (q, record { timeout = pos 0 }) w
        ≡ received envelope closed (
            serve router.is_paused methods
              (trace_id_of q)
              (record { method = q.method; path = path; raw = q.body })
              w)

-- The JSON of the client and the reader and writer of a handler fit: what the client marshals is read
-- back, and the client reads what the router's answers hold.
pub record Agrees {W : Type 0} (r : HandlerReflect W) (json : Json r.Req r.Resp)
    (envelope : FinalStdoutResp → Text) : Type 0 where
  pub reads :
      (req : r.Req) (body : Text) → json.marshal req ≡ ok body → r.post_arg body r.blank ≡ ok req
  pub decodes_data :
      (resp : r.Resp) (j hint : Text)
      → r.to_json resp ≡ ok j
      → json.unmarshal
          (envelope (record { code = 0; msg = []; content = some j; hint = hint }))
          json.blank
        ≡ ok (record { code = pos 0; msg = [] }, resp)
  pub decodes_err :
      (code : ℕ) (msg hint : Text)
      → json.unmarshal
          (envelope (record { code = code; msg = msg; content = none; hint = hint }))
          json.blank
        ≡ ok (record { code = pos code; msg = msg }, json.blank)

-- A business error as the client sees it: the message of the code stands for an empty one, and the
-- code 0 is no error, so the response stays as it was given to the decoder.
abbrev pub seen_biz : {A : Type 0} → A → ℕ → Text → Result A
seen_biz blank zero msg = ok blank
seen_biz blank (suc n) msg = err (biz (suc n) (if is_empty msg then get_err_msg (suc n) else msg))

-- The result of a handler as the client sees it.
abbrev pub seen : {A : Type 0} → (A → Result Text) → A → Error → Result A → Result A
seen to_json blank closed (ok resp) = elim (to_json resp) [
  | ok j ↦ ok resp
  | err e ↦ err (new_biz_err err_code_internal)
]
seen to_json blank closed (err (biz code msg)) = seen_biz blank code msg
seen to_json blank closed (err panic) = err closed
seen to_json blank closed (err _) = err (new_biz_err err_code_internal)

-- The handler's call as the client sees it: refused while the server is stopped or where the request
-- is not valid, and else the run of the handler.
abbrev pub handled :
    {W : Type 0} → (r : HandlerReflect W) → r.Resp → Error → Bool → r.Req → Io W r.Resp
handled r blank closed true req w = (err (new_biz_err err_code_server_stopped), w)
handled r blank closed false req w = elim (r.validate req) [
  | some msg ↦ (seen_biz blank err_code_args_invalid msg, w)
  | none ↦ (seen r.to_json blank closed (r.handler req w).0, (r.handler req w).1)
]

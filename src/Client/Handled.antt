-- ===== src/Client/Handled.antt =====
-- A call of the client over a network that brings it to the router.
use easytask.Base.{
  ℕ, zero, suc, ◌≡◌, refl, ap, ◌∙◌, inl, inr, Option-cases, [], ◌++◌, is_empty, Option, none, some,
  if◌then◌else◌, pos, Bool, true, false, Text, codes, Error, biz, new, num_syntax, num_range,
  record_not_found, panic, foreign, Result, ok, err, Result-cases, lift, ok-continue, continue,
}
use easytask.Errs.{
  get_err_msg, err_code_internal, err_code_args_invalid, err_code_server_stopped, new_biz_err,
  new_biz_err_with_msg,
}
use easytask.Router.{
  HandlerReflect, HttpRouter, FinalStdoutResp, Methods, lookup, methods_of, resp_err, arg_of,
  reply_of, call, serve,
}
use easytask.Router.Table.{handler_at}
use easytask.Client.{
  HttpRequest, HttpCli, Net, Json, TraceContext, with_trace, checked_resp, exchange, post,
}
use easytask.Client.Connection.{received, Connection, Agrees, seen_biz, seen, handled}

-- The end of a call, from the text that was received.
abbrev read_reply : {W A B : Type 0} → Json A B → Result Text × W → Result B × W
read_reply json r =
    continue r.0
      (λ text. λ w.
        continue (json.unmarshal text json.blank)
          (λ formatted. lift (checked_resp formatted.0.code formatted.0.msg formatted.1)) w)
      r.1

module _ {W : Type 0} (r : HandlerReflect W) (json : Json r.Req r.Resp)
    (envelope : FinalStdoutResp → Text) (closed : Error) (fit : Agrees r json envelope) where
  read_reply-resp_err :
      (code : ℕ) (msg trace_id : Text) (w : W)
      → read_reply json (received envelope closed (some (resp_err code msg trace_id), w))
        ≡ (seen_biz json.blank code msg, w)
  unfolding resp_err checked_resp new_biz_err_with_msg
  read_reply-resp_err zero msg trace_id w =
      ok-continue _ w (fit.decodes_err 0 (if is_empty msg then get_err_msg 0 else msg) trace_id)
  read_reply-resp_err (suc n) msg trace_id w =
      ok-continue _ w
        (fit.decodes_err (suc n) (if is_empty msg then get_err_msg (suc n) else msg) trace_id)

  read_reply-reply_of :
      (trace_id : Text) (res : Result r.Resp) (w : W)
      → read_reply json (received envelope closed (reply_of r trace_id res, w))
        ≡ (seen r.to_json json.blank closed res, w)
  unfolding reply_of new_biz_err new_biz_err_with_msg checked_resp
  read_reply-reply_of trace_id (ok resp) w = elim (Result-cases (r.to_json resp)) [
    | inl (j, good) ↦
        rw (reply_of, seen, good) (ok-continue _ w (fit.decodes_data resp j trace_id good))
    | inr (e, bad) ↦ rw (reply_of, seen, bad) (read_reply-resp_err err_code_internal [] trace_id w)
  ]
  read_reply-reply_of trace_id (err (biz code msg)) w = read_reply-resp_err code msg trace_id w
  read_reply-reply_of trace_id (err panic) w = refl
  read_reply-reply_of trace_id (err (new m)) w = read_reply-resp_err err_code_internal [] trace_id w
  read_reply-reply_of trace_id (err num_syntax) w =
      read_reply-resp_err err_code_internal [] trace_id w
  read_reply-reply_of trace_id (err num_range) w =
      read_reply-resp_err err_code_internal [] trace_id w
  read_reply-reply_of trace_id (err record_not_found) w =
      read_reply-resp_err err_code_internal [] trace_id w
  read_reply-reply_of trace_id (err (foreign n)) w =
      read_reply-resp_err err_code_internal [] trace_id w

  read_reply-call :
      (trace_id : Text) (req : r.Req) (w : W)
      → read_reply json (received envelope closed (call r trace_id (ok req) w))
        ≡ handled r json.blank closed false req w
  unfolding call
  read_reply-call trace_id req w = elim (Option-cases (r.validate req)) [
    | inl fine ↦
        rw (call, handled, fine)
          (read_reply-reply_of trace_id (r.handler req w).0 (r.handler req w).1)
    | inr (msg, bad) ↦
        rw (call, handled, bad) (read_reply-resp_err err_code_args_invalid msg trace_id w)
  ]

  read_reply-serve :
      (is_paused : Bool) (methods : Methods W) (trace_id path body : Text) (req : r.Req) (w : W)
      → lookup (codes "POST") methods ≡ some r
      → json.marshal req ≡ ok body
      → read_reply json (
          received envelope closed (
            serve is_paused methods trace_id
              (record { method = codes "POST"; path = path; raw = body })
              w))
        ≡ handled r json.blank closed is_paused req w
  unfolding serve arg_of new_biz_err new_biz_err_with_msg
  read_reply-serve true methods trace_id path body req w there sent =
      read_reply-resp_err err_code_server_stopped [] trace_id w
  read_reply-serve false methods trace_id path body req w there sent =
      rw (serve, there) (rw (arg_of, fit.reads req body sent) (read_reply-call trace_id req w))

-- A handler at a path is among the methods of the path.
handler_at-methods :
    {W : Type 0} (router : HttpRouter W) (path method : Text) (r : HandlerReflect W)
    → handler_at path method router ≡ some r
    → (methods : Methods W) × (lookup path router.route_map ≡ some methods)
      × (lookup method methods ≡ some r)
unfolding lookup
handler_at-methods router path method r h = elim (Option-cases (lookup path router.route_map)) [
  | inl missing ↦ cc (rw (methods_of, missing) at h)
  | inr (methods, there) ↦ (methods, there, rw (methods_of, there) at h)
]

module _ {W : Type 0} (net : Net W) (c : HttpCli) (router : HttpRouter W)
    (conn : Connection net c.api_srv_addr router) where
  -- The request as it is built.
  abbrev built : Text → Text → HttpRequest
  built path body = record {
    method = codes "POST";
    url = c.api_srv_addr ++ path;
    headers = [];
    body = body;
  }

  delivers-with_trace :
      (trace : Option TraceContext) (path body : Text) (methods : Methods W) (w : W)
      → lookup path router.route_map ≡ some methods
      → exchange net (with_trace trace (built path body), record { timeout = pos 0 }) w
        ≡ received conn.envelope conn.closed (
            serve router.is_paused methods
              (conn.trace_id_of (with_trace trace (built path body)))
              (record { method = codes "POST"; path = path; raw = body })
              w)
  delivers-with_trace none path body methods w there =
      conn.delivers path methods (built path body) w refl there
  delivers-with_trace (some t) path body methods w there =
      conn.delivers path methods (with_trace (some t) (built path body)) w refl there

  -- A call of the client without options, at a path whose POST leads to a handler, is the call of this
  -- handler: it is made in the same world and leaves the same world. The client gets the response,
  -- or the handler's business error with its code, the text of the code standing for an empty message;
  -- any other error is the internal error, a request that is not valid that of invalid arguments, and
  -- nothing is run while the server is stopped. A business error of code 0 is taken for a success.
  pub post-handled :
      (r : HandlerReflect W) (json : Json r.Req r.Resp) (trace : Option TraceContext) (path : Text)
      (req : r.Req) (body : Text) (w : W)
      → handler_at path (codes "POST") router ≡ some r
      → Agrees r json conn.envelope
      → json.marshal req ≡ ok body
      → post net json c trace path req [] w
        ≡ handled r json.blank conn.closed router.is_paused req w
  unfolding post
  post-handled r json trace path req body w at_path fit sent =
      let (methods, there, post_there) = handler_at-methods router path (codes "POST") r at_path in
      ok-continue _ w sent
      ∙ ok-continue _ w (conn.builds path body)
      ∙ ap (read_reply json) (delivers-with_trace trace path body methods w there)
      ∙ read_reply-serve r json conn.envelope conn.closed fit router.is_paused methods _ path body
          req w post_there sent

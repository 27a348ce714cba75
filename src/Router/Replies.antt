-- ===== src/Router/Replies.antt =====
-- When a request is answered with content.
use easytask.Base.{
  ℕ, ◌≡◌, refl, sym, ap, ◌∙◌, inl, inr, Bool, true, false, none, some, Option-cases, Text, Error,
  Result, ok, err, Result-cases, [],
}
use easytask.Errs.{
  err_code_internal, err_code_args_invalid, err_code_server_stopped,
  err_code_route_method_not_allow,
}
use easytask.Router.{
  HandlerReflect, Methods, HttpReq, FinalStdoutResp, lookup, arg_of, reply_of, call, resp_err,
  serve,
}

some-injective : {A : Type 0} {a b : A} → some a ≡ some b → a ≡ b
some-injective e = cc

-- An answer without content carries none.
not_content :
    (code : ℕ) (msg trace_id json : Text) (reply : FinalStdoutResp)
    → some (resp_err code msg trace_id) ≡ some reply
    → reply.content ≡ some json
    → ⊥
unfolding resp_err
not_content code msg trace_id json reply e h =
    cc (ap (λ (x : FinalStdoutResp). x.content) (some-injective e))

module _ {W : Type 0} where
  -- A run of a handler that is answered with content.
  pub record Answered (r : HandlerReflect W) (q : HttpReq) (w v : W) (reply : FinalStdoutResp)
      (json : Text) : Type 0 where
    pub arg : r.Req
    pub resp : r.Resp
    pub parsed : arg_of r q ≡ ok arg
    pub valid : r.validate arg ≡ none
    pub ran : r.handler arg w ≡ (ok resp, v)
    pub encoded : r.to_json resp ≡ ok json
    pub code_zero : reply.code ≡ 0

  reply_of-content :
      (r : HandlerReflect W) (trace_id json : Text) (res : Result r.Resp) (reply : FinalStdoutResp)
      → reply_of r trace_id res ≡ some reply
      → reply.content ≡ some json
      → (resp : r.Resp) × (res ≡ ok resp) × (r.to_json resp ≡ ok json) × (reply.code ≡ 0)
  unfolding reply_of
  reply_of-content r trace_id json (ok resp) reply e h = elim (Result-cases (r.to_json resp)) [
    | inr (x, bad) ↦
        absurd (not_content err_code_internal [] trace_id json reply (rw (reply_of, bad) at e) h)
    | inl (s, good) ↦
        let built : _ ≡ reply = some-injective (rw (reply_of, good) at e) in
        (
          resp,
          refl,
          good ∙ ap ok (some-injective (ap (λ (x : FinalStdoutResp). x.content) built ∙ h)),
          sym (ap (λ (x : FinalStdoutResp). x.code) built),
        )
  ]
  reply_of-content r trace_id json (err (Error.biz c m)) reply e h =
      absurd (not_content c m trace_id json reply e h)
  reply_of-content r trace_id json (err Error.panic) reply e h = cc
  reply_of-content r trace_id json (err (Error.new m)) reply e h =
      absurd (not_content err_code_internal [] trace_id json reply e h)
  reply_of-content r trace_id json (err Error.num_syntax) reply e h =
      absurd (not_content err_code_internal [] trace_id json reply e h)
  reply_of-content r trace_id json (err Error.num_range) reply e h =
      absurd (not_content err_code_internal [] trace_id json reply e h)
  reply_of-content r trace_id json (err Error.record_not_found) reply e h =
      absurd (not_content err_code_internal [] trace_id json reply e h)
  reply_of-content r trace_id json (err (Error.foreign n)) reply e h =
      absurd (not_content err_code_internal [] trace_id json reply e h)

  call-Answered :
      (r : HandlerReflect W) (trace_id json : Text) (q : HttpReq) (parsed : Result r.Req) (w v : W)
      (reply : FinalStdoutResp)
      → arg_of r q ≡ parsed
      → call r trace_id parsed w ≡ (some reply, v)
      → reply.content ≡ some json
      → Answered r q w v reply json
  unfolding call
  call-Answered r trace_id json q (err x) w v reply same e h =
      absurd (not_content err_code_args_invalid [] trace_id json reply (ap (λ p. p.0) e) h)
  call-Answered r trace_id json q (ok arg) w v reply same e h =
      elim (Option-cases (r.validate arg)) [
        | inr (msg, bad) ↦ absurd (
            not_content err_code_args_invalid msg trace_id json reply
              (ap (λ p. p.0) (rw (call, bad) at e)) h)
        | inl fine ↦
            let done = rw (call, fine) at e in
            let (resp, res_ok, encoded, zero) =
              reply_of-content r trace_id json (r.handler arg w).0 reply (ap (λ p. p.0) done) h in
            record {
              arg = arg;
              resp = resp;
              parsed = same;
              valid = fine;
              ran =
                  ap (λ x. (x, (r.handler arg w).1)) res_ok
                  ∙ ap (λ u. (ok resp, u)) (ap (λ p. p.1) done);
              encoded = encoded;
              code_zero = zero;
            }
      ]

  -- A request is answered with content only while the server is not stopped, by the handler that is
  -- registered for its method: the argument was read and found valid, the handler returned a response,
  -- the content is its JSON, the code is 0, and the world is as the handler left it.
  pub serve-Answered :
      (is_paused : Bool) (methods : Methods W) (trace_id json : Text) (q : HttpReq) (w v : W)
      (reply : FinalStdoutResp)
      → serve is_paused methods trace_id q w ≡ (some reply, v)
      → reply.content ≡ some json
      → (is_paused ≡ false)
        × (r : HandlerReflect W) × (lookup q.method methods ≡ some r)
        × Answered r q w v reply json
  unfolding serve
  serve-Answered true methods trace_id json q w v reply e h =
      absurd (not_content err_code_server_stopped [] trace_id json reply (ap (λ p. p.0) e) h)
  serve-Answered false methods trace_id json q w v reply e h =
      elim (Option-cases (lookup q.method methods)) [
        | inl none_there ↦ absurd (
            not_content err_code_route_method_not_allow [] trace_id json reply
              (ap (λ p. p.0) (rw (serve, none_there) at e)) h)
        | inr (r, there) ↦ (
          refl,
          r,
          there,
          call-Answered r trace_id json q (arg_of r q) w v reply refl (rw (serve, there) at e) h,
        )
      ]

-- ===== src/Tests/Routing.antt =====
-- The router at concrete inputs.
use easytask.Base.{
  ℕ, ◌≡◌, ◌≢◌, refl, sym, Text, codes, text_eq, length, List, [], ◌∷◌, none, some, ok, err, Error,
  Io, false, ok-injective,
}
use easytask.Router.{
  HandlerReflect, HttpRoute, HttpRouter, HttpReq, FinalStdoutResp, Methods, lookup, register,
  stored_route, serve, write_resp,
}
use easytask.Router.Table.{handler_at, register-handler_at}
use easytask.Router.Replies.{Answered, serve-Answered}
use easytask.Router.Writing.{IsWriter, write_resp-once}

-- A handler that answers its argument; the world is what was written.
abbrev pub echo : HandlerReflect Text
echo = record {
  Req = Text;
  Resp = Text;
  blank = [];
  post_arg = λ raw arg. ok raw;
  get_arg = λ raw arg. ok arg;
  validate = λ arg. none;
  handler = λ arg w. (ok arg, w);
  to_json = λ resp. ok resp;
}

abbrev echo_route : HttpRoute Text
echo_route = record { path = codes "/e"; method = codes "POST"; handler = echo }

abbrev fresh : HttpRouter Text
fresh = record { route_map = []; is_booted = false; is_paused = false }

registered : register (λ route. none) echo_route fresh ≡ ok (stored_route echo_route fresh)
unfolding register
registered = refl

register-handler_at_example :
    (false ≡ false)
    × (handler_at (codes "/e") (codes "POST") (stored_route echo_route fresh) ≡ some echo)
    × ((path method : Text)
        → (path ≡ codes "/e" → method ≢ codes "POST")
        → handler_at path method (stored_route echo_route fresh) ≡ handler_at path method fresh)
register-handler_at_example =
    register-handler_at (λ route. none) echo_route fresh (stored_route echo_route fresh) registered

abbrev pub posted : HttpReq
posted = record { method = codes "POST"; path = codes "/e"; raw = codes "{}" }

abbrev pub echoed : FinalStdoutResp
echoed = record { code = 0; msg = []; content = some (codes "{}"); hint = codes "t" }

abbrev pub methods : Methods Text
methods = (codes "POST", echo) ∷ []

answered : serve false methods (codes "t") posted [] ≡ (some echoed, [])
unfolding serve text_eq
answered = refl

serve-Answered_example :
    (false ≡ false)
    × (r : HandlerReflect Text) × (lookup (codes "POST") methods ≡ some r)
    × Answered r posted [] [] echoed (codes "{}")
serve-Answered_example =
    serve-Answered false methods (codes "t") (codes "{}") posted [] [] echoed answered refl

-- A writer that keeps what it was last given.
abbrev keep : Text → Io Text ℕ
keep content w = (ok (length content), content)

keep-IsWriter : IsWriter keep
keep-IsWriter = record { writes_all = λ content w n e. sym (ok-injective e) }

write_resp-once_example : write_resp keep 1 (codes "{}") [] ≡ (ok (some tt), codes "{}")
write_resp-once_example = write_resp-once keep 0 (codes "{}") [] keep-IsWriter

-- A writer that takes three bytes of each call, against its contract: after the second call the rest,
-- of five bytes, is sliced from the sixth.
abbrev in_threes : Text → Io (List Text) ℕ
in_threes content w = (ok 3, content ∷ w)

short_writes : (write_resp in_threes 5 (codes "abcdefgh") []).0 ≡ err Error.panic
unfolding write_resp
short_writes = refl

-- ===== src/Client.antt =====
-- pkg/rpc/http_cli.go: the client that other programs call the API with, and the header names of
-- pkg/rpc/proto/httpproto/header.go.
pub mod Connection
pub mod Handled
pub mod Served
use easytask.Base.{
  ℕ, zero, suc, ◌==◌, List, [], ◌∷◌, ◌++◌, Option, none, some, ℤ, pos, negsuc, Bool, Text, codes,
  trim_right, Result, ok, err, Io, ◌>>=◌, lift,
}
use easytask.Errs.{new_biz_err_with_msg}
use easytask.Api.Service.{
  StopTaskReq, ConfirmTaskReq, RegisterTaskCallbackSrvReq, UnregisterTaskCallbackSrvReq,
}
use easytask.Api.Http.{AddTaskHttpReq}
use easytask.Api.Routes.{
  add_task_cmd_path, stop_task_cmd_path, confirm_task_cmd_path, register_task_callback_srv_cmd_path,
  unregister_task_callback_srv_cmd_path,
}

abbrev pub header_simple_trace_id : Text
header_simple_trace_id = codes "x-easy-task-trace-id"

abbrev pub header_simple_trace_span_id : Text
header_simple_trace_span_id = codes "x-easy-task-trace-span-id"

abbrev pub header_simple_trace_parent_span_id : Text
header_simple_trace_parent_span_id = codes "x-easy-task-trace-parent-span-id"

-- http.Request, http.Client and the context of a trace, as far as the client sets or reads them.
pub record HttpRequest : Type 0 where
  pub method : Text
  pub url : Text
  pub headers : List (Text × Text)
  pub body : Text

pub record HttpClient : Type 0 where
  pub timeout : ℤ

pub record TraceContext : Type 0 where
  pub trace_id : Text
  pub span_id : Text
  pub parent_span_id : Text

-- What an option may change, and an option.
abbrev pub Settings : Type 0
Settings = HttpRequest × HttpClient

abbrev pub HttpReqOpt : Type 0
HttpReqOpt = Settings → Result Settings

unfoldable pub with_timeout_http_opt : ℤ → HttpReqOpt
with_timeout_http_opt timeout s = ok (s.0, record { timeout = timeout })

pub record HttpCli : Type 0 where
  pub api_srv_addr : Text

unfoldable pub new_http_cli : Text → HttpCli
unfolding trim_right
new_http_cli api_srv_addr = record { api_srv_addr = trim_right (λ c. c == b'/') api_srv_addr }

-- net/http: http.NewRequest by method, URL and body, Do of the client, and io.ReadAll of the body.
pub record Net (W : Type 0) : Type 1 where
  pub Reply : Type 0
  pub new_request : Text → Text → Text → Result HttpRequest
  pub send : HttpRequest → HttpClient → Io W Reply
  pub read_all : Reply → Result Text

-- `FinalStdoutResp` as the client decodes it, its `Data` aside.
pub record FormattedResp : Type 0 where
  pub code : ℤ
  pub msg : Text

-- encoding/json for a request and its response: the decoder fills a response that it is given.
pub record Json (Req Resp : Type 0) : Type 0 where
  pub marshal : Req → Result Text
  pub blank : Resp
  pub unmarshal : Text → Resp → Result (FormattedResp × Resp)

abbrev pub with_trace : Option TraceContext → HttpRequest → HttpRequest
with_trace none q = q
with_trace (some t) q = record q {
  headers =
      q.headers
      ++ (header_simple_trace_id, t.trace_id)
        ∷ (header_simple_trace_span_id, t.span_id)
        ∷ (header_simple_trace_parent_span_id, t.parent_span_id)
        ∷ [];
}

unfoldable pub apply_opts : List HttpReqOpt → Settings → Result Settings
apply_opts [] s = ok s
apply_opts (opt ∷ opts) s = elim (opt s) [ err e ↦ err e | ok s' ↦ apply_opts opts s' ]

-- The end of `post`: a positive code is an error.
unfoldable pub checked_resp {ℓ} : {Resp : Type ℓ} → ℤ → Text → Resp → Result Resp
unfolding new_biz_err_with_msg
checked_resp (pos zero) msg resp = ok resp
checked_resp (pos (suc n)) msg resp = err (new_biz_err_with_msg (suc n) msg)
checked_resp (negsuc n) msg resp = ok resp

module _ {W : Type 0} (net : Net W) where
  -- Do, then ReadAll.
  abbrev pub exchange : Settings → Io W Text
  exchange s = do http_resp ← net.send s.0 s.1; lift (net.read_all http_resp)

  -- `trace` is the trace of the context, if it is a context of simpletrace.
  unfoldable pub post :
      {Req Resp : Type 0}
      → Json Req Resp
      → HttpCli
      → Option TraceContext
      → Text
      → Req
      → List HttpReqOpt
      → Io W Resp
  unfolding apply_opts checked_resp
  post json c trace path req opts = do
    body ← lift (json.marshal req)
    http_req ← lift (net.new_request (codes "POST") (c.api_srv_addr ++ path) body)
    s ← lift (apply_opts opts (with_trace trace http_req, record { timeout = pos 0 }))
    text ← exchange s
    formatted ← lift (json.unmarshal text json.blank)
    lift (checked_resp formatted.0.code formatted.0.msg formatted.1)

  unfoldable pub add_task :
      Json AddTaskHttpReq Text
      → HttpCli
      → Option TraceContext
      → AddTaskHttpReq
      → List HttpReqOpt
      → Io W Text
  unfolding post
  add_task json c trace = post json c trace add_task_cmd_path

  unfoldable pub stop_task :
      Json StopTaskReq (Unit {0})
      → HttpCli
      → Option TraceContext
      → StopTaskReq
      → List HttpReqOpt
      → Io W (Unit {0})
  unfolding post
  stop_task json c trace = post json c trace stop_task_cmd_path

  unfoldable pub confirm_task :
      Json ConfirmTaskReq (Unit {0})
      → HttpCli
      → Option TraceContext
      → ConfirmTaskReq
      → List HttpReqOpt
      → Io W (Unit {0})
  unfolding post
  confirm_task json c trace = post json c trace confirm_task_cmd_path

  unfoldable pub register_task_callback_srv :
      Json RegisterTaskCallbackSrvReq (Unit {0})
      → HttpCli
      → Option TraceContext
      → RegisterTaskCallbackSrvReq
      → List HttpReqOpt
      → Io W (Unit {0})
  unfolding post
  register_task_callback_srv json c trace = post json c trace register_task_callback_srv_cmd_path

  unfoldable pub unregister_task_callback_srv :
      Json UnregisterTaskCallbackSrvReq (Unit {0})
      → HttpCli
      → Option TraceContext
      → UnregisterTaskCallbackSrvReq
      → List HttpReqOpt
      → Io W (Unit {0})
  unfolding post
  unregister_task_callback_srv json c trace =
      post json c trace unregister_task_callback_srv_cmd_path

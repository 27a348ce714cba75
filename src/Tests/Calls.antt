-- ===== src/Tests/Calls.antt =====
-- The client and the router over a network in memory, with a JSON of their own.
use easytask.Base.{
  ◌≢◌, true, sym, ok-injective, zero, suc, ◌≡◌, refl, ap, [], ◌∷◌, ◌++◌, drop, none, some, pos,
  Text, codes, is_empty, ◌||◌, if◌then◌else◌, Option, Error, false, foreign, Result, ok, err,
}
use easytask.Router.{
  HttpRoute, HandlerReflect, HttpRouter, FinalStdoutResp, Methods, lookup, methods_of, serve,
}
use easytask.Router.Table.{handler_at}
use easytask.Api.Service.{StopTaskReq}
use easytask.Api.Routes.{Format, Formats, ApiCall, cmd_path, handler_of, get_http_api_routes}
use easytask.Api.Routes.Table.{registered, get_http_api_routes-handler_at}
use easytask.Mysql.Repos.{task_repo, task_srv_repo}
use easytask.Mysql.Gorm.Memory.{Memory, memory}
use easytask.Client.{HttpRequest, HttpCli, Net, Json, FormattedResp}
use easytask.Client.Connection.{received, Connection, Agrees, handled}
use easytask.Client.Served.{client_call, client_call-handled}
use easytask.Tests.Samples.{outside, start}

-- The code, a mark whether there is content, and the content or the message.
abbrev envelope : FinalStdoutResp → Text
envelope reply = elim reply.content [
  | some json ↦ reply.code ∷ 1 ∷ json
  | none ↦ reply.code ∷ 0 ∷ reply.msg
]

abbrev decode : {A : Type 0} → (Text → A) → Text → A → Result (FormattedResp × A)
decode read (code ∷ zero ∷ msg) resp = ok (record { code = pos code; msg = msg }, resp)
decode read (code ∷ suc n ∷ json) resp = ok (record { code = pos code; msg = [] }, read json)
decode read _ resp = err (foreign 2)

abbrev addr : Text
addr = codes "http://h"

abbrev network : {W : Type 0} → HttpRouter W → Net W
network router = record {
  Reply = Result Text;
  new_request =
      λ method url body. ok (record { method = method; url = url; headers = []; body = body });
  send = λ q client w.
      let r = received envelope (foreign 1) (
        serve router.is_paused (methods_of (drop 8 q.url) router.route_map) []
          (record { method = q.method; path = drop 8 q.url; raw = q.body }) w) in
      (ok r.0, r.1);
  read_all = λ reply. reply;
}

delivered :
    {W : Type 0} (router : HttpRouter W) (path : Text) (methods : Methods W) (q : HttpRequest)
    (w : W)
    → q.url ≡ addr ++ path
    → lookup path router.route_map ≡ some methods
    → received envelope (foreign 1) (
        serve router.is_paused
          (methods_of (drop 8 q.url) router.route_map)
          []
          (record { method = q.method; path = drop 8 q.url; raw = q.body })
          w)
      ≡ received envelope (foreign 1) (
          serve router.is_paused methods []
            (record { method = q.method; path = path; raw = q.body })
            w)
delivered router path methods q w at_path there = rw (methods_of, at_path, there) refl

abbrev connection : {W : Type 0} (router : HttpRouter W) → Connection (network router) addr router
connection router = record {
  envelope = envelope;
  closed = foreign 1;
  trace_id_of = λ q. [];
  builds = λ path body. refl;
  delivers = delivered router;
}

abbrev cli : HttpCli
cli = record { api_srv_addr = addr }

-- Only the format of StopTask is used: its body is the id, and its response is empty.
abbrev no_format : {Req Resp : Type 0} → Req → Format Req Resp
no_format req = record {
  blank = req;
  post_arg = λ raw arg. err (foreign 3);
  get_arg = λ raw arg. err (foreign 3);
  validate = λ arg. none;
  to_json = λ resp. ok [];
}

abbrev stop_format : Format StopTaskReq (Unit {0})
stop_format = record {
  blank = record { task_id = [] };
  post_arg = λ raw arg. ok (record { task_id = raw });
  get_arg = λ raw arg. ok arg;
  validate = λ arg. none;
  to_json = λ resp. ok [];
}

abbrev formats : Formats
formats = record {
  add_task = no_format (record {
    name = [];
    srv_name = [];
    callback_path = [];
    sched_mode = pos 0;
    time_cron = [];
    time_interval_sec = pos 0;
    time_spec_at = pos 0;
    arg = [];
    biz_id = [];
  });
  stop_task = stop_format;
  confirm_task =
      no_format (record { task_id = []; is_success = false; extra = []; task_run_times = pos 0 });
  register_task_callback_srv = no_format (record {
    name = [];
    schema = [];
    host = [];
    port = pos 0;
    callback_timeout_sec = pos 0;
    is_enable_health_check = false;
  });
  unregister_task_callback_srv =
      no_format (record { name = []; schema = []; host = []; port = pos 0 });
}

abbrev stop_json : Json StopTaskReq (Unit {0})
stop_json = record { marshal = λ req. ok req.task_id; blank = tt; unmarshal = decode (λ json. tt) }

-- A check of what is required of a route.
abbrev required : HttpRoute Memory → Option Error
required route = if is_empty route.path || is_empty route.method then some (foreign 4) else none

abbrev api : Result (Unit {0}) × HttpRouter Memory
api = registered formats outside (task_repo memory outside) (task_srv_repo memory) required

abbrev api_router : HttpRouter Memory
api_router = record { route_map = api.1.route_map; is_booted = true; is_paused = false }

abbrev stop_handler : HandlerReflect Memory
stop_handler =
    handler_of formats outside (task_repo memory outside) (task_srv_repo memory) ApiCall.stop_task

stop-Agrees : Agrees stop_handler stop_json envelope
stop-Agrees = record {
  reads = λ req body sent. ap (λ x. ok (record { task_id = x })) (ok-injective (sym sent));
  decodes_data = λ resp j hint made. refl;
  decodes_err = λ code msg hint. refl;
}

client_call-handled_example :
    client_call formats outside
      (task_repo memory outside)
      (task_srv_repo memory)
      (network api_router)
      cli
      none
      ApiCall.stop_task
      stop_json
      (record { task_id = codes "7" })
      start
    ≡ handled stop_handler tt (foreign 1) false (record { task_id = codes "7" }) start
unfolding get_http_api_routes
client_call-handled_example =
    client_call-handled formats outside (task_repo memory outside) (task_srv_repo memory) required
      (refl, (refl, (refl, (refl, (refl, tt))))) api_router refl (network api_router) cli
      (connection api_router) none ApiCall.stop_task stop_json stop-Agrees
      (record { task_id = codes "7" }) (codes "7") start refl

get_http_api_routes-handler_at_example :
    (api.0 ≡ ok tt)
    × ((c : ApiCall)
        → handler_at (cmd_path c) (codes "POST") api.1
          ≡ some (handler_of formats outside (task_repo memory outside) (task_srv_repo memory) c))
    × ((path method : Text)
        → ((c : ApiCall) → path ≡ cmd_path c → method ≢ codes "POST")
        → handler_at path method api.1 ≡ none)
unfolding get_http_api_routes
get_http_api_routes-handler_at_example =
    get_http_api_routes-handler_at formats outside (task_repo memory outside) (task_srv_repo memory)
      required (refl, (refl, (refl, (refl, (refl, tt)))))

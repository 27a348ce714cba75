-- ===== src/Api/Routes.antt =====
-- api_route.go: the routes of the API, with the handlers over the services. A handler's types, reader,
-- validator and writer are those of its request and response.
pub mod Table
use easytask.Base.{List, [], ◌∷◌, Option, Text, codes, Result, Io}
use easytask.Outside.{Outside}
use easytask.Task.Repo.{TaskRepo, TaskCallbackSrvRepo}
use easytask.Router.{HandlerReflect, HttpRoute}
use easytask.Api.Service.{
  StopTaskReq, ConfirmTaskReq, RegisterTaskCallbackSrvReq, UnregisterTaskCallbackSrvReq,
}
use easytask.Api.Http.{AddTaskHttpReq}
use easytask.Api.Http

-- The paths of pkg/rpc/proto/httpproto/path.go.
abbrev pub add_task_cmd_path : Text
add_task_cmd_path = codes "/add_task"

abbrev pub stop_task_cmd_path : Text
stop_task_cmd_path = codes "/stop_task"

abbrev pub confirm_task_cmd_path : Text
confirm_task_cmd_path = codes "/confirm_task"

abbrev pub register_task_callback_srv_cmd_path : Text
register_task_callback_srv_cmd_path = codes "/add_task_server"

abbrev pub unregister_task_callback_srv_cmd_path : Text
unregister_task_callback_srv_cmd_path = codes "/del_task_server"

-- How a request is read and found valid, and a response written.
pub record Format (Req Resp : Type 0) : Type 0 where
  pub blank : Req
  pub post_arg : Text → Req → Result Req
  pub get_arg : Text → Req → Result Req
  pub validate : Req → Option Text
  pub to_json : Resp → Result Text

pub record Formats : Type 0 where
  pub add_task : Format AddTaskHttpReq Text
  pub stop_task : Format StopTaskReq (Unit {0})
  pub confirm_task : Format ConfirmTaskReq (Unit {0})
  pub register_task_callback_srv : Format RegisterTaskCallbackSrvReq (Unit {0})
  pub unregister_task_callback_srv : Format UnregisterTaskCallbackSrvReq (Unit {0})

abbrev pub reflect : {W Req Resp : Type 0} → Format Req Resp → (Req → Io W Resp) → HandlerReflect W
reflect {W} {Req} {Resp} f handler = record {
  Req = Req;
  Resp = Resp;
  blank = f.blank;
  post_arg = f.post_arg;
  get_arg = f.get_arg;
  validate = f.validate;
  handler = handler;
  to_json = f.to_json;
}

abbrev pub post_route : {W : Type 0} → Text → HandlerReflect W → HttpRoute W
post_route path handler = record { path = path; method = codes "POST"; handler = handler }

-- The calls of the API.
pub data ApiCall : Type 0 where
  add_task : ApiCall
  stop_task : ApiCall
  confirm_task : ApiCall
  register_task_callback_srv : ApiCall
  unregister_task_callback_srv : ApiCall

abbrev pub cmd_path : ApiCall → Text
cmd_path ApiCall.add_task = add_task_cmd_path
cmd_path ApiCall.stop_task = stop_task_cmd_path
cmd_path ApiCall.confirm_task = confirm_task_cmd_path
cmd_path ApiCall.register_task_callback_srv = register_task_callback_srv_cmd_path
cmd_path ApiCall.unregister_task_callback_srv = unregister_task_callback_srv_cmd_path

module _ {W : Type 0} (f : Formats) (o : Outside) (task_repo : TaskRepo W)
    (srv_repo : TaskCallbackSrvRepo W) where
  abbrev pub handler_of : ApiCall → HandlerReflect W
  handler_of ApiCall.add_task = reflect f.add_task (Http.add_task o task_repo srv_repo)
  handler_of ApiCall.stop_task = reflect f.stop_task (Http.stop_task o task_repo srv_repo)
  handler_of ApiCall.confirm_task = reflect f.confirm_task (Http.confirm_task o task_repo srv_repo)
  handler_of ApiCall.register_task_callback_srv =
      reflect f.register_task_callback_srv (Http.register_task_callback_srv o task_repo srv_repo)
  handler_of ApiCall.unregister_task_callback_srv =
      reflect f.unregister_task_callback_srv
        (Http.unregister_task_callback_srv o task_repo srv_repo)

  unfoldable pub get_http_api_routes : List (HttpRoute W)
  get_http_api_routes =
      post_route add_task_cmd_path (handler_of ApiCall.add_task)
      ∷ post_route stop_task_cmd_path (handler_of ApiCall.stop_task)
      ∷ post_route confirm_task_cmd_path (handler_of ApiCall.confirm_task)
      ∷ post_route register_task_callback_srv_cmd_path
          (handler_of ApiCall.register_task_callback_srv)
      ∷ post_route unregister_task_callback_srv_cmd_path
          (handler_of ApiCall.unregister_task_callback_srv)
      ∷ []

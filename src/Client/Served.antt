-- ===== src/Client/Served.antt =====
-- The client and the API of the program at the two ends of a connection.
use easytask.Base.{◌≡◌, refl, some, ap, ◌∙◌, [], Option, Text, codes, ok, Error, Io}
use easytask.Outside.{Outside}
use easytask.Task.Repo.{TaskRepo, TaskCallbackSrvRepo}
use easytask.Router.{HttpRoute, HttpRouter}
use easytask.Router.Table.{handler_at}
use easytask.Api.Routes.{Formats, ApiCall, cmd_path, handler_of}
use easytask.Api.Routes.Table.{registered, ArePassed, get_http_api_routes-handler_at}
use easytask.Client.{HttpCli, Net, Json, TraceContext}
use easytask.Client
use easytask.Client.Connection.{Connection, Agrees, handled}
use easytask.Client.Handled.{post-handled}

module _ {W : Type 0} (f : Formats) (o : Outside) (task_repo : TaskRepo W)
    (srv_repo : TaskCallbackSrvRepo W) where
  abbrev pub Req : ApiCall → Type 0
  Req c = (handler_of f o task_repo srv_repo c).Req

  abbrev pub Resp : ApiCall → Type 0
  Resp c = (handler_of f o task_repo srv_repo c).Resp

  -- The method of the client for a call of the API, without options.
  abbrev pub client_call :
      Net W
      → HttpCli
      → Option TraceContext
      → (c : ApiCall) → Json (Req c) (Resp c)
      → Req c
      → Io W (Resp c)
  client_call net cli trace ApiCall.add_task json req = Client.add_task net json cli trace req []
  client_call net cli trace ApiCall.stop_task json req = Client.stop_task net json cli trace req []
  client_call net cli trace ApiCall.confirm_task json req =
      Client.confirm_task net json cli trace req []
  client_call net cli trace ApiCall.register_task_callback_srv json req =
      Client.register_task_callback_srv net json cli trace req []
  client_call net cli trace ApiCall.unregister_task_callback_srv json req =
      Client.unregister_task_callback_srv net json cli trace req []

  client_call-post :
      (net : Net W) (cli : HttpCli) (trace : Option TraceContext) (c : ApiCall)
      (json : Json (Req c) (Resp c)) (req : Req c)
      → client_call net cli trace c json req ≡ Client.post net json cli trace (cmd_path c) req []
  unfolding Client.add_task Client.stop_task Client.confirm_task Client.register_task_callback_srv
      Client.unregister_task_callback_srv
  client_call-post net cli trace ApiCall.add_task json req = refl
  client_call-post net cli trace ApiCall.stop_task json req = refl
  client_call-post net cli trace ApiCall.confirm_task json req = refl
  client_call-post net cli trace ApiCall.register_task_callback_srv json req = refl
  client_call-post net cli trace ApiCall.unregister_task_callback_srv json req = refl

  -- Over a connection to a router that has the routes of the API, each method of the client without
  -- options runs the handler of its own call, in the same world, and gets what it answers.
  pub client_call-handled :
      (check : HttpRoute W → Option Error)
      → ArePassed f o task_repo srv_repo check
      → (router : HttpRouter W)
      → router.route_map ≡ (registered f o task_repo srv_repo check).1.route_map
      → (net : Net W) (cli : HttpCli) (conn : Connection net cli.api_srv_addr router)
        (trace : Option TraceContext) (c : ApiCall) (json : Json (Req c) (Resp c))
      → Agrees (handler_of f o task_repo srv_repo c) json conn.envelope
      → (req : Req c) (body : Text) (w : W) → json.marshal req ≡ ok body
      → client_call net cli trace c json req w
        ≡ handled
            (handler_of f o task_repo srv_repo c)
            json.blank
            conn.closed
            router.is_paused
            req
            w
  client_call-handled check pass router same net cli conn trace c json fit req body w sent =
      let at_path : handler_at (cmd_path c) (codes "POST") router
          ≡ some (handler_of f o task_repo srv_repo c) =
        rw same ((get_http_api_routes-handler_at f o task_repo srv_repo check pass).1 c) in
      ap (λ m. m w) (client_call-post net cli trace c json req)
      ∙ post-handled net cli router conn (handler_of f o task_repo srv_repo c) json trace
          (cmd_path c) req body w at_path fit sent

-- ===== src/Api/Routes/Table.antt =====
-- The router that the program serves: the routes of the API registered at a new router.
use easytask.Base.{
  sym, subst, ◌≡◌, ◌≢◌, refl, All, ◌∙◌, inl, inr, List, [], ◌∷◌, Option, none, some, Text, codes,
  text_eq, Result, ok, Result-cases, Error,
}
use easytask.Outside.{Outside}
use easytask.Task.Repo.{TaskRepo, TaskCallbackSrvRepo}
use easytask.Router.{lookup, HttpRoute, HttpRouter, register, register_batch, new_http_router}
use easytask.Router.Table.{handler_at, register-handler_at}
use easytask.Api.Routes.{Formats, ApiCall, cmd_path, handler_of, get_http_api_routes}

-- No route of a list is for a method of a path.
abbrev pub Apart : {W : Type 0} → Text → Text → List (HttpRoute W) → Type 0
Apart path method [] = Unit
Apart path method (route ∷ routes) =
    (path ≡ route.path → method ≢ route.method) × Apart path method routes

-- A batch leaves alone what its routes are not for, whether it succeeds or not.
pub register_batch-handler_at_other :
    {W : Type 0} (check : HttpRoute W → Option Error) (routes : List (HttpRoute W))
    (r : HttpRouter W) (path method : Text)
    → Apart path method routes
    → handler_at path method (register_batch check routes r).1 ≡ handler_at path method r
unfolding register_batch
register_batch-handler_at_other check [] r path method h = refl
register_batch-handler_at_other check (route ∷ routes) r path method h =
    elim (Result-cases (register check route r)) [
      | inr (e, bad) ↦ rw (register_batch, bad) refl
      | inl (r', good) ↦
          let others = (register-handler_at check route r r' good).2 in
          rw (register_batch, good)
            (register_batch-handler_at_other check routes r' path method h.1
              ∙ others path method h.0)
    ]

register-passed :
    {W : Type 0} (check : HttpRoute W → Option Error) (route : HttpRoute W) (r : HttpRouter W)
    → check route ≡ none
    → register check route r ≡ register (λ route. none) route r
unfolding register
register-passed check route r pass = rw pass refl

-- A batch whose routes pass goes as one that is not checked.
register_batch-passed :
    {W : Type 0} (check : HttpRoute W → Option Error) (routes : List (HttpRoute W))
    (r : HttpRouter W)
    → All (λ route. check route ≡ none) routes
    → register_batch check routes r ≡ register_batch (λ route. none) routes r
unfolding register_batch
register_batch-passed check [] r h = refl
register_batch-passed check (route ∷ routes) r (pass, rest) =
    let same : register check route r ≡ register (λ route. none) route r =
      register-passed check route r pass in
    elim (Result-cases (register (λ route. none) route r)) [
      | inr (e, bad) ↦ rw (register_batch, same, bad) refl
      | inl (r', good) ↦
          rw (register_batch, same, good) (register_batch-passed check routes r' rest)
    ]

module _ {W : Type 0} (f : Formats) (o : Outside) (task_repo : TaskRepo W)
    (srv_repo : TaskCallbackSrvRepo W) where
  -- What RegisterBatch of the routes of the API returns, and the router it leaves.
  abbrev pub registered : (HttpRoute W → Option Error) → Result (Unit {0}) × HttpRouter W
  registered check =
      register_batch check (get_http_api_routes f o task_repo srv_repo) new_http_router

  registered-ok : (registered (λ route. none)).0 ≡ ok tt
  unfolding register_batch register get_http_api_routes new_http_router
  registered-ok = refl

  registered-handler_at :
      (c : ApiCall)
      → handler_at (cmd_path c) (codes "POST") (registered (λ route. none)).1
        ≡ some (handler_of f o task_repo srv_repo c)
  unfolding register_batch register get_http_api_routes new_http_router text_eq
  registered-handler_at ApiCall.add_task = refl
  registered-handler_at ApiCall.stop_task = refl
  registered-handler_at ApiCall.confirm_task = refl
  registered-handler_at ApiCall.register_task_callback_srv = refl
  registered-handler_at ApiCall.unregister_task_callback_srv = refl

  -- The routes of the API pass a check.
  abbrev pub ArePassed : (HttpRoute W → Option Error) → Type 0
  ArePassed check = All (λ route. check route ≡ none) (get_http_api_routes f o task_repo srv_repo)

  -- Where the routes of the API pass the checks, they are all registered: POST of each path of the API leads to
  -- the handler of its call, and any other method or path leads nowhere.
  pub get_http_api_routes-handler_at :
      (check : HttpRoute W → Option Error)
      → ArePassed check
      → ((registered check).0 ≡ ok tt)
        × ((c : ApiCall)
            → handler_at (cmd_path c) (codes "POST") (registered check).1
              ≡ some (handler_of f o task_repo srv_repo c))
        × ((path method : Text)
            → ((c : ApiCall) → path ≡ cmd_path c → method ≢ codes "POST")
            → handler_at path method (registered check).1 ≡ none)
  unfolding get_http_api_routes new_http_router lookup
  get_http_api_routes-handler_at check pass =
      let same : registered (λ route. none) ≡ registered check = sym (
        register_batch-passed check (get_http_api_routes f o task_repo srv_repo) new_http_router
          pass) in
      (
        subst (λ k. k.0 ≡ ok tt) same registered-ok,
        (λ c.
            subst
              (λ k.
                handler_at (cmd_path c) (codes "POST") k.1
                ≡ some (handler_of f o task_repo srv_repo c))
              same (registered-handler_at c)),
        (λ path method h.
            register_batch-handler_at_other check (get_http_api_routes f o task_repo srv_repo)
              new_http_router path method
              (
                h ApiCall.add_task,
                (
                  h ApiCall.stop_task,
                  (
                    h ApiCall.confirm_task,
                    (
                      h ApiCall.register_task_callback_srv,
                      (h ApiCall.unregister_task_callback_srv, tt),
                    ),
                  ),
                ),
              )),
      )

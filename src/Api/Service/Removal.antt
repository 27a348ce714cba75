-- ===== src/Api/Service/Removal.antt =====
-- The routes that `UnregisterTaskCallbackSrv` removes.
use easytask.Base.{
  ◌≡◌, ◌↔◌, sym, true, List, [], ◌∷◌, Bool-cases, inl, inr, arith, ◌==ℤ◌, ==ℤ_iff, text_eq,
  text_eq_iff, ◌&&◌, ok, ok-continue, refl,
}
use mathlib.Core.List.{Memᴰ}
use easytask.Outside.{Outside}
use easytask.Task.{TaskCallbackSrv, TaskCallbackSrvRoute, new_task_callback_srv}
use easytask.Task.Repo.{TaskRepo, TaskCallbackSrvRepo}
use easytask.Registry.{discover, unregister}
use easytask.Api.Service.{
  UnregisterTaskCallbackSrvReq, ready_del_routes, unregister_task_callback_srv,
}

-- The address of a route is that of the request.
abbrev pub SameAddr : UnregisterTaskCallbackSrvReq → TaskCallbackSrvRoute → Type 0
SameAddr r route = (route.host ≡ r.host) × (route.scheme ≡ r.schema) × (route.port ≡ r.port)

SameAddr-iff :
    (r : UnregisterTaskCallbackSrvReq) (route : TaskCallbackSrvRoute)
    → ((text_eq route.host r.host && text_eq route.scheme r.schema && route.port ==ℤ r.port) ≡ true)
      ↔ SameAddr r route
SameAddr-iff r route = ground (
  arith,
  text_eq_iff route.host r.host,
  text_eq_iff route.scheme r.schema,
  ==ℤ_iff route.port r.port,
)

-- A route is chosen for removal exactly when the service has it and its host, schema and port are those
-- of the request.
ready_del_routes-Mem :
    (r : UnregisterTaskCallbackSrvReq) (routes : List TaskCallbackSrvRoute)
    (route : TaskCallbackSrvRoute)
    → Memᴰ route (ready_del_routes r routes) ↔ (Memᴰ route routes × SameAddr r route)
unfolding ready_del_routes
ready_del_routes-Mem r [] route = ((λ m. elim m [ ]), (λ (m, a). elim m [ ]))
ready_del_routes-Mem r (x ∷ routes) route =
    let (to, from) = ready_del_routes-Mem r routes route in
    let (same, test) = SameAddr-iff r x in
    elim (Bool-cases (text_eq x.host r.host && text_eq x.scheme r.schema && x.port ==ℤ r.port)) [
      | inl hit ↦ rw hit (
        (λ m. elim m [
          | Memᴰ.head e ↦ (Memᴰ.head e, rw e (same hit))
          | Memᴰ.tail m' ↦ (let (there, a) = to m' in (Memᴰ.tail there, a))
        ]),
        (λ (m, a). elim m [ Memᴰ.head e ↦ Memᴰ.head e | Memᴰ.tail m' ↦ Memᴰ.tail (from (m', a)) ]),
      )
      | inr miss ↦ rw miss (
        (λ m. let (there, a) = to m in (Memᴰ.tail there, a)),
        (λ (m, a). elim m [
          | Memᴰ.head e ↦ cc (miss, test (rw (sym e) a))
          | Memᴰ.tail m' ↦ from (m', a)
        ]),
      )
    ]

module _ {W : Type 0} (o : Outside) (task_repo : TaskRepo W)
    (srv_repo : TaskCallbackSrvRepo W) where
  -- Where Discover finds a service by the name of the request, UnregisterTaskCallbackSrv is one
  -- DelSrvRoutes in the world after it, of that service with exactly its routes whose host, schema and
  -- port are those of the request.
  pub unregister_task_callback_srv-removed :
      (r : UnregisterTaskCallbackSrvReq) (w : W) (srv : TaskCallbackSrv)
      → (discover srv_repo r.name w).0 ≡ ok srv
      → (gone : TaskCallbackSrv) × (unregister_task_callback_srv o task_repo srv_repo r w
          ≡ srv_repo.del_srv_routes gone (discover srv_repo r.name w).1)
        × (gone.id ≡ srv.id)
        × (gone.name ≡ srv.name)
        × ((route : TaskCallbackSrvRoute)
            → Memᴰ route gone.routes ↔ (Memᴰ route srv.routes × SameAddr r route))
  unfolding unregister_task_callback_srv unregister new_task_callback_srv
  unregister_task_callback_srv-removed r w srv found = (
    _,
    ok-continue _ (discover srv_repo r.name w).1 found,
    refl,
    refl,
    (λ route. ready_del_routes-Mem r srv.routes route),
  )

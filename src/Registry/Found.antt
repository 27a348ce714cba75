-- ===== src/Registry/Found.antt =====
-- Discover after Register: what is registered is found again.
use easytask.Base.{
  lift, text_eq_iff, arith, ℕ, ◌≡◌, refl, sym, ap, ◌∙◌, inl, inr, Bool, true, false, ◌&&◌, ◌||◌,
  List, [], ◌∷◌, ◌==◌, ◌==ℤ◌, take, drop, any, all, select, All, All-map_of, Bool-cases, Text, ok,
  continue-eq-ok, text_eq, not, &&-split, any-Perm, all-Perm, any-select_of, all-select_of, ==_iff,
  none, some, ok-continue, all-select,
}
use easytask.Task.{TaskCallbackSrv, TaskCallbackSrvRoute}
use easytask.Task.Repo.{QueryStream, eq_name}
use easytask.Mysql.Models.{
  TaskCallbackSrvModel, TaskCallbackSrvRouteModel, srv_to_entity, route_to_entity,
}
use easytask.Mysql.Models.Columns.{srv_model, route_model}
use easytask.Mysql.Gorm.{Gorm, Window, where_, in_scope}
use easytask.Mysql.Gorm.Laws.{GormLaws, Found}
use easytask.Mysql.Repos.{task_srv_repo}
use easytask.Mysql.SrvRepo.Query.{scope_of, get_srvs, route_conds, join_routes}
use easytask.Mysql.SrvRepo.Query.Grouping.{joined, join_routes-joined}
use easytask.Mysql.SrvRepo.Routes.{add_srv_routes}
use easytask.Mysql.SrvRepo.Routes.Kept.{any-map, live_route, live_srv}
use easytask.Mysql.SrvRepo.Routes.Registered.{Registered, add_srv_routes-Registered}
use easytask.Registry.{first_srv, discover, register}

-- The address of a route, among the routes of a service.
abbrev pub is_at : TaskCallbackSrvRoute → TaskCallbackSrvRoute → Bool
is_at r e = text_eq e.host r.host && (e.port ==ℤ r.port && text_eq e.scheme r.scheme)

-- The unique index on the names of services, for a name and its key.
abbrev pub names_key : Text → ℕ → TaskCallbackSrvModel → Bool
names_key name key m = not (text_eq m.name name) || m.id == key

abbrev pub by_name : Text → QueryStream
by_name name = record { limit = 1; offset = 0; options = eq_name name ∷ [] }

-- A page of one, of rows that are not none: its row passes what all pass.
page_of_one :
    {M : Type 0} (p : M → Bool) (listed : List M)
    → any p listed ≡ true
    → (m : M) × (take 1 (drop 0 listed) ≡ m ∷ [])
      × ((q : M → Bool) → all q listed ≡ true → q m ≡ true)
page_of_one p [] h = cc
page_of_one p (m ∷ listed) h = (m, refl, (λ q k. (&&-split (q m) (all q listed) k).0))

live-in_scope :
    (g : Gorm) (key : ℕ) (r : TaskCallbackSrvRoute) (x : TaskCallbackSrvRouteModel)
    → live_route key r x ≡ true
    → in_scope route_model (where_ (route_conds g false (key ∷ []))) x ≡ true
live-in_scope g key r x h = ground (arith, &&-split (x.deleted_at == 0) _ h)

live-owner :
    (key : ℕ) (r : TaskCallbackSrvRoute) (x : TaskCallbackSrvRouteModel)
    → live_route key r x ≡ true
    → (key == x.srv_id) ≡ true
live-owner key r x h = ground (arith, h)

live-is_at :
    (key : ℕ) (r : TaskCallbackSrvRoute) (x : TaskCallbackSrvRouteModel)
    → live_route key r x ≡ true
    → is_at r (route_to_entity x) ≡ true
unfolding route_to_entity
live-is_at key r x h = ground (arith, h)

module _ (g : Gorm) (laws : GormLaws g) where
  -- The row of a live service's route becomes an entity with its address.
  joined-is_at :
      (key : ℕ) (r : TaskCallbackSrvRoute) (m : TaskCallbackSrvModel) (w : g.World)
      (rows : List TaskCallbackSrvRouteModel)
      → m.id ≡ key
      → any (live_route key r) (laws.view w).routes ≡ true
      → Found
          (record { limit = none; offset = 0; by_id = false })
          (select
            (in_scope route_model (where_ (route_conds g false (m.id ∷ []))))
            (laws.view w).routes)
          rows
      → any (is_at r) (joined rows m).routes ≡ true
  unfolding srv_to_entity
  joined-is_at key r m w rows same there (listed, perm, e) =
      let q = in_scope route_model (where_ (route_conds g false (m.id ∷ []))) in
      let chosen =
        any-select_of (live_route key r) q (live_route key r) (laws.view w).routes
          (λ x h. (rw same (live-in_scope g key r x h), h)) there in
      let read : any (live_route key r) rows ≡ true =
        rw e (any-Perm (live_route key r) perm ∙ chosen) in
      let own =
        any-select_of (live_route key r) (λ x. m.id == x.srv_id) (live_route key r) rows
          (λ x h. (rw same (live-owner key r x h), h)) read in
      any-map (live_route key r) (is_at r) route_to_entity _ (λ x h. live-is_at key r x h) own

-- An element that passes one test, where all pass another.
any-all {ℓ} :
    {A : Type ℓ} (p q : A → Bool) (xs : List A)
    → any p xs ≡ true
    → all q xs ≡ true
    → (x : A) × (p x ≡ true) × (q x ≡ true)
any-all p q [] h k = cc
any-all p q (x ∷ xs) h k =
    let (first, rest) = &&-split (q x) (all q xs) k in
    elim (Bool-cases (p x)) [
      | inl hit ↦ (x, hit, first)
      | inr miss ↦ any-all p q xs (rw miss at h) rest
    ]

-- With the index a row of the name has the key.
named-key :
    (name : Text) (key : ℕ) (m : TaskCallbackSrvModel)
    → text_eq m.name name ≡ true
    → names_key name key m ≡ true
    → m.id ≡ key
named-key name key m h k = ground (arith, ==_iff m.id key)

live-key :
    (name : Text) (k key : ℕ) (m : TaskCallbackSrvModel)
    → live_srv k name m ≡ true
    → names_key name key m ≡ true
    → k ≡ key
live-key name k key m h u = ground (arith, ==_iff m.id key, ==_iff m.id k)

live-named :
    (key : ℕ) (name : Text) (m : TaskCallbackSrvModel)
    → live_srv key name m ≡ true
    → in_scope srv_model (where_ ((λ m. text_eq m.name name) ∷ [])) m ≡ true
live-named key name m h = ground (arith, h)

in_scope-named :
    (name : Text) (m : TaskCallbackSrvModel)
    → in_scope srv_model (where_ ((λ m. text_eq m.name name) ∷ [])) m ≡ true
    → text_eq m.name name ≡ true
in_scope-named name m h = ground (arith, h)

module _ (g : Gorm) (laws : GormLaws g) where
  get_srvs-has_routes :
      (srv : TaskCallbackSrv) (w : g.World) (out : List TaskCallbackSrv)
      → Registered g laws srv w
      → (get_srvs g (by_name srv.name) w).0 ≡ ok out
      → (key : ℕ) → all (names_key srv.name key) (laws.view w).srvs ≡ true
      → (s : TaskCallbackSrv) × (rest : List TaskCallbackSrv) × (out ≡ s ∷ rest)
        × (s.name ≡ srv.name)
        × All (λ r. any (is_at r) s.routes ≡ true) srv.routes
  unfolding get_srvs scope_of srv_to_entity
  get_srvs-has_routes srv w out reg e key unique =
      let q = where_ ((λ (m : TaskCallbackSrvModel). text_eq m.name srv.name) ∷ []) in
      let win : Window = record { limit = some 1; offset = 0; by_id = false } in
      let found = g.srvs.find q win w in
      let (ms, read, e1, q1) = continue-eq-ok found.0 (join_routes g false) found.1 e in
      let (listed, perm, page) = laws.srv_laws.find_ok q win w ms read in
      let there =
        any-Perm (live_srv reg.key srv.name) perm
        ∙ any-select_of (live_srv reg.key srv.name) (in_scope srv_model q)
            (live_srv reg.key srv.name) (laws.view w).srvs
            (λ m h. (live-named reg.key srv.name m h, h)) reg.srv_there in
      let named =
        all-Perm (λ m. text_eq m.name srv.name) perm
        ∙ all-select (λ m. text_eq m.name srv.name) (in_scope srv_model q) (laws.view w).srvs
            (λ m h. in_scope-named srv.name m h) in
      let (m, one, of_all) = page_of_one (live_srv reg.key srv.name) listed there in
      let single : ms ≡ m ∷ [] = page ∙ one in
      let (rows, shown, joined_rows) =
        join_routes-joined g laws false (m ∷ []) found.1 out (rw single at e1) in
      let same_view = laws.srv_laws.find_view q win w in
      let keyed =
        all-Perm (names_key srv.name key) perm
        ∙ all-select_of (names_key srv.name key) (in_scope srv_model q) (laws.view w).srvs unique in
      let (x, live, right) =
        any-all (live_srv reg.key srv.name) (names_key srv.name key) (laws.view w).srvs
          reg.srv_there unique in
      let own : m.id ≡ reg.key =
        named-key srv.name key m (of_all (λ m. text_eq m.name srv.name) named)
          (of_all (names_key srv.name key) keyed)
        ∙ sym (live-key srv.name reg.key key x live right) in
      (
        joined rows m,
        [],
        joined_rows,
        (text_eq_iff m.name srv.name).0 (of_all (λ m. text_eq m.name srv.name) named),
        All-map_of {P = λ r. any (live_route reg.key r) (laws.view w).routes ≡ true}
            {Q = λ r. any (is_at r) (joined rows m).routes ≡ true}
            (λ r h.
              joined-is_at g laws reg.key r m w rows own h
                (rw (sym (ap (λ v. v.routes) same_view)) shown))
            srv.routes reg.routes_there,
      )

  -- When Register of a service has succeeded, the names of services are unique, and the query of
  -- Discover by the name answers, Discover finds a service of this name, and every route that was
  -- registered is among its routes, by host, port and schema.
  pub register-discover :
      (srv : TaskCallbackSrv) (w : g.World) (out : List TaskCallbackSrv) (key : ℕ)
      → (register (task_srv_repo g) srv w).0 ≡ ok tt
      → all (names_key srv.name key) (laws.view (register (task_srv_repo g) srv w).1).srvs ≡ true
      → (get_srvs g (by_name srv.name) (register (task_srv_repo g) srv w).1).0 ≡ ok out
      → (s : TaskCallbackSrv) × ((discover
            (task_srv_repo g)
            srv.name
            (register (task_srv_repo g) srv w).1).0
          ≡ ok s)
        × (s.name ≡ srv.name)
        × All (λ r. any (is_at r) s.routes ≡ true) srv.routes
  unfolding register discover
  register-discover srv w out key done unique answered =
      let v = (add_srv_routes g srv w).1 in
      let (s, rest, found, name, routes) =
        get_srvs-has_routes srv v out (add_srv_routes-Registered g laws srv w done) answered key
          unique in
      let read =
        ok-continue (λ srvs. lift (first_srv srvs)) (get_srvs g (by_name srv.name) v).1 answered in
      (s, ap (λ r. r.0) read ∙ ap first_srv found, name, routes)

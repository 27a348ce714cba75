-- ===== src/Mysql/SrvRepo/Routes/Stored.antt =====
-- What the loop of AddSrvRoutes leaves of the routes.
use easytask.Base.{
  ℕ, ◌≡◌, refl, sym, ap, ◌∙◌, inl, inr, Bool, true, ◌&&◌, List, [], ◌∷◌, ◌++◌, ◌==◌, ltb, any, all,
  select, All, ok, continue-eq-ok, not, subst, if◌then◌else◌, pure, Io, ==_iff,
}
use easytask.Task.{TaskCallbackSrvRoute}
use easytask.Mysql.Models.{TaskCallbackSrvRouteModel}
use easytask.Mysql.Models.Columns.{route_model}
use easytask.Mysql.Gorm.{Gorm, unscoped_where, in_scope}
use easytask.Mysql.Gorm.Laws.{GormLaws, Created}
use easytask.Mysql.SrvRepo.Routes.{
  same_addr, route_renewal, new_route, refresh, add_route, add_routes,
}
use easytask.Mysql.SrvRepo.Routes.Kept.{
  any-map, any-append, any-append_last, any-select, live_route, by_key, updated-live_route,
  updated-revived_route, Created-live_route,
}

module _ (g : Gorm) (laws : GormLaws g) where
  -- A live route of a service with the address of a route is stored.
  abbrev pub HasRoute : ℕ → g.World → TaskCallbackSrvRoute → Type 0
  HasRoute key w r = any (live_route key r) (laws.view w).routes ≡ true

  -- A world in which the route is stored, all routes are that were before, and the services are those
  -- of before.
  pub record Stored (key : ℕ) (r : TaskCallbackSrvRoute) (w v : g.World) : Type 0 where
    pub stored : HasRoute key v r
    pub kept : (other : TaskCallbackSrvRoute) → HasRoute key w other → HasRoute key v other
    pub same_srvs : (laws.view v).srvs ≡ (laws.view w).srvs

  refresh-Stored :
      (key : ℕ) (r : TaskCallbackSrvRoute) (found : TaskCallbackSrvRouteModel) (w : g.World)
      → any (λ m. m.id == found.id && all (λ c. c m) (same_addr key r)) (laws.view w).routes ≡ true
      → (refresh g r found w).0 ≡ ok tt
      → Stored key r w (refresh g r found w).1
  refresh-Stored key r found w there e =
      let q = by_key route_model found.id in
      let done = g.routes.updates q (route_renewal r found) w in
      let (n, good, rest, whole) = continue-eq-ok done.0 (λ _. pure tt) done.1 e in
      let (at, become, few, idle, columns) =
        laws.route_laws.updates_ok q (route_renewal r found) w n good in
      let rows : (laws.view done.1).routes ≡ _ = ap (λ v. v.routes) become in
      rw whole (record {
        stored = rw rows (
            any-map _ _ _ (laws.view w).routes (λ m. updated-revived_route key r found m at) there);
        kept = λ other h. rw rows (
            any-map _ _ _ (laws.view w).routes (λ m. updated-live_route key other r found m q at)
              h);
        same_srvs = ap (λ v. v.srvs) become;
      })

  -- A route that was there is renewed.
  found-Stored :
      (key : ℕ) (r : TaskCallbackSrvRoute) (w v : g.World) (row : TaskCallbackSrvRouteModel)
      (others : List TaskCallbackSrvRouteModel)
      → laws.view v ≡ laws.view w
      → select (in_scope route_model (unscoped_where (same_addr key r))) (laws.view w).routes
        ≡ row ∷ others
      → (refresh g r row v).0 ≡ ok tt
      → Stored key r w (refresh g r row v).1
  found-Stored key r w v row others same hit e =
      let there =
        any-select (λ m. m.id == row.id && all (λ c. c m) (same_addr key r)) _ (laws.view w).routes
          others row hit (λ h. rw ((==_iff row.id row.id).1 refl) h) in
      let done = refresh-Stored key r row v (rw (ap (λ x. x.routes) same) there) e in
      record {
        stored = done.stored;
        kept = λ other h. done.kept other (rw (ap (λ x. x.routes) same) h);
        same_srvs = done.same_srvs ∙ ap (λ x. x.srvs) same;
      }

  made-Stored :
      (key : ℕ) (r : TaskCallbackSrvRoute) (w v : g.World) (row : TaskCallbackSrvRouteModel)
      → Created route_model (laws.view w).routes (new_route key r) row
      → laws.view v ≡ record (laws.view w) { routes = (laws.view w).routes ++ row ∷ [] }
      → Stored key r w v
  made-Stored key r w v row fresh become =
      let rows : (laws.view v).routes ≡ _ = ap (λ x. x.routes) become in
      record {
        stored = rw rows (
            any-append_last (live_route key r) (laws.view w).routes row
              (Created-live_route key r (laws.view w).routes row fresh));
        kept = λ other h.
            rw rows (any-append (live_route key other) (laws.view w).routes (row ∷ []) h);
        same_srvs = ap (λ x. x.srvs) become;
      }

  -- The rest of `add_route`, by the statement's result.
  abbrev after : TaskCallbackSrvRoute → TaskCallbackSrvRouteModel × ℕ → Io g.World (Unit {0})
  after r res = if ltb 0 res.1 then pure tt else refresh g r res.0

  add_route-Stored :
      (key : ℕ) (r : TaskCallbackSrvRoute) (w : g.World)
      → (add_route g key r w).0 ≡ ok tt
      → Stored key r w (add_route g key r w).1
  unfolding add_route
  add_route-Stored key r w e =
      let q = unscoped_where (same_addr key r) in
      let found = g.routes.first_or_create q (new_route key r) w in
      let ((row, n), good, rest, whole) = continue-eq-ok found.0 (after r) found.1 e in
      let Goal : ℕ → Type 0 =
        λ n. (after r (row, n) found.1).0 ≡ ok tt → Stored key r w (after r (row, n) found.1).1 in
      let split : Goal n =
        elim (laws.route_laws.first_or_create_ok q (new_route key r) w row n good) [
          | inl (zero, same, others, hit) ↦
              subst Goal (sym zero) (λ h. found-Stored key r w found.1 row others same hit h)
          | inr (one, none, fresh, become) ↦
              subst Goal (sym one) (λ h. made-Stored key r w found.1 row fresh become)
        ] in
      rw whole (split rest)

  -- All the routes of the loop are stored.
  pub record AllStored (key : ℕ) (rs : List TaskCallbackSrvRoute) (w v : g.World) : Type 0 where
    pub stored : All (HasRoute key v) rs
    pub kept : (other : TaskCallbackSrvRoute) → HasRoute key w other → HasRoute key v other
    pub same_srvs : (laws.view v).srvs ≡ (laws.view w).srvs

  pub add_routes-AllStored :
      (key : ℕ) (rs : List TaskCallbackSrvRoute) (has : Bool) (w : g.World) (b : Bool)
      → (add_routes g key rs has w).0 ≡ ok b
      → AllStored key rs w (add_routes g key rs has w).1
  unfolding add_routes
  add_routes-AllStored key [] has w b e = record {
    stored = tt;
    kept = λ other h. h;
    same_srvs = refl;
  }
  add_routes-AllStored key (r ∷ rs) has w b e =
      let one = add_route g key r w in
      let (u, good, rest, whole) =
        continue-eq-ok one.0
          (λ _. add_routes g key rs (if r.is_enable_health_check && not has then true else has))
          one.1 e in
      let first = add_route-Stored key r w good in
      let later =
        add_routes-AllStored key rs (if r.is_enable_health_check && not has then true else has)
          one.1 b rest in
      rw whole (record {
        stored = (later.kept r first.stored, later.stored);
        kept = λ other h. later.kept other (first.kept other h);
        same_srvs = later.same_srvs ∙ first.same_srvs;
      })

-- ===== src/Registry/Health/Enabled.antt =====
-- Only what is under health check is checked.
use easytask.Base.{
  ℕ, ◌≡◌, sym, ap, ◌∙◌, Bool, true, ◌&&◌, ◌==◌, List, [], ◌∷◌, map, all, select, drop, ok,
  continue-eq-ok, ok-injective, all-Perm, all-drop, all-take, all-select, all-select_of, all-map,
  arith,
}
use mathlib.Core.Path.{subst}
use easytask.Task.{
  TaskCallbackSrv, TaskCallbackSrvRoute, new_task_callback_srv, new_task_callback_srv_route,
}
use easytask.Task.Repo.{TaskCallbackSrvExec}
use easytask.Mysql.Models.{
  TaskCallbackSrvModel, TaskCallbackSrvRouteModel, srv_to_entity, route_to_entity,
}
use easytask.Mysql.Models.Columns.{srv_model, route_model}
use easytask.Mysql.Gorm.{Gorm, where_, in_scope}
use easytask.Mysql.Gorm.Laws.{GormLaws}
use easytask.Mysql.SrvRepo.Query.{get_srvs, scope_of, whole, Scope, route_conds}
use easytask.Mysql.SrvRepo.Query.Grouping.{joined, get_srvs-joined}
use easytask.Mysql.Repos.{task_srv_repo}
use easytask.Registry.Health.{checking, health_round, check_page, check_size, after_srvs}

-- A service under health check, with all of its routes.
abbrev pub is_checked : TaskCallbackSrv → Bool
is_checked s = s.has_enable_health_check && all (λ r. r.is_enable_health_check) s.routes

joined-is_checked :
    (rows : List TaskCallbackSrvRouteModel) (m : TaskCallbackSrvModel)
    → all (λ r. r.enable_health_check) rows ≡ true
    → m.has_enable_health_check ≡ true
    → is_checked (joined rows m) ≡ true
unfolding srv_to_entity route_to_entity new_task_callback_srv new_task_callback_srv_route
joined-is_checked rows m h k = rw k (
    all-map (λ (r : TaskCallbackSrvRoute). r.is_enable_health_check) route_to_entity
      (λ r. r.enable_health_check) (select (λ r. m.id == r.srv_id) rows) (λ x e. e)
      (all-select_of (λ r. r.enable_health_check) (λ r. m.id == r.srv_id) rows h))

module _ (g : Gorm) where
  scope_of-check_page :
      (offset : ℕ) (scope : Scope)
      → scope_of (check_page offset).options whole ≡ ok scope
      → record { conds = (λ m. m.has_enable_health_check) ∷ []; only_enabled = true } ≡ scope
  unfolding scope_of
  scope_of-check_page offset scope e = ok-injective e

  in_scope-flag :
      (m : TaskCallbackSrvModel)
      → in_scope srv_model (where_ ((λ m. m.has_enable_health_check) ∷ [])) m ≡ true
      → m.has_enable_health_check ≡ true
  in_scope-flag m h = ground (arith, h)

  in_scope-enabled :
      (keys : List ℕ) (r : TaskCallbackSrvRouteModel)
      → in_scope route_model (where_ (route_conds g true keys)) r ≡ true
      → r.enable_health_check ≡ true
  in_scope-enabled keys r h = ground (arith, h)

  module _ (laws : GormLaws g) (exec : TaskCallbackSrvExec g.World) where
    get_srvs-is_checked :
        (offset : ℕ) (w : g.World) (srvs : List TaskCallbackSrv)
        → (get_srvs g (check_page offset) w).0 ≡ ok srvs
        → all is_checked srvs ≡ true
    get_srvs-is_checked offset w srvs e =
        let (scope, ms, rows, scoped, (listed, perm, cut), (listed', perm', whole'), out) =
          get_srvs-joined g laws (check_page offset) w srvs e in
        let same = scope_of-check_page offset scope scoped in
        let flag : TaskCallbackSrvModel → Bool = λ m. m.has_enable_health_check in
        let enabled : TaskCallbackSrvRouteModel → Bool = λ r. r.enable_health_check in
        let keys = map (λ m. m.id) ms in
        let flagged : all flag ms ≡ true =
          ap (all flag) cut
          ∙ all-take flag check_size (drop offset listed) (
              all-drop flag offset listed (
                all-Perm flag perm
                ∙ all-select flag (in_scope srv_model (where_ scope.conds)) (laws.view w).srvs
                    (λ m h.
                      in_scope-flag m (
                        subst (λ s. in_scope srv_model (where_ s.conds) m ≡ true) (sym same)
                          h)))) in
        let routed : all enabled rows ≡ true =
          ap (all enabled) whole'
          ∙ all-Perm enabled perm'
          ∙ all-select enabled
              (in_scope route_model (where_ (route_conds g scope.only_enabled keys)))
              (laws.view w).routes
              (λ r h. in_scope-enabled keys r (
                subst
                  (λ s. in_scope route_model (where_ (route_conds g s.only_enabled keys)) r ≡ true)
                  (sym same) h)) in
        ap (all is_checked) out
        ∙ all-map is_checked (joined rows) flag ms (λ m k. joined-is_checked rows m routed k)
            flagged

    -- The services that a round of the health check hands to the workers are all marked for health
    -- checks, and so are all the routes that they carry.
    pub health_round-is_checked :
        (offset next : ℕ) (w : g.World) (srvs : List TaskCallbackSrv)
        → (health_round (task_srv_repo g) exec offset w).0 ≡ ok (checking srvs, next)
        → all is_checked srvs ≡ true
    unfolding health_round
    health_round-is_checked offset next w srvs e =
        let got = get_srvs g (check_page offset) w in
        let (found, read, e1, q1) = continue-eq-ok got.0 _ got.1 e in
        let same : found ≡ srvs = after_srvs-checking offset found srvs next (ok-injective e1) in
        rw (← same) (get_srvs-is_checked offset w found read)
      where
        checking-injective : {xs ys : List TaskCallbackSrv} → checking xs ≡ checking ys → xs ≡ ys
        checking-injective e = cc

        after_srvs-checking :
            (offset : ℕ) (found srvs : List TaskCallbackSrv) (next : ℕ)
            → after_srvs (task_srv_repo g) exec offset found ≡ (checking srvs, next)
            → found ≡ srvs
        after_srvs-checking offset [] srvs next e = cc (ap (λ p. p.0) e)
        after_srvs-checking offset (s ∷ found) srvs next e = checking-injective (ap (λ p. p.0) e)

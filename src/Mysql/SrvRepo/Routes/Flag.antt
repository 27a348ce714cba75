-- ===== src/Mysql/SrvRepo/Routes/Flag.antt =====
-- Removing routes never clears the health-check flag of a service.
use easytask.Base.{
  ℕ, ◌≡◌, refl, ap, ◌∙◌, inl, inr, Bool, List, [], ◌∷◌, ◌==◌, map, select, length, Bool-cases,
  continue-keeps, continue-keeps_ok, Result-cases,
}
use easytask.Task.{TaskCallbackSrv}
use easytask.Mysql.Ids.{to_callback_srv_route_model_id}
use easytask.Mysql.Models.{TaskCallbackSrvModel, TaskCallbackSrvRouteModel}
use easytask.Mysql.Models.Columns.{srv_model, route_model}
use easytask.Mysql.Gorm.{Gorm, Query, where_, in_scope}
use easytask.Mysql.Gorm.Laws.{GormLaws, soft_deleted}
use easytask.Mysql.SrvRepo.Routes.{
  by_name, in_keys, route_keys, del_srv_routes, settle, route_nums_exprs, total_of, enabled_of,
  drop_srv, found_srv,
}

-- Two expressions that are never NULL count the same rows.
counts_agree :
    (rows : List TaskCallbackSrvRouteModel)
    → enabled_of (map (λ e. length (select e rows)) route_nums_exprs)
      ≡ total_of (map (λ e. length (select e rows)) route_nums_exprs)
counts_agree [] = refl
counts_agree (r ∷ rows) = elim (Bool-cases r.enable_health_check) [
  | inl on ↦ rw on (ap ℕ.suc (counts_agree rows))
  | inr off ↦ rw off (ap ℕ.suc (counts_agree rows))
]

abbrev pub flags : List TaskCallbackSrvModel → List Bool
flags rows = map (λ m. m.has_enable_health_check) rows

soft_deleted-flags :
    (q : Query TaskCallbackSrvModel) (at : ℕ) (rows : List TaskCallbackSrvModel)
    → flags (map (soft_deleted srv_model q at) rows) ≡ flags rows
soft_deleted-flags q at [] = refl
soft_deleted-flags q at (m ∷ rows) = elim (Bool-cases (in_scope srv_model q m)) [
  | inl hit ↦ rw (hit, soft_deleted-flags q at rows)
  | inr miss ↦ rw (miss, soft_deleted-flags q at rows)
]

module _ (g : Gorm) (laws : GormLaws g) where
  abbrev flags_at : g.World → List Bool
  flags_at w = flags (laws.view w).srvs

  delete-flags :
      (conds : List (TaskCallbackSrvModel → Bool)) (w : g.World)
      → flags_at (g.srvs.delete (where_ conds) w).1 ≡ flags_at w
  delete-flags conds w = elim (Result-cases (g.srvs.delete (where_ conds) w).0) [
    | inr (x, e) ↦ ap (λ v. flags v.srvs) (laws.srv_laws.delete_err (where_ conds) w x e)
    | inl (n, e) ↦
        let (at, later, become) = laws.srv_laws.delete_ok (where_ conds) w n e in
        ap (λ v. flags v.srvs) become ∙ soft_deleted-flags (where_ conds) at (laws.view w).srvs
  ]

  routes_delete-flags :
      (q : Query TaskCallbackSrvRouteModel) (w : g.World)
      → flags_at (g.routes.delete q w).1 ≡ flags_at w
  routes_delete-flags q w = elim (Result-cases (g.routes.delete q w).0) [
    | inr (x, e) ↦ ap (λ v. flags v.srvs) (laws.route_laws.delete_err q w x e)
    | inl (n, e) ↦
        let (at, later, become) = laws.route_laws.delete_ok q w n e in ap (λ v. flags v.srvs) become
  ]

  drop_srv-flags : (key : ℕ) (w : g.World) → flags_at (drop_srv g key w).1 ≡ flags_at w
  drop_srv-flags key w =
      let gone = g.srvs.delete (where_ ((λ m. m.id == key) ∷ [])) w in
      let same = delete-flags ((λ m. m.id == key) ∷ []) w in
      continue-keeps (λ v. flags_at v ≡ flags_at w) gone.0 _ gone.1 same (λ _. same)

  settle-flags :
      (found : TaskCallbackSrvModel) (nums : List ℕ) (w : g.World)
      → enabled_of nums ≡ total_of nums
      → flags_at (settle g found nums w).1 ≡ flags_at w
  unfolding settle
  settle-flags found nums w same = elim (Bool-cases (total_of nums == 0)) [
    | inl gone ↦ rw gone (drop_srv-flags found.id w)
    | inr left ↦ rw (left, same, left)
  ]

  -- DelSrvRoutes never changes the health-check flag of a service, in any row and whatever it returns,
  -- although routes under health check may have gone.
  pub del_srv_routes-flags :
      (srv : TaskCallbackSrv) (w : g.World)
      → flags (laws.view (del_srv_routes g srv w).1).srvs ≡ flags (laws.view w).srvs
  unfolding del_srv_routes
  del_srv_routes-flags srv w =
      let P : g.World → Type 0 = λ v. flags_at v ≡ flags_at w in
      let taken = g.srvs.take (where_ (by_name g srv.name)) w in
      let read : P taken.1 = ap (λ v. flags v.srvs) (laws.srv_laws.take_view _ w) in
      continue-keeps P (found_srv taken.0) _ taken.1 read (λ found.
        continue-keeps P (route_keys to_callback_srv_route_model_id srv.routes) _ taken.1 read
          (λ keys.
            let q = where_ ((λ m. m.srv_id == found.id) ∷ (λ m. in_keys keys m.id) ∷ []) in
            let gone = g.routes.delete q taken.1 in
            let dropped : P gone.1 = routes_delete-flags q taken.1 ∙ read in
            continue-keeps P gone.0 _ gone.1 dropped (λ _.
              let q' = where_ ((λ m. m.srv_id == found.id) ∷ []) in
              let nums = g.routes.count q' route_nums_exprs gone.1 in
              let counted : P nums.1 =
                ap (λ v. flags v.srvs) (laws.route_laws.count_view q' _ gone.1) ∙ dropped in
              continue-keeps_ok P nums.0 _ nums.1 counted (λ ns e.
                settle-flags found ns nums.1 (
                  rw (laws.route_laws.count_ok q' route_nums_exprs gone.1 ns e)
                    (counts_agree (select (in_scope route_model q') (laws.view gone.1).routes)))
                ∙ counted))))

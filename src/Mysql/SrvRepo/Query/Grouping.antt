-- ===== src/Mysql/SrvRepo/Query/Grouping.antt =====
-- Services with their routes: the loops over the rows agree with a join.
use easytask.Base.{
  ℕ, ◌≡◌, refl, sym, ap, ◌∙◌, inl, inr, Bool, false, List, [], ◌∷◌, ◌++◌, ◌==◌, map, select,
  Bool-cases, ok, continue-eq-ok, ok-injective, none, some,
}
use mathlib.Core.List.Perm
use easytask.Task.{TaskCallbackSrv}
use easytask.Task.Repo.{QueryStream}
use easytask.Mysql.Models.{
  TaskCallbackSrvModel, TaskCallbackSrvRouteModel, srv_to_entity, route_to_entity,
}
use easytask.Mysql.Models.Columns.{srv_model, route_model}
use easytask.Mysql.Gorm.{Gorm, Window, where_, in_scope}
use easytask.Mysql.Gorm.Laws.{GormLaws, Found}
use easytask.Mysql.SrvRepo.Query.{
  group_routes, Scope, scope_of, whole, srvs_with, route_conds, join_routes, get_srvs,
}

++-assoc_cons {ℓ} :
    {A : Type ℓ} (xs : List A) (x : A) (ys : List A) → (xs ++ x ∷ []) ++ ys ≡ xs ++ x ∷ ys
++-assoc_cons [] x ys = refl
++-assoc_cons (z ∷ xs) x ys = ap (λ l. z ∷ l) (++-assoc_cons xs x ys)

++-nil {ℓ} : {A : Type ℓ} (xs : List A) → xs ++ [] ≡ xs
++-nil [] = refl
++-nil (z ∷ xs) = ap (λ l. z ∷ l) (++-nil xs)

group_routes-select :
    (rows : List TaskCallbackSrvRouteModel) (grouped : ℕ → List TaskCallbackSrvRouteModel) (k : ℕ)
    → group_routes grouped rows k ≡ grouped k ++ select (λ r. k == r.srv_id) rows
unfolding group_routes
group_routes-select [] grouped k = sym (++-nil (grouped k))
group_routes-select (r ∷ rows) grouped k = elim (Bool-cases (k == r.srv_id)) [
  | inl hit ↦ group_routes-select rows _ k ∙ rw hit (++-assoc_cons (grouped k) r _)
  | inr miss ↦ group_routes-select rows _ k ∙ rw miss
]

-- A service row with the entities of its route rows, in their order.
abbrev pub joined : List TaskCallbackSrvRouteModel → TaskCallbackSrvModel → TaskCallbackSrv
joined rows m = srv_to_entity m (map route_to_entity (select (λ r. m.id == r.srv_id) rows))

module _ (g : Gorm) where
  srvs_with-joined :
      (rows : List TaskCallbackSrvRouteModel) (ms : List TaskCallbackSrvModel)
      → srvs_with g rows ms ≡ map (joined rows) ms
  unfolding srvs_with
  srvs_with-joined rows [] = refl
  srvs_with-joined rows (m ∷ ms) =
      rw (group_routes-select rows (λ k. []) m.id, srvs_with-joined rows ms)

  abbrev pub routes_window : Window
  routes_window = record { limit = none; offset = 0; by_id = false }

  module _ (laws : GormLaws g) where
    pub join_routes-joined :
        (only_enabled : Bool) (ms : List TaskCallbackSrvModel) (w : g.World)
        (out : List TaskCallbackSrv)
        → (join_routes g only_enabled ms w).0 ≡ ok out
        → (rows : List TaskCallbackSrvRouteModel) × Found routes_window
            (select
              (in_scope route_model (where_ (route_conds g only_enabled (map (λ m. m.id) ms))))
              (laws.view w).routes)
            rows
          × (out ≡ map (joined rows) ms)
    unfolding join_routes
    join_routes-joined only_enabled [] w out e =
        let rows =
          select (in_scope route_model (where_ (route_conds g only_enabled [])))
            (laws.view w).routes in
        (rows, (rows, Perm.refl rows, refl), sym (ok-injective e))
    join_routes-joined only_enabled (m ∷ ms) w out e =
        let q = where_ (route_conds g only_enabled (m.id ∷ map (λ m. m.id) ms)) in
        let found = g.routes.find q routes_window w in
        let (rows, read, e1, q1) = continue-eq-ok found.0 _ found.1 e in
        (
          rows,
          laws.route_laws.find_ok q routes_window w rows read,
          sym (ok-injective e1) ∙ srvs_with-joined rows (m ∷ ms),
        )

    -- What GetSrvs returns is a join: a window of the live service rows that pass the conditions, each
    -- with its live route rows, of those under health check only where the options ask for it, in the
    -- order in which the query for routes found them.
    pub get_srvs-joined :
        (stream : QueryStream) (w : g.World) (out : List TaskCallbackSrv)
        → (get_srvs g stream w).0 ≡ ok out
        → (scope : Scope) × (ms : List TaskCallbackSrvModel) × (rows : List
            TaskCallbackSrvRouteModel)
          × (scope_of stream.options whole ≡ ok scope)
          × Found
              (record { limit = some stream.limit; offset = stream.offset; by_id = false })
              (select (in_scope srv_model (where_ scope.conds)) (laws.view w).srvs)
              ms
          × Found routes_window
              (select
                (in_scope route_model
                  (where_ (route_conds g scope.only_enabled (map (λ m. m.id) ms))))
                (laws.view w).routes)
              rows
          × (out ≡ map (joined rows) ms)
    unfolding get_srvs
    get_srvs-joined stream w out e =
        let (scope, scoped, e1, q1) = continue-eq-ok (scope_of stream.options whole) _ w e in
        let win : Window = record {
          limit = some stream.limit;
          offset = stream.offset;
          by_id = false;
        } in
        let found = g.srvs.find (where_ scope.conds) win w in
        let (ms, read, e2, q2) = continue-eq-ok found.0 _ found.1 e1 in
        let (rows, listed, joined_rows) = join_routes-joined scope.only_enabled ms found.1 out e2 in
        (
          scope,
          ms,
          rows,
          scoped,
          laws.srv_laws.find_ok (where_ scope.conds) win w ms read,
          rw (sym (ap (λ v. v.routes) (laws.srv_laws.find_view (where_ scope.conds) win w))) listed,
          joined_rows,
        )

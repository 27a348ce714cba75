-- ===== src/Mysql/SrvRepo/Query.antt =====
-- `GetSrvs` and `GetSrvsByIds` of internal/task/impl/repo/mysql/task_srv_repo.go.
pub mod Grouping
use easytask.Base.{
  ℕ, ◌==◌, ltb, Bool, true, false, ◌&&◌, ◌||◌, not, any, List, [], ◌∷◌, ◌++◌, map, is_empty, length,
  Option, none, some, if◌then◌else◌, ℤ, pos, ◌==ℤ◌, ltb_ℤ, Text, text_eq, Error, record_not_found,
  Io, ◌>>=◌, ◌>>◌, pure, lift, attempt, Result, ok, err,
}
use easytask.Errs.{new_biz_err, err_code_task_callback_srv_not_found}
use easytask.Task.{TaskCallbackSrv, TaskCallbackSrvRoute}
use easytask.Task.Repo.{
  QueryOpt, in_ids, enabled_heath_check, checked_health_lt, eq_name, QueryStream,
  TaskCallbackSrvRepo,
}
use easytask.Mysql.Ids.{
  to_callback_srv_route_model_id, to_tack_callback_srv_route_model_id, checked,
}
use easytask.Mysql.Column.{Column, Value, int, uint, bool}
use easytask.Mysql.Models.{
  TaskCallbackSrvModel, TaskCallbackSrvRouteModel, route_to_entity, srv_to_entity,
}
use easytask.Mysql.Gorm.{Gorm, where_, unscoped_where, Window}
use easytask.Mysql.LogRepo.{clock}
use easytask.Mysql.SrvRepo.Routes.{in_keys}

-- The loop that converts the ids of services.
unfoldable pub id_keys : List Text → Result (List ℕ)
unfolding to_tack_callback_srv_route_model_id
id_keys [] = ok []
id_keys (s ∷ ss) =
    let rest = id_keys ss in
    elim (checked (to_tack_callback_srv_route_model_id s)) [
      | err e ↦ err e
      | ok k ↦ elim rest [ err e ↦ err e | ok ks ↦ ok (k ∷ ks) ]
    ]

-- The map from a service to its routes, as the loop over the rows builds it.
unfoldable pub group_routes :
    (ℕ → List TaskCallbackSrvRouteModel)
    → List TaskCallbackSrvRouteModel
    → ℕ
    → List TaskCallbackSrvRouteModel
group_routes grouped [] = grouped
group_routes grouped (r ∷ rs) =
    group_routes (λ k. if k == r.srv_id then grouped k ++ r ∷ [] else grouped k) rs

-- What the option handlers of `GetSrvs` leave: the conditions, and whether only routes under health
-- check are wanted.
pub record Scope : Type 0 where
  pub conds : List (TaskCallbackSrvModel → Bool)
  pub only_enabled : Bool

abbrev with_cond : (TaskCallbackSrvModel → Bool) → Scope → Scope
with_cond c s = record s { conds = s.conds ++ c ∷ [] }

unfoldable pub scope_of : List QueryOpt → Scope → Result Scope
unfolding id_keys
scope_of [] s = ok s
scope_of (in_ids ids ∷ opts) s = elim (id_keys ids) [
  | err e ↦ err e
  | ok keys ↦ scope_of opts (with_cond (λ m. in_keys keys m.id) s)
]
scope_of (enabled_heath_check ∷ opts) s =
    scope_of opts (with_cond (λ m. m.has_enable_health_check) (record s { only_enabled = true }))
scope_of (checked_health_lt v ∷ opts) s =
    scope_of opts (with_cond (λ m. ltb_ℤ m.checked_health_at v) s)
scope_of (eq_name v ∷ opts) s = scope_of opts (with_cond (λ m. text_eq m.name v) s)

abbrev pub whole : Scope
whole = record { conds = []; only_enabled = false }

module _ (g : Gorm) where
  -- The entities of the services found, with the rows of their routes.
  unfoldable pub srvs_with :
      List TaskCallbackSrvRouteModel → List TaskCallbackSrvModel → List TaskCallbackSrv
  unfolding group_routes srv_to_entity route_to_entity
  srvs_with rows ms =
      let grouped = group_routes (λ k. []) rows in
      map (λ m. srv_to_entity m (map route_to_entity (grouped m.id))) ms

  abbrev pub route_conds : Bool → List ℕ → List (TaskCallbackSrvRouteModel → Bool)
  route_conds only_enabled keys =
      (λ m. in_keys keys m.srv_id)
      ∷ (if only_enabled then (λ m. m.enable_health_check) ∷ [] else [])

  abbrev all_rows : Window
  all_rows = record { limit = none; offset = 0; by_id = false }

  -- What follows the query for services.
  unfoldable pub join_routes : Bool → List TaskCallbackSrvModel → Io g.World (List TaskCallbackSrv)
  unfolding srvs_with
  join_routes only_enabled ms = if is_empty ms then pure [] else do
    rows ← g.routes.find (where_ (route_conds only_enabled (map (λ m. m.id) ms))) all_rows
    pure (srvs_with rows ms)

  unfoldable pub get_srvs : QueryStream → Io g.World (List TaskCallbackSrv)
  unfolding scope_of join_routes
  get_srvs stream = do
    scope ← lift (scope_of stream.options whole)
    ms ←
        g.srvs.find (where_ scope.conds)
          (record { limit = some stream.limit; offset = stream.offset; by_id = false })
    join_routes scope.only_enabled ms

  unfoldable pub get_srvs_by_ids : List Text → Io g.World (List TaskCallbackSrv)
  unfolding get_srvs
  get_srvs_by_ids ids =
      get_srvs (record { limit = length ids; offset = 0; options = in_ids ids ∷ [] })

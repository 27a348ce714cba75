-- ===== src/Mysql/SrvRepo/Routes.antt =====
-- Registering and removing routes, and health checks that passed, in
-- internal/task/impl/repo/mysql/task_srv_repo.go.
pub mod Flag
pub mod Kept
pub mod Stored
pub mod Registered
use easytask.Base.{
  ℕ, ◌==◌, ltb, Bool, true, false, ◌&&◌, ◌||◌, not, any, List, [], ◌∷◌, ◌++◌, map, is_empty, Option,
  none, some, if◌then◌else◌, ℤ, pos, ◌==ℤ◌, ltb_ℤ, Text, text_eq, Error, record_not_found, Io,
  ◌>>=◌, ◌>>◌, pure, lift, attempt, Result, ok, err,
}
use easytask.Errs.{new_biz_err, err_code_task_callback_srv_not_found}
use easytask.Task.{TaskCallbackSrv, TaskCallbackSrvRoute}
use easytask.Task.Repo.{
  QueryOpt, in_ids, enabled_heath_check, checked_health_lt, eq_name, QueryStream,
  TaskCallbackSrvRepo,
}
use easytask.Mysql.Ids.{
  to_callback_srv_route_model_id, to_tack_callback_srv_route_model_id, checked,
}
use easytask.Mysql.Column.{Column, Value, int, uint, bool}
use easytask.Mysql.Models.{
  TaskCallbackSrvModel, TaskCallbackSrvRouteModel, route_to_entity, srv_to_entity,
}
use easytask.Mysql.Gorm.{Gorm, where_, unscoped_where}
use easytask.Mysql.LogRepo.{clock}

abbrev pub in_keys : List ℕ → ℕ → Bool
in_keys keys k = any (λ j. j == k) keys

-- The rows that `FirstOrCreate` makes.
abbrev pub new_srv : Text → TaskCallbackSrvModel
new_srv name = record {
  base = record { id = 0; created_at = pos 0; updated_at = pos 0; deleted_at = 0 };
  name = name;
  checked_health_at = pos 0;
  has_enable_health_check = false;
}

abbrev pub new_route : ℕ → TaskCallbackSrvRoute → TaskCallbackSrvRouteModel
new_route srv_key r = record {
  base = record { id = 0; created_at = pos 0; updated_at = pos 0; deleted_at = 0 };
  srv_schema = r.scheme;
  host = r.host;
  port = r.port;
  srv_id = srv_key;
  callback_timeout_sec = r.callback_timeout_sec;
  checked_health_at = pos 0;
  enable_health_check = r.is_enable_health_check;
}

abbrev pub same_addr : ℕ → TaskCallbackSrvRoute → List (TaskCallbackSrvRouteModel → Bool)
same_addr srv_key r =
    (λ m. m.srv_id == srv_key)
    ∷ (λ m. text_eq m.host r.host)
    ∷ (λ m. m.port ==ℤ r.port)
    ∷ (λ m. text_eq m.srv_schema r.scheme)
    ∷ []

-- The update map of a route that was there, `found` as it was read.
abbrev pub route_renewal : TaskCallbackSrvRoute → TaskCallbackSrvRouteModel → List (Column × Value)
route_renewal r found =
    (Column.deleted_at, uint 0)
    ∷ (Column.enable_health_check, bool r.is_enable_health_check)
    ∷ (if r.callback_timeout_sec ==ℤ found.callback_timeout_sec
        then []
        else (Column.callback_timeout_sec, int r.callback_timeout_sec) ∷ [])

-- The loop that converts the ids of routes, by one of the two conversions.
unfoldable pub route_keys : (Text → ℕ × Option Error) → List TaskCallbackSrvRoute → Result (List ℕ)
route_keys convert [] = ok []
route_keys convert (r ∷ rs) =
    let rest = route_keys convert rs in
    elim (checked (convert r.id)) [
      | err e ↦ err e
      | ok k ↦ elim rest [ err e ↦ err e | ok ks ↦ ok (k ∷ ks) ]
    ]

-- The error of `Take`, as the callers see it.
abbrev pub found_srv : Result TaskCallbackSrvModel → Result TaskCallbackSrvModel
found_srv (ok m) = ok m
found_srv (err record_not_found) = err (new_biz_err err_code_task_callback_srv_not_found)
found_srv (err e) = err e

-- Whether an SQL expression counts: it is not NULL.
abbrev pub is_not_null : Option ℕ → Bool
is_not_null none = false
is_not_null (some _) = true

-- COUNT(1), and COUNT(IF(enable_health_check > 0, 1, 0)).
abbrev pub route_nums_exprs : List (TaskCallbackSrvRouteModel → Bool)
route_nums_exprs =
    (λ m. is_not_null (some 1))
    ∷ (λ m. is_not_null (if m.enable_health_check then some 1 else some 0))
    ∷ []

-- The columns `total` and `enabled_check_health_num` of the row.
abbrev pub total_of : List ℕ → ℕ
total_of [] = 0
total_of (n ∷ _) = n

abbrev pub enabled_of : List ℕ → ℕ
enabled_of (_ ∷ n ∷ _) = n
enabled_of _ = 0

module _ (g : Gorm) where
  abbrev revive : ℕ → Io g.World (Unit {0})
  revive key = do
    _ ← g.srvs.updates (unscoped_where ((λ m. m.id == key) ∷ [])) ((Column.deleted_at, uint 0) ∷ [])
    pure tt

  abbrev set_flag : ℕ → Bool → Io g.World (Unit {0})
  set_flag key flag = do
    _ ←
        g.srvs.updates (where_ ((λ m. m.id == key) ∷ []))
          ((Column.has_enable_health_check, bool flag) ∷ [])
    pure tt

  abbrev refresh : TaskCallbackSrvRoute → TaskCallbackSrvRouteModel → Io g.World (Unit {0})
  refresh r found = do
    _ ← g.routes.updates (unscoped_where ((λ m. m.id == found.id) ∷ [])) (route_renewal r found)
    pure tt

  unfoldable pub add_route : ℕ → TaskCallbackSrvRoute → Io g.World (Unit {0})
  add_route srv_key r = do
    res ← g.routes.first_or_create (unscoped_where (same_addr srv_key r)) (new_route srv_key r)
    if ltb 0 res.1 then pure tt else refresh r res.0

  -- The loop over the routes, with the variable `hasEnableHealthCheck`.
  unfoldable pub add_routes : ℕ → List TaskCallbackSrvRoute → Bool → Io g.World Bool
  unfolding add_route
  add_routes srv_key [] has = pure has
  add_routes srv_key (r ∷ rs) has = do
    add_route srv_key r
    add_routes srv_key rs (if r.is_enable_health_check && not has then true else has)

  unfoldable pub add_srv_routes : TaskCallbackSrv → Io g.World (Unit {0})
  unfolding add_routes
  add_srv_routes srv = do
    res ←
        g.srvs.first_or_create (unscoped_where ((λ m. text_eq m.name srv.name) ∷ []))
          (new_srv srv.name)
    if res.1 == 0 && ltb 0 res.0.deleted_at then revive res.0.id else pure tt
    has ← add_routes res.0.id srv.routes false
    if has && not res.0.has_enable_health_check then set_flag res.0.id true else pure tt

  abbrev by_name : Text → List (TaskCallbackSrvModel → Bool)
  by_name name = (λ m. text_eq m.name name) ∷ []

  abbrev drop_srv : ℕ → Io g.World (Unit {0})
  drop_srv key = do _ ← g.srvs.delete (where_ ((λ m. m.id == key) ∷ [])); pure tt

  -- What follows the count of the routes that are left.
  unfoldable pub settle : TaskCallbackSrvModel → List ℕ → Io g.World (Unit {0})
  settle found nums =
      if total_of nums == 0
      then drop_srv found.id
      else if enabled_of nums == 0 && found.has_enable_health_check
      then set_flag found.id false
      else pure tt

  unfoldable pub del_srv_routes : TaskCallbackSrv → Io g.World (Unit {0})
  unfolding new_biz_err route_keys settle
  del_srv_routes srv = do
    taken ← attempt (g.srvs.take (where_ (by_name srv.name)))
    found ← lift (found_srv taken)
    keys ← lift (route_keys to_callback_srv_route_model_id srv.routes)
    _ ← g.routes.delete (where_ ((λ m. m.srv_id == found.id) ∷ (λ m. in_keys keys m.id) ∷ []))
    nums ← g.routes.count (where_ ((λ m. m.srv_id == found.id) ∷ [])) route_nums_exprs
    settle found nums

  -- The rest of `SetSrvRoutesPassHealthCheck`, for a service with routes.
  abbrev pass : TaskCallbackSrv → Io g.World (Unit {0})
  pass srv = do
    taken ← attempt (g.srvs.take (where_ (by_name srv.name)))
    found ← lift (found_srv taken)
    keys ← lift (route_keys to_tack_callback_srv_route_model_id srv.routes)
    now ← clock g
    _ ←
        g.routes.updates (where_ ((λ m. m.srv_id == found.id) ∷ (λ m. in_keys keys m.id) ∷ []))
          ((Column.checked_health_at, int now) ∷ [])
    _ ←
        g.srvs.updates (where_ ((λ m. m.id == found.id) ∷ []))
          ((Column.checked_health_at, int now) ∷ [])
    pure tt

  unfoldable pub set_srv_routes_pass_health_check : TaskCallbackSrv → Io g.World (Unit {0})
  unfolding new_biz_err route_keys
  set_srv_routes_pass_health_check srv = if is_empty srv.routes then pure tt else pass srv

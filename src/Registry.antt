-- ===== src/Registry.antt =====
-- internal/registry/registry.go: finding, registering and removing callback services.
pub mod Health
pub mod Stopping
pub mod Found
use easytask.Base.{List, [], ◌∷◌, Text, Result, ok, err, Io, ◌>>=◌, lift}
use easytask.Errs.{new_biz_err, err_code_task_callback_srv_not_found}
use easytask.Task.{TaskCallbackSrv}
use easytask.Task.Repo.{TaskCallbackSrvRepo, eq_name}

-- The first of the services found.
abbrev pub first_srv : List TaskCallbackSrv → Result TaskCallbackSrv
first_srv [] = err (new_biz_err err_code_task_callback_srv_not_found)
first_srv (srv ∷ _) = ok srv

module _ {W : Type 0} (srv_repo : TaskCallbackSrvRepo W) where
  unfoldable pub discover : Text → Io W TaskCallbackSrv
  unfolding new_biz_err
  discover srv_name = do
    srvs ← srv_repo.get_srvs (record { limit = 1; offset = 0; options = eq_name srv_name ∷ [] })
    lift (first_srv srvs)

  unfoldable pub register : TaskCallbackSrv → Io W (Unit {0})
  register srv = srv_repo.add_srv_routes srv

  unfoldable pub unregister : TaskCallbackSrv → Io W (Unit {0})
  unregister srv = srv_repo.del_srv_routes srv

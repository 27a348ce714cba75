-- ===== src/Registry/Health.antt =====
-- The health checks of internal/registry/registry.go: the pages of services to check, and what a
-- worker does with a service.
pub mod Enabled
use easytask.Base.{
  ℕ, ◌+◌, Bool, true, List, [], ◌∷◌, is_empty, Option, none, some, if◌then◌else◌, Result, ok, err,
  Io, ◌>>=◌, ◌>>◌, pure, fail, attempt,
}
use easytask.Errs.{err_current_node_no_master}
use easytask.Task.{TaskCallbackSrv, TaskCallbackSrvRoute, HeartBeatResp, new_task_callback_srv}
use easytask.Task.Repo.{TaskCallbackSrvRepo, TaskCallbackSrvExec, QueryStream, enabled_heath_check}

-- A round of the loop of `HealthCheck`: it ends, or services go to the workers.
pub data HealthRound : Type 0 where
  ended : HealthRound
  checking : List TaskCallbackSrv → HealthRound

-- How a round of a worker ends.
pub data HealthEnd : Type 0 where
  stays leaves : HealthEnd

abbrev pub check_size : ℕ
check_size = 1000

abbrev pub check_page : ℕ → QueryStream
check_page offset = record {
  limit = check_size;
  offset = offset;
  options = enabled_heath_check ∷ [];
}

module _ {W : Type 0} (srv_repo : TaskCallbackSrvRepo W) (exec : TaskCallbackSrvExec W) where
  -- The round by the services found, and the offset after it.
  abbrev pub after_srvs : ℕ → List TaskCallbackSrv → HealthRound × ℕ
  after_srvs offset srvs =
      if is_empty srvs then (ended, 0) else (checking srvs, offset + check_size)

  unfoldable pub health_round : ℕ → Io W (HealthRound × ℕ)
  health_round offset = do
    srvs ← srv_repo.get_srvs (check_page offset)
    pure (after_srvs offset srvs)

  -- The start of `HealthCheck`: only the master checks, from the offset 0.
  unfoldable pub health_check : Bool → Io W (HealthRound × ℕ)
  unfolding health_round
  health_check is_master = if is_master then health_round 0 else fail err_current_node_no_master

  abbrev pub with_routes : TaskCallbackSrv → List TaskCallbackSrvRoute → TaskCallbackSrv
  with_routes srv routes = new_task_callback_srv srv.id srv.name routes true

  -- Routes that replied are marked, the others removed; errors are logged and dropped.
  abbrev pass_replied : TaskCallbackSrv → List TaskCallbackSrvRoute → Io W (Unit {0})
  pass_replied srv routes = if is_empty routes then pure tt else do
    _ ← attempt (srv_repo.set_srv_routes_pass_health_check (with_routes srv routes))
    pure tt

  abbrev drop_silent : TaskCallbackSrv → List TaskCallbackSrvRoute → Io W (Unit {0})
  drop_silent srv routes =
      if is_empty routes
      then pure tt
      else do _ ← attempt (srv_repo.del_srv_routes (with_routes srv routes)); pure tt

  abbrev settle_beat : TaskCallbackSrv → Result HeartBeatResp → Io W HealthEnd
  settle_beat srv (err e) = pure stays
  settle_beat srv (ok b) = do
    pass_replied srv b.reply_routes
    drop_silent srv b.no_reply_routes
    pure stays

  unfoldable pub check_srv : TaskCallbackSrv → Io W HealthEnd
  unfolding new_task_callback_srv
  check_srv srv = do beat ← attempt (exec.heart_beat srv); settle_beat srv beat

  -- A round of the loop of `runWorker`: a service from the channel, or a tick, at which the flag is
  -- read.
  unfoldable pub health_worker_round : Bool → Option TaskCallbackSrv → Io W HealthEnd
  unfolding check_srv
  health_worker_round is_paused none = pure (if is_paused then leaves else stays)
  health_worker_round is_paused (some srv) = check_srv srv

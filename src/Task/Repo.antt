-- ===== src/Task/Repo.antt =====
-- `TaskRepo` and `TaskCallbackSrvRepo` of internal/task/repo.go, the interfaces of the repositories.
use easytask.Base.{ℕ, Bool, List, ℤ, Text, Io}
use easytask.Task.{Task, TaskResp, TaskCallbackSrv, TaskCallbackSrvResp, HeartBeatResp}
use easytask.Task.Logs.{DelOpt}

pub record TaskRepo (W : Type 0) : Type 0 where
  -- the tasks and the next cursor
  pub timeout_tasks : ℕ → Text → Io W (List Task × Text)
  -- whether the task was locked, and the task, which the call mutates
  pub lock_task : Task → Io W (Bool × Task)
  pub confirm_task : TaskResp → Io W (Unit {0})
  pub add_task : Task → Io W Text
  pub get_task_by_id : Text → Io W Task
  pub del_task_by_id : Text → Io W (Unit {0})
  pub del_tasks : List DelOpt → Io W (Unit {0})

-- The options of `GetSrvs`, in internal/task/repo_query_opt.go.
pub data QueryOpt : Type 0 where
  in_ids : List Text → QueryOpt
  enabled_heath_check : QueryOpt
  checked_health_lt : ℤ → QueryOpt
  eq_name : Text → QueryOpt

pub record QueryStream : Type 0 where
  pub limit : ℕ
  pub offset : ℕ
  pub options : List QueryOpt

pub record TaskCallbackSrvRepo (W : Type 0) : Type 0 where
  pub add_srv_routes : TaskCallbackSrv → Io W (Unit {0})
  pub del_srv_routes : TaskCallbackSrv → Io W (Unit {0})
  pub set_srv_routes_pass_health_check : TaskCallbackSrv → Io W (Unit {0})
  pub get_srvs_by_ids : List Text → Io W (List TaskCallbackSrv)
  pub get_srvs : QueryStream → Io W (List TaskCallbackSrv)

-- `TaskCallbackSrvExec` of internal/task/callback.go.
pub record TaskCallbackSrvExec (W : Type 0) : Type 0 where
  pub callback_srv : Task → Io W TaskCallbackSrvResp
  pub heart_beat : TaskCallbackSrv → Io W HeartBeatResp

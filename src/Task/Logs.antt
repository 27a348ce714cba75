-- ===== src/Task/Logs.antt =====
-- The log entries of internal/task/task.go and `TaskLogger`, over the repository of logs.
use easytask.Base.{
  List, ◌≡◌, refl, Bool, Option, none, some, ℤ, Text, codes, Error, new, panic, Result, ok, err, Io,
  fail, lift, deref, ◌>>=◌, ok-injective,
}
use easytask.Task.{Task, TaskCallbackSrvRoute, TaskResp, Status}

pub record TaskStartedLogDetail : Type 0 where
  pub task : Task

pub record TaskCallbackLogDetail : Type 0 where
  pub task_id : Text
  pub callback_path : Text
  pub run_times : ℤ
  -- a pointer that the validator requires
  pub route : Option TaskCallbackSrvRoute
  pub resp_raw : Text
  pub is_run_in_async : Bool
  pub task_status : Status
  pub error : Option Error

pub record TaskConfirmedLogDetail : Type 0 where
  pub task_resp : TaskResp

-- `TaskLogRepo` and the options of `DelLogs` and `DelTasks`, in internal/task/repo.go and
-- internal/task/repo_query_opt.go. A stream of options is the handler calls that it leads to.
pub data DelOpt : Type 0 where
  created_exceed : ℤ → DelOpt
  task_finished : DelOpt

pub record TaskLogRepo (W : Type 0) : Type 0 where
  pub save_task_started_log : TaskStartedLogDetail → Io W (Unit {0})
  pub save_task_callback_log : TaskCallbackLogDetail → Io W (Unit {0})
  pub save_task_confirmed_log : TaskConfirmedLogDetail → Io W (Unit {0})
  pub del_logs : List DelOpt → Io W (Unit {0})

pub data TaskLogType : Type 0 where
  type_nil type_started type_callback type_confirmed : TaskLogType

-- The dynamic type and the value of an argument of type `any`.
pub data Detail : Type 0 where
  started : TaskStartedLogDetail → Detail
  callback : TaskCallbackLogDetail → Detail
  confirmed : TaskConfirmedLogDetail → Detail

pub record TaskLog : Type 0 where
  pub log_type : TaskLogType
  pub task_started_detail : Option TaskStartedLogDetail
  pub task_callback_detail : Option TaskCallbackLogDetail
  pub task_confirmed_detail : Option TaskConfirmedLogDetail

abbrev blank : TaskLogType → TaskLog
blank log_type = record {
  log_type = log_type;
  task_started_detail = none;
  task_callback_detail = none;
  task_confirmed_detail = none;
}

-- A type assertion that fails panics, and so does an unknown log type.
unfoldable pub must_new_task_log : TaskLogType → Detail → Result TaskLog
must_new_task_log type_started (started d) =
    ok (record (blank type_started) { task_started_detail = some d })
must_new_task_log type_callback (callback d) =
    ok (record (blank type_callback) { task_callback_detail = some d })
must_new_task_log type_confirmed (confirmed d) =
    ok (record (blank type_confirmed) { task_confirmed_detail = some d })
must_new_task_log _ _ = err panic

module _ {W : Type 0} (repo : TaskLogRepo W) where
  log_as : TaskLogType → TaskLog → Io W (Unit {0})
  log_as type_started l = do d ← lift (deref l.task_started_detail); repo.save_task_started_log d
  log_as type_callback l = do d ← lift (deref l.task_callback_detail); repo.save_task_callback_log d
  log_as type_confirmed l = do
    d ← lift (deref l.task_confirmed_detail)
    repo.save_task_confirmed_log d
  log_as type_nil l = fail (new (codes "not support logging task behavior"))

  -- `TaskLogger.Log`
  unfoldable pub log : TaskLog → Io W (Unit {0})
  unfolding log_as
  log l = log_as l.log_type l

  -- The repository's method for a detail.
  abbrev pub save : Detail → Io W (Unit {0})
  save (started d) = repo.save_task_started_log d
  save (callback d) = repo.save_task_callback_log d
  save (confirmed d) = repo.save_task_confirmed_log d

  -- What `MustNewTaskLog` makes is logged by the method of its detail, with the detail unchanged,
  -- and no panic.
  log-must_new_task_log :
      (log_type : TaskLogType) (d : Detail) (l : TaskLog) (w : W)
      → must_new_task_log log_type d ≡ ok l
      → log l w ≡ save d w
  unfolding log must_new_task_log
  log-must_new_task_log type_nil _ l w e = cc
  log-must_new_task_log type_started (started d) l w e = rw (← ok-injective e) refl
  log-must_new_task_log type_callback (callback d) l w e = rw (← ok-injective e) refl
  log-must_new_task_log type_confirmed (confirmed d) l w e = rw (← ok-injective e) refl
  log-must_new_task_log _ _ l w e = cc

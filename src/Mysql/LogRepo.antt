-- ===== src/Mysql/LogRepo.antt =====
-- internal/task/impl/repo/mysql/task_log_repo.go
pub mod Effects
pub mod Deletion
use easytask.Base.{
  ℕ, ◌==◌, Bool, false, List, [], ◌∷◌, ◌++◌, Option, none, some, if◌then◌else◌, ℤ, pos, ◌==ℤ◌,
  ltb_ℤ, Text, Error, Io, ◌>>=◌, pure, lift, deref, Result, ok, err,
}
use easytask.Task.{Status, nil, ready, running, success, failed, is_task_success, is_task_failed}
use easytask.Task.Logs.{
  TaskStartedLogDetail, TaskCallbackLogDetail, TaskConfirmedLogDetail, TaskLogRepo, DelOpt,
  created_exceed, task_finished,
}
use easytask.Mysql.Ids.{to_task_model_id, to_callback_srv_route_model_id, checked}
use easytask.Mysql.Column.{Column, Value, int, text, bool, req, resp, error}
use easytask.Mysql.Models.{TaskModel, TaskLogModel, status_running, status_success, status_failed}
use easytask.Mysql.Gorm.{Gorm, Query, where_, unscoped_where}

module _ (g : Gorm) where
  -- time.Now().Unix()
  abbrev pub clock : Io g.World ℤ
  clock w = let r = g.now w in (ok r.0, r.1)

  unfoldable pub save_task_started_log : TaskStartedLogDetail → Io g.World (Unit {0})
  unfolding to_task_model_id to_callback_srv_route_model_id
  save_task_started_log detail = do
    key ← lift (checked (to_task_model_id detail.task.id))
    srv ← lift (deref detail.task.callback_srv)
    srv_key ← lift (checked (to_callback_srv_route_model_id srv.id))
    now ← clock
    g.logs.create (record {
      base = record { id = 0; created_at = pos 0; updated_at = pos 0; deleted_at = 0 };
      task_id = key;
      started_at = now;
      ended_at = pos 0;
      task_status = status_running;
      is_run_in_async = false;
      resp_extra = [];
      run_times = detail.task.run_times;
      srv_id = srv_key;
      req_snapshot = none;
      resp_snapshot = none;
      callback_err = none;
    })

  -- The rows of a task's run.
  abbrev pub run_of : Text → ℤ → Query TaskLogModel
  run_of id times = where_ ((λ m. g.uint_eq_text m.task_id id) ∷ (λ m. m.run_times ==ℤ times) ∷ [])

  -- The entries that a final status adds to the update map of `SaveTaskCallbackLog`.
  status_entries : Status → Io g.World (List (Column × Value))
  status_entries success = do
    now ← clock
    pure ((Column.task_status, int status_success) ∷ (Column.ended_at, int now) ∷ [])
  status_entries failed = do
    now ← clock
    pure ((Column.task_status, int status_failed) ∷ (Column.ended_at, int now) ∷ [])
  status_entries _ = pure []

  abbrev error_entries : Option Error → List (Column × Value)
  error_entries none = []
  error_entries (some e) = (Column.callback_err, error e) ∷ []

  unfoldable pub save_task_callback_log : TaskCallbackLogDetail → Io g.World (Unit {0})
  unfolding status_entries
  save_task_callback_log detail = do
    route ← lift (deref detail.route)
    now ← clock
    let entries =
        (Column.is_run_in_async, bool detail.is_run_in_async)
        ∷ (
          Column.req_snapshot,
          req (record {
            srv_schema = route.scheme;
            host = route.host;
            port = route.port;
            timeout_sec = route.callback_timeout_sec;
            callback_at = now;
            callback_path = detail.callback_path;
          }),
        )
        ∷ (Column.resp_snapshot, resp (record { resp_raw = detail.resp_raw }))
        ∷ []
    more ← status_entries detail.task_status
    _ ←
        g.logs.updates (run_of detail.task_id detail.run_times)
          (entries ++ more ++ error_entries detail.error)
    pure tt

  abbrev pub confirmed_status : Status → List (Column × Value)
  confirmed_status success = (Column.task_status, int status_success) ∷ []
  confirmed_status failed = (Column.task_status, int status_failed) ∷ []
  confirmed_status _ = []

  unfoldable pub save_task_confirmed_log : TaskConfirmedLogDetail → Io g.World (Unit {0})
  save_task_confirmed_log detail = do
    now ← clock
    _ ← g.logs.updates (run_of detail.task_resp.task_id detail.task_resp.task_run_times) (
        (Column.ended_at, int now)
        ∷ (Column.resp_extra, text detail.task_resp.extra)
        ∷ confirmed_status detail.task_resp.task_status)
    pure tt

  -- The conditions that the option handlers of `DelLogs` add. No handler takes `task_finished`.
  abbrev pub del_log_conds : List DelOpt → List (TaskModel → Bool)
  del_log_conds [] = []
  del_log_conds (created_exceed v ∷ opts) = (λ m. ltb_ℤ v m.created_at) ∷ del_log_conds opts
  del_log_conds (task_finished ∷ opts) = del_log_conds opts

  -- The model of the `Delete` is `TaskModel`, the table of the tasks.
  unfoldable pub del_logs : List DelOpt → Io g.World (Unit {0})
  del_logs opts = do _ ← g.tasks.delete (unscoped_where (del_log_conds opts)); pure tt

  unfoldable pub task_log_repo : TaskLogRepo g.World
  unfolding save_task_started_log save_task_callback_log save_task_confirmed_log del_logs
  task_log_repo = record {
    save_task_started_log = save_task_started_log;
    save_task_callback_log = save_task_callback_log;
    save_task_confirmed_log = save_task_confirmed_log;
    del_logs = del_logs;
  }

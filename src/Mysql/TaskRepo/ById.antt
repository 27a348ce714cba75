-- ===== src/Mysql/TaskRepo/ById.antt =====
-- `GetTaskById`, `DelTaskById` and `DelTasks` of internal/task/impl/repo/mysql/task_repo.go.
pub mod Deleted
use easytask.Base.{
  ◌==◌, List, [], ◌∷◌, Text, Error, record_not_found, Io, ◌>>=◌, ◌>>◌, pure, fail, lift, attempt,
  Result, ok, err,
}
use easytask.Errs.{new_biz_err, err_code_task_not_found, err_code_task_callback_srv_not_found}
use easytask.Outside.{Outside}
use easytask.Task.{Task, TaskCallbackSrv, new_task}
use easytask.Task.Logs.{DelOpt, created_exceed, task_finished}
use easytask.Task.Repo.{TaskCallbackSrvRepo}
use easytask.Mysql.Ids.{to_task_model_id, to_task_callback_srv_entity_id, checked}
use easytask.Mysql.Column.{Column}
use easytask.Mysql.Models.{TaskModel, to_task_entity_sched_mode}
use easytask.Mysql.Gorm.{Gorm, where_, Cond, above, at_most}
use easytask.Mysql.TaskRepo.Rows.{by_id_req}

module _ (g : Gorm) where
  unfoldable pub del_task_by_id : Text → Io g.World (Unit {0})
  unfolding to_task_model_id
  del_task_by_id task_id = do
    key ← lift (checked (to_task_model_id task_id))
    _ ← g.tasks.delete (where_ ((λ m. m.id == key) ∷ []))
    pure tt

  -- The conditions that the option handlers of `DelTasks` add.
  abbrev pub del_task_conds : List DelOpt → List Cond
  del_task_conds [] = []
  del_task_conds (created_exceed v ∷ opts) = above Column.created_at v ∷ del_task_conds opts
  del_task_conds (task_finished ∷ opts) =
      at_most Column.allow_max_run_times Column.run_times ∷ del_task_conds opts

  -- The struct of the `Delete` is the repository of logs.
  unfoldable pub del_tasks : List DelOpt → Io g.World (Unit {0})
  del_tasks opts = do _ ← g.delete_task_log_repo (del_task_conds opts); pure tt

  -- The error of `Take`, as the callers see it.
  abbrev pub found : Result TaskModel → Result TaskModel
  found (ok m) = ok m
  found (err record_not_found) = err (new_biz_err err_code_task_not_found)
  found (err e) = err e

  abbrev first_srv : List TaskCallbackSrv → Result TaskCallbackSrv
  first_srv [] = err (new_biz_err err_code_task_callback_srv_not_found)
  first_srv (srv ∷ _) = ok srv

  unfoldable pub get_task_by_id : Outside → TaskCallbackSrvRepo g.World → Text → Io g.World Task
  unfolding to_task_model_id new_biz_err to_task_callback_srv_entity_id to_task_entity_sched_mode
      new_task
  get_task_by_id o srv_repo task_id = do
    key ← lift (checked (to_task_model_id task_id))
    taken ← attempt (g.tasks.take (where_ ((λ m. m.id == key) ∷ [])))
    m ← lift (found taken)
    srvs ← srv_repo.get_srvs_by_ids (to_task_callback_srv_entity_id m.callback_srv_id ∷ [])
    srv ← lift (first_srv srvs)
    mode ← lift (to_task_entity_sched_mode m.sched_mode)
    lift (new_task o.check_new_task_req (by_id_req srv mode m))

-- ===== src/Mysql/Repos.antt =====
-- The repositories as their interfaces see them: `NewTaskRepo` and `NewTaskSrvRepo`.
use easytask.Outside.{Outside}
use easytask.Task.Repo.{TaskRepo, TaskCallbackSrvRepo}
use easytask.Mysql.Gorm.{Gorm}
use easytask.Mysql.LogRepo.{task_log_repo}
use easytask.Mysql.TaskRepo.Timeout.{timeout_tasks}
use easytask.Mysql.TaskRepo.Lock.{lock_task}
use easytask.Mysql.TaskRepo.Confirm.{confirm_task}
use easytask.Mysql.TaskRepo.Add.{add_task}
use easytask.Mysql.TaskRepo.ById.{get_task_by_id, del_task_by_id, del_tasks}
use easytask.Mysql.SrvRepo.Routes.{add_srv_routes, del_srv_routes, set_srv_routes_pass_health_check}
use easytask.Mysql.SrvRepo.Query.{get_srvs, get_srvs_by_ids}

module _ (g : Gorm) where
  abbrev pub task_srv_repo : TaskCallbackSrvRepo g.World
  task_srv_repo = record {
    add_srv_routes = add_srv_routes g;
    del_srv_routes = del_srv_routes g;
    set_srv_routes_pass_health_check = set_srv_routes_pass_health_check g;
    get_srvs_by_ids = get_srvs_by_ids g;
    get_srvs = get_srvs g;
  }

  abbrev pub task_repo : Outside → TaskRepo g.World
  task_repo o = record {
    timeout_tasks = timeout_tasks g o task_srv_repo;
    lock_task = lock_task g o (task_log_repo g);
    confirm_task = confirm_task g (task_log_repo g);
    add_task = add_task g o;
    get_task_by_id = get_task_by_id g o task_srv_repo;
    del_task_by_id = del_task_by_id g;
    del_tasks = del_tasks g;
  }

-- ===== src/Tests/Broken.antt =====
-- `AddTask` over a database whose statement for the row fails.
use easytask.Base.{◌≡◌, ◌↔◌, Error, refl, ok, err, foreign, [], pos}
use easytask.Mysql.Gorm.{Gorm}
use easytask.Mysql.Gorm.Laws.{GormLaws}
use easytask.Mysql.Gorm.Memory.{memory, memory-laws}
use easytask.Mysql.TaskRepo.Add.{add_task}
use easytask.Mysql.TaskRepo.Add.Laws.{Prepared, statement, add_task-lost}
use easytask.Tests.Samples.{outside, task, srv, start}
use easytask.Tests.Rows.{known_srv, known_mode, planned}

-- A lock wait that times out.
abbrev broken : Gorm
broken = record memory {
  tasks = record memory.tasks { first_or_create = λ q m w. (err (foreign 1205), w) };
}

abbrev broken-laws : GormLaws broken
broken-laws = record {
  view = memory-laws.view;
  now_view = memory-laws.now_view;
  task_laws = record {
    find_view = memory-laws.task_laws.find_view;
    find_ok = memory-laws.task_laws.find_ok;
    take_view = memory-laws.task_laws.take_view;
    take_ok = memory-laws.task_laws.take_ok;
    take_not_found = memory-laws.task_laws.take_not_found;
    updates_ok = memory-laws.task_laws.updates_ok;
    updates_err = memory-laws.task_laws.updates_err;
    delete_ok = memory-laws.task_laws.delete_ok;
    delete_err = memory-laws.task_laws.delete_err;
    create_ok = memory-laws.task_laws.create_ok;
    create_err = memory-laws.task_laws.create_err;
    first_or_create_ok = λ q m w row n e. cc;
    first_or_create_err = λ q m w e h. refl;
    count_view = memory-laws.task_laws.count_view;
    count_ok = memory-laws.task_laws.count_ok;
  };
  log_laws = memory-laws.log_laws;
  srv_laws = memory-laws.srv_laws;
  route_laws = memory-laws.route_laws;
  delete_task_log_repo_view = memory-laws.delete_task_log_repo_view;
}

abbrev prepared : Prepared broken broken-laws outside task start
prepared = record {
  srv = srv;
  srv_key = 3;
  mode = pos 3;
  next = pos 260;
  has_srv = refl;
  parsed = known_srv;
  known_mode = known_mode;
  planned = planned;
}

add_task-lost_example : ((add_task broken outside task start).0 ≡ ok []) ↔ (
    (e : Error) × ((statement broken broken-laws outside task start prepared).0 ≡ err e)
    × (broken-laws.view (add_task broken outside task start).1 ≡ broken-laws.view start))
add_task-lost_example = add_task-lost broken broken-laws outside task start prepared

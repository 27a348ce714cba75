-- ===== src/Api/Http/Outcomes.antt =====
-- What the API answers to requests, over the repositories on MySQL.
use easytask.Base.{
  ◌≡◌, ◌≢◌, refl, inl, inr, true, Text, ok, err, Error, continue-eq-ok, Bool-cases, Option-cases,
  ◌⊎◌, if◌then◌else◌,
}
use easytask.Outside.{Outside, IsValidator}
use easytask.Task.{
  Task, SchedMode, mode_nil, new_task, NewTaskReq, TaskResp, success, failed, new_task_resp,
}
use easytask.Task.Repo.{TaskRepo, TaskCallbackSrvRepo}
use easytask.Registry.{discover}
use easytask.Api.Service.{AddTaskReq, ConfirmTaskReq, new_task_req}
use easytask.Api.Service
use easytask.Api.Http.{
  AddTaskHttpReq, checked_mode, service_req, add_task, confirm_task, sched_mode_time_cron,
  sched_mode_time_spec, sched_mode_time_interval,
}
use easytask.Api.Http.Checks.{IsNumber, checked_mode-HasParameter}
use easytask.Mysql.Gorm.{Gorm}
use easytask.Mysql.Gorm.Laws.{GormLaws}
use easytask.Mysql.LogRepo.{task_log_repo}
use easytask.Mysql.Repos.{task_repo, task_srv_repo}
use easytask.Mysql.TaskRepo.Confirm.Columns.{confirm_task-lost}

new_task-mode :
    (o : Outside) (req : NewTaskReq) (t : Task)
    → IsValidator o
    → new_task o.check_new_task_req req ≡ ok t
    → req.sched_mode ≢ mode_nil
unfolding new_task
new_task-mode o req t valid e = elim (Option-cases (o.check_new_task_req req)) [
  | inl fine ↦ ((valid.accepts req).0 fine).2
  | inr (x, bad) ↦ cc (rw (new_task, bad) at e)
]

module _ {W : Type 0} (o : Outside) (task_repo : TaskRepo W)
    (srv_repo : TaskCallbackSrvRepo W) where
  service_add_task-mode :
      (r : AddTaskReq) (w : W) (id : Text)
      → IsValidator o
      → (Service.add_task o task_repo srv_repo r w).0 ≡ ok id
      → r.sched_mode ≢ mode_nil
  unfolding Service.add_task
  service_add_task-mode r w id valid e =
      let got = discover srv_repo r.srv_name w in
      let (srv, found, e1, q1) = continue-eq-ok got.0 _ got.1 e in
      let (t, built, e2, q2) =
        continue-eq-ok (new_task o.check_new_task_req (new_task_req srv r)) _ got.1 e1 in
      new_task-mode o (new_task_req srv r) t valid built

  -- AddTask of the API never succeeds for a schedule mode whose number is none of the three, whatever
  -- the repositories do, where the validator accepts what the struct tags allow.
  pub add_task-unknown_mode :
      (r : AddTaskHttpReq) (w : W) (id : Text)
      → IsValidator o
      → r.sched_mode ≢ sched_mode_time_cron
      → r.sched_mode ≢ sched_mode_time_spec
      → r.sched_mode ≢ sched_mode_time_interval
      → (add_task o task_repo srv_repo r w).0 ≢ ok id
  unfolding add_task
  add_task-unknown_mode r w id valid no_cron no_spec no_interval e =
      let (mode, passed, e1, q1) = continue-eq-ok (checked_mode r) _ w e in
      let not_nil = service_add_task-mode (service_req mode r) w id valid e1 in
      by_mode mode (checked_mode-HasParameter r mode passed).0 not_nil
    where
      by_mode : (mode : SchedMode) → IsNumber mode r.sched_mode → mode ≢ mode_nil → ⊥
      by_mode mode_nil n h = h refl
      by_mode SchedMode.time_cron n h = no_cron n
      by_mode SchedMode.time_spec n h = no_spec n
      by_mode SchedMode.time_interval n h = no_interval n

-- The response that the service makes of a request.
abbrev answer_of : ConfirmTaskReq → TaskResp
answer_of r =
    new_task_resp r.task_id true (if r.is_success then success else failed) r.task_run_times r.extra

answer_of-status :
    (r : ConfirmTaskReq)
    → ((answer_of r).task_status ≡ success) ⊎ ((answer_of r).task_status ≡ failed)
unfolding new_task_resp
answer_of-status r = elim (Bool-cases r.is_success) [
  | inl good ↦ rw good (inl refl)
  | inr bad ↦ rw bad (inr refl)
]

module _ (g : Gorm) (laws : GormLaws g) (o : Outside) where
  -- ConfirmTask of the API answers every request with an error and changes no table.
  pub confirm_task-err :
      (r : ConfirmTaskReq) (w : g.World)
      → (e : Error) × ((confirm_task o (task_repo g o) (task_srv_repo g) r w).0 ≡ err e)
        × (laws.view (confirm_task o (task_repo g o) (task_srv_repo g) r w).1 ≡ laws.view w)
  unfolding confirm_task Service.confirm_task
  confirm_task-err r w =
      confirm_task-lost g laws (task_log_repo g) (answer_of r) w (answer_of-status r)

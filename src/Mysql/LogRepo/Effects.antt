-- ===== src/Mysql/LogRepo/Effects.antt =====
-- What the three methods for log entries do to the tables.
use easytask.Base.{◌≡◌, refl, ◌∙◌, ap, inl, inr, List, Result-cases, continue-keeps, deref}
use easytask.Task.Logs.{TaskStartedLogDetail}
use easytask.Mysql.Ids.{to_task_model_id, to_callback_srv_route_model_id, checked}
use easytask.Mysql.Column.{Column, Value}
use easytask.Mysql.Models.{TaskLogModel}
use easytask.Mysql.Gorm.{Gorm, Query, Tables}
use easytask.Mysql.Gorm.Laws.{GormLaws}
use easytask.Mysql.LogRepo.{save_task_started_log}

-- Two views that differ in the table of logs at most.
pub record SameBesideLogs (a b : Tables) : Type 0 where
  pub tasks : a.tasks ≡ b.tasks
  pub srvs : a.srvs ≡ b.srvs
  pub routes : a.routes ≡ b.routes

pub same : {a b : Tables} → a ≡ b → SameBesideLogs a b
same e = record {
  tasks = ap (λ t. t.tasks) e;
  srvs = ap (λ t. t.srvs) e;
  routes = ap (λ t. t.routes) e;
}

pub then_same : {a b c : Tables} → SameBesideLogs a b → SameBesideLogs b c → SameBesideLogs a c
then_same h k = record {
  tasks = h.tasks ∙ k.tasks;
  srvs = h.srvs ∙ k.srvs;
  routes = h.routes ∙ k.routes;
}

module _ (g : Gorm) (laws : GormLaws g) where
  create-SameBesideLogs :
      (m : TaskLogModel) (w : g.World)
      → SameBesideLogs (laws.view (g.logs.create m w).1) (laws.view w)
  create-SameBesideLogs m w = elim (Result-cases (g.logs.create m w).0) [
    | inl (tt', e) ↦
        let made = laws.log_laws.create_ok m w e in
        record {
          tasks = ap (λ t. t.tasks) made.2;
          srvs = ap (λ t. t.srvs) made.2;
          routes = ap (λ t. t.routes) made.2;
        }
    | inr (x, e) ↦ same (laws.log_laws.create_err m w x e)
  ]

  updates-SameBesideLogs :
      (q : Query TaskLogModel) (xs : List (Column × Value)) (w : g.World)
      → SameBesideLogs (laws.view (g.logs.updates q xs w).1) (laws.view w)
  updates-SameBesideLogs q xs w = elim (Result-cases (g.logs.updates q xs w).0) [
    | inl (n, e) ↦
        let done = laws.log_laws.updates_ok q xs w n e in
        record {
          tasks = ap (λ t. t.tasks) done.1;
          srvs = ap (λ t. t.srvs) done.1;
          routes = ap (λ t. t.routes) done.1;
        }
    | inr (x, e) ↦ same (laws.log_laws.updates_err q xs w x e)
  ]

  pub save_task_started_log-SameBesideLogs :
      (d : TaskStartedLogDetail) (w : g.World)
      → SameBesideLogs (laws.view (save_task_started_log g d w).1) (laws.view w)
  unfolding save_task_started_log
  save_task_started_log-SameBesideLogs d w =
      continue-keeps P (checked (to_task_model_id d.task.id)) _ w (same refl) λ key.
        continue-keeps P (deref d.task.callback_srv) _ w (same refl) λ srv.
          continue-keeps P (checked (to_callback_srv_route_model_id srv.id)) _ w (same refl)
            λ srv_key. then_same (create-SameBesideLogs _ (g.now w).1) (same (laws.now_view w))
    where
      P : g.World → Type 0
      P v = SameBesideLogs (laws.view v) (laws.view w)

-- ===== src/Tests/Health.antt =====
-- A round of the health check at a concrete input.
use easytask.Base.{◌≡◌, refl, ok, err, panic, all, [], ◌∷◌, none, true}
use easytask.Mysql.SrvRepo.Query.{get_srvs}
use easytask.Mysql.Gorm.Memory.{memory, memory-laws, Memory}
use easytask.Mysql.LogRepo.{task_log_repo}
use easytask.Mysql.Repos.{task_srv_repo}
use easytask.Callback.{Http, http_exec}
use easytask.Registry.Health.{checking, health_round}
use easytask.Registry.Health.Enabled.{is_checked, health_round-is_checked}
use easytask.Tests.Samples.{srv, start}

-- A network that answers nothing, and goroutines that finish in the order of their start.
abbrev pub silent : Http Memory
silent = record {
  post = λ p w. (err panic, w);
  intn = λ n w. (0, w);
  unmarshal = λ raw r. (r, none);
  unmarshal_pong = λ raw pong. (pong, none);
  order = λ routes w. (routes, w);
  check_log_detail = λ d. none;
}

first_round :
    (health_round (task_srv_repo memory) (http_exec silent (task_log_repo memory)) 0 start).0
    ≡ ok (checking (srv ∷ []), 1000)
unfolding health_round get_srvs
first_round = refl

health_round-is_checked_example : all is_checked (srv ∷ []) ≡ true
health_round-is_checked_example =
    health_round-is_checked memory memory-laws (http_exec silent (task_log_repo memory)) 0 1000
      start (srv ∷ []) first_round

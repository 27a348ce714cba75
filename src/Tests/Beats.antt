-- ===== src/Tests/Beats.antt =====
-- Heart beats of two routes.
use easytask.Base.{◌≡◌, refl, codes, text_eq, if◌then◌else◌, true, [], ◌∷◌, none, ok, err, panic}
use easytask.Task.{TaskCallbackSrv, TaskCallbackSrvRoute}
use easytask.Mysql.Gorm.Memory.{memory, Memory}
use easytask.Mysql.LogRepo.{task_log_repo}
use easytask.Callback.{Http, send, heart_beat_body}
use easytask.Callback.Interleaved.Misplaced.{EndsWith, run-misplaced, run-lost}
use easytask.Tests.Samples.{srv, route, start}

abbrev down : TaskCallbackSrvRoute
down = record route { host = codes "down" }

abbrev up : TaskCallbackSrvRoute
up = record route { host = codes "up" }

abbrev pair : TaskCallbackSrv
pair = record srv { routes = down ∷ up ∷ [] }

abbrev half : Http Memory
half = record {
  post = λ p w. (if text_eq p.url (codes "http://up:80") then ok [] else err panic, w);
  intn = λ n w. (0, w);
  unmarshal = λ raw r. (r, none);
  unmarshal_pong = λ raw pong. (true, none);
  order = λ routes w. (routes, w);
  check_log_detail = λ d. none;
}

down-send :
    send half (task_log_repo memory) down [] down.callback_timeout_sec (heart_beat_body 1) start
    ≡ (err panic, start)
unfolding send text_eq
down-send = refl

up-send :
    send half (task_log_repo memory) up [] up.callback_timeout_sec (heart_beat_body 1) start
    ≡ (ok [], start)
unfolding send text_eq
up-send = refl

run-misplaced_example :
    EndsWith half (task_log_repo memory) pair start (down ∷ up ∷ []) []
    × EndsWith half (task_log_repo memory) pair start [] (down ∷ up ∷ [])
run-misplaced_example =
    run-misplaced half (task_log_repo memory) pair down up start start start panic [] refl down-send
      up-send refl

-- Both routes answer.
abbrev whole : Http Memory
whole = record half { post = λ p w. (ok [], w) }

whole-send :
    (r : TaskCallbackSrvRoute)
    → send whole (task_log_repo memory) r [] r.callback_timeout_sec (heart_beat_body 1) start
      ≡ (ok [], start)
unfolding send
whole-send r = refl

run-lost_example : EndsWith whole (task_log_repo memory) pair start (up ∷ []) []
run-lost_example =
    run-lost whole (task_log_repo memory) pair down up start start start [] [] refl
      (whole-send down) (whole-send up) refl refl

-- ===== src/Callback/Interleaved/Misplaced.antt =====
-- The goroutines of a heart beat can misplace routes, and lose them.
use easytask.Base.{ℕ, ◌≡◌, refl, true, false, List, [], ◌∷◌, map, none, Text, Error, ok, err}
use easytask.Task.{TaskCallbackSrv, TaskCallbackSrvRoute}
use easytask.Task.Logs.{TaskLogRepo}
use easytask.Callback.{Http, send, heart_beat_body}
use easytask.Callback.Interleaved.{finished, run, started, beat_step}

module _ {W : Type 0} (h : Http W) (log_repo : TaskLogRepo W) where
  -- The statements of some order end all goroutines, with these lists.
  abbrev pub EndsWith :
      TaskCallbackSrv → W → List TaskCallbackSrvRoute → List TaskCallbackSrvRoute → Type 0
  EndsWith srv w replies no_replies =
      (is : List ℕ) × ((run h log_repo is (started h log_repo srv w)).goroutines
        ≡ map (λ r. (r, finished)) srv.routes)
      × ((run h log_repo is (started h log_repo srv w)).shared.lists
          ≡ record { no_reply_routes = no_replies; reply_routes = replies })

  -- Of two routes, let the first not be reached and the second answer with a Pong. Then one order of
  -- the statements ends with both among the routes that replied, and another with neither.
  pub run-misplaced :
      (srv : TaskCallbackSrv) (a b : TaskCallbackSrvRoute) (w v u : W) (e : Error) (raw : Text)
      → srv.routes ≡ a ∷ b ∷ []
      → send h log_repo a [] a.callback_timeout_sec (heart_beat_body 1) w ≡ (err e, v)
      → send h log_repo b [] b.callback_timeout_sec (heart_beat_body 1) v ≡ (ok raw, u)
      → h.unmarshal_pong raw false ≡ (true, none)
      → EndsWith srv w (a ∷ b ∷ []) [] × EndsWith srv w [] (a ∷ b ∷ [])
  unfolding run started beat_step
  run-misplaced srv a b w v u e raw routes unreached answered pong = (
    (
      0 ∷ 1 ∷ 0 ∷ 1 ∷ 0 ∷ 1 ∷ 0 ∷ 1 ∷ 0 ∷ 0 ∷ 1 ∷ 1 ∷ [],
      rw (routes, unreached, answered, pong) refl,
      rw (routes, unreached, answered, pong) refl,
    ),
    (
      0 ∷ 1 ∷ 1 ∷ 0 ∷ 0 ∷ 1 ∷ 0 ∷ 0 ∷ 1 ∷ 1 ∷ [],
      rw (routes, unreached) refl,
      rw (routes, unreached) refl,
    ),
  )

  -- Let both of two routes answer with a Pong. Then one order of the statements ends with the second
  -- alone in the list of the routes that replied, and with the first in neither list.
  pub run-lost :
      (srv : TaskCallbackSrv) (a b : TaskCallbackSrvRoute) (w v u : W) (raw raw' : Text)
      → srv.routes ≡ a ∷ b ∷ []
      → send h log_repo a [] a.callback_timeout_sec (heart_beat_body 1) w ≡ (ok raw, v)
      → send h log_repo b [] b.callback_timeout_sec (heart_beat_body 1) v ≡ (ok raw', u)
      → h.unmarshal_pong raw false ≡ (true, none)
      → h.unmarshal_pong raw' true ≡ (true, none)
      → EndsWith srv w (b ∷ []) []
  unfolding run started beat_step
  run-lost srv a b w v u raw raw' routes first second pong pong' = (
    0 ∷ 1 ∷ 0 ∷ 1 ∷ 0 ∷ 1 ∷ 0 ∷ 1 ∷ 0 ∷ 1 ∷ 0 ∷ 1 ∷ [],
    rw (routes, first, second, pong, pong') refl,
    rw (routes, first, second, pong, pong') refl,
  )

-- ===== src/Callback/Interleaved/Ended.antt =====
-- The goroutines of a heart beat can all end.
use easytask.Base.{ℕ, suc, ◌≡◌, refl, ap, ◌∙◌, List, [], ◌∷◌, ◌++◌, map, Option, none, some, Error}
use easytask.Task.{TaskCallbackSrv, TaskCallbackSrvRoute}
use easytask.Task.Logs.{TaskLogRepo}
use easytask.Callback.{Http, send, heart_beat_body}
use easytask.Callback.Interleaved.{
  BeatAt, requesting, returned, finished, Shared, run, started, step_at, beat_step, requested,
}

module _ {W : Type 0} (h : Http W) (log_repo : TaskLogRepo W) where
  -- The goroutines and what they share, as one value.
  abbrev State : Type 0
  State = List (TaskCallbackSrvRoute × BeatAt) × Shared W

  abbrev steps : List ℕ → State → State
  steps is (gs, s) =
      let b = run h log_repo is (record { goroutines = gs; shared = s }) in (b.goroutines, b.shared)

  -- The goroutine of the first route runs to its end, whatever the tests find.
  from_returned :
      (e : Option Error) (r : TaskCallbackSrvRoute) (gs : List (TaskCallbackSrvRoute × BeatAt))
      (s : Shared W)
      → (s' : Shared W) × (steps (0 ∷ 0 ∷ 0 ∷ 0 ∷ 0 ∷ []) ((r, returned e) ∷ gs, s)
          ≡ ((r, finished) ∷ gs, s'))
  unfolding run step_at beat_step
  from_returned none r gs s = (_, refl)
  from_returned (some e) r gs s = (_, refl)

  abbrev one_by_one : List ℕ
  one_by_one = 0 ∷ 0 ∷ 0 ∷ 0 ∷ 0 ∷ 0 ∷ []

  first_route :
      (r : TaskCallbackSrvRoute) (gs : List (TaskCallbackSrvRoute × BeatAt)) (s : Shared W)
      → (s' : Shared W) × (steps one_by_one ((r, requesting) ∷ gs, s) ≡ ((r, finished) ∷ gs, s'))
  unfolding run step_at beat_step
  first_route r gs s =
      let (at, s1) =
        requested h log_repo
          (send h log_repo r [] r.callback_timeout_sec (heart_beat_body 1) s.world) s in
      from_returned _ r gs s1

  -- The others go on beside a goroutine that stands still.
  steps-later :
      (is : List ℕ) (g : TaskCallbackSrvRoute × BeatAt) (gs : List (TaskCallbackSrvRoute × BeatAt))
      (s : Shared W)
      → steps (map suc is) (g ∷ gs, s) ≡ (g ∷ (steps is (gs, s)).0, (steps is (gs, s)).1)
  unfolding run step_at
  steps-later [] g gs s = refl
  steps-later (i ∷ is) g gs s =
      steps-later is g (step_at h log_repo i gs s).0 (step_at h log_repo i gs s).1

  steps-append : (is js : List ℕ) (st : State) → steps (is ++ js) st ≡ steps js (steps is st)
  unfolding run
  steps-append [] js st = refl
  steps-append (i ∷ is) js st = steps-append is js (step_at h log_repo i st.0 st.1)

  all_routes :
      (rs : List TaskCallbackSrvRoute) (s : Shared W)
      → (is : List ℕ) × (s' : Shared W) × (steps is (map (λ r. (r, requesting)) rs, s)
          ≡ (map (λ r. (r, finished)) rs, s'))
  unfolding run
  all_routes [] s = ([], s, refl)
  all_routes (r ∷ rs) s =
      let (s1, first) = first_route r (map (λ r. (r, requesting)) rs) s in
      let (is, s2, rest) = all_routes rs s1 in
      (
        one_by_one ++ map suc is,
        s2,
        steps-append one_by_one (map suc is) ((r, requesting) ∷ map (λ r. (r, requesting)) rs, s)
            ∙ ap (steps (map suc is)) first
            ∙ steps-later is (r, finished) (map (λ r. (r, requesting)) rs) s1
            ∙ ap (λ st. ((r, finished) ∷ st.0, st.1)) rest,
      )

  -- Some order of the statements ends every goroutine.
  pub run-ended :
      (srv : TaskCallbackSrv) (w : W)
      → (is : List ℕ) × ((run h log_repo is (started h log_repo srv w)).goroutines
          ≡ map (λ r. (r, finished)) srv.routes)
  unfolding started
  run-ended srv w =
      let (is, s, e) = all_routes srv.routes (started h log_repo srv w).shared in
      (is, ap (λ st. st.0) e)

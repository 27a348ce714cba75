-- ===== src/Callback/HeartBeat.antt =====
-- The two lists of a heart beat.
use easytask.Base.{◌≡◌, ◌↔◌, ◌⊎◌, refl, inl, inr, Bool, true, false, List, [], ◌∷◌, ◌++◌, ok}
use mathlib.Core.List.{Memᴰ}
use easytask.Task.{TaskCallbackSrv, TaskCallbackSrvRoute, HeartBeatResp}
use easytask.Task.Logs.{TaskLogRepo}
use easytask.Callback.{Http, heart_beat, beats, beat_of, send, sorted_in, heart_beat_body}

-- Every goroutine that is started finishes: the order names the routes that it was given.
record IsSchedule {W : Type 0} (h : Http W) : Type 0 where
  runs_all :
      (routes : List TaskCallbackSrvRoute) (w : W) (r : TaskCallbackSrvRoute)
      → Memᴰ r (h.order routes w).0 ↔ Memᴰ r routes

Memᴰ-snoc {ℓ} : {A : Type ℓ} (xs : List A) (x y : A) → Memᴰ x (xs ++ y ∷ []) ↔ (Memᴰ x xs ⊎ (x ≡ y))
Memᴰ-snoc [] x y = (
  (λ m. elim m [ Memᴰ.head e ↦ inr e | Memᴰ.tail n ↦ elim n [ ] ]),
  (λ h. elim h [ inl n ↦ elim n [ ] | inr e ↦ Memᴰ.head e ]),
)
Memᴰ-snoc (z ∷ xs) x y =
    let (to, from) = Memᴰ-snoc xs x y in
    (
      (λ m. elim m [
        | Memᴰ.head e ↦ inl (Memᴰ.head e)
        | Memᴰ.tail n ↦ elim (to n) [ inl k ↦ inl (Memᴰ.tail k) | inr e ↦ inr e ]
      ]),
      (λ h. elim h [
        | inl m ↦ elim m [ Memᴰ.head e ↦ Memᴰ.head e | Memᴰ.tail n ↦ Memᴰ.tail (from (inl n)) ]
        | inr e ↦ Memᴰ.tail (from (inr e))
      ]),
    )

-- The route is in one of the lists.
abbrev pub Placed : TaskCallbackSrvRoute → HeartBeatResp → Type 0
Placed r b = Memᴰ r b.reply_routes ⊎ Memᴰ r b.no_reply_routes

module _ {W : Type 0} (h : Http W) (log_repo : TaskLogRepo W) where
  sorted_in-Placed :
      (replied : Bool) (route r : TaskCallbackSrvRoute) (b : HeartBeatResp)
      → Placed r (sorted_in h log_repo replied route b) ↔ ((r ≡ route) ⊎ Placed r b)
  sorted_in-Placed true route r b =
      let (to, from) = Memᴰ-snoc b.reply_routes r route in
      (
        (λ p. elim p [
          | inl m ↦ elim (to m) [ inl n ↦ inr (inl n) | inr e ↦ inl e ]
          | inr m ↦ inr (inr m)
        ]),
        (λ q. elim q [
          | inl e ↦ inl (from (inr e))
          | inr p ↦ elim p [ inl m ↦ inl (from (inl m)) | inr m ↦ inr m ]
        ]),
      )
  sorted_in-Placed false route r b =
      let (to, from) = Memᴰ-snoc b.no_reply_routes r route in
      (
        (λ p. elim p [
          | inl m ↦ inr (inl m)
          | inr m ↦ elim (to m) [ inl n ↦ inr (inr n) | inr e ↦ inl e ]
        ]),
        (λ q. elim q [
          | inl e ↦ inr (from (inr e))
          | inr p ↦ elim p [ inl m ↦ inl m | inr m ↦ inr (from (inl m)) ]
        ]),
      )

  beats-Placed :
      (routes : List TaskCallbackSrvRoute) (pong : Bool) (b : HeartBeatResp) (w : W)
      → (b' : HeartBeatResp) × ((beats h log_repo routes pong b w).0 ≡ ok b')
        × ((r : TaskCallbackSrvRoute) → Placed r b' ↔ (Memᴰ r routes ⊎ Placed r b))
  unfolding beats
  beats-Placed [] pong b w =
      (b, refl, (λ r. ((λ p. inr p), (λ q. elim q [ inl m ↦ elim m [ ] | inr p ↦ p ]))))
  beats-Placed (route ∷ routes) pong b w =
      let raw = send h log_repo route [] route.callback_timeout_sec (heart_beat_body 1) w in
      let beat = beat_of h log_repo pong raw.0 in
      let (b', done, placed) =
        beats-Placed routes beat.1 (sorted_in h log_repo beat.0 route b) raw.1 in
      (
        b',
        done,
        (λ r.
            let (to, from) = placed r in
            let (to', from') = sorted_in-Placed beat.0 route r b in
            (
              (λ p. elim (to p) [
                | inl m ↦ inl (Memᴰ.tail m)
                | inr q ↦ elim (to' q) [ inl e ↦ inl (Memᴰ.head e) | inr s ↦ inr s ]
              ]),
              (λ q. elim q [
                | inl m ↦ elim m [
                  | Memᴰ.head e ↦ from (inr (from' (inl e)))
                  | Memᴰ.tail n ↦ from (inl n)
                ]
                | inr s ↦ from (inr (from' (inr s)))
              ]),
            )),
      )

  -- HeartBeat does not fail, and it puts exactly the routes of the service into its two lists, where
  -- every goroutine that is started finishes.
  heart_beat-Placed :
      (srv : TaskCallbackSrv) (w : W)
      → IsSchedule h
      → (b : HeartBeatResp) × ((heart_beat h log_repo srv w).0 ≡ ok b)
        × ((r : TaskCallbackSrvRoute) → Placed r b ↔ Memᴰ r srv.routes)
  unfolding heart_beat
  heart_beat-Placed srv w fair =
      let ran = h.order srv.routes w in
      let (b, done, placed) =
        beats-Placed ran.0 false (record { no_reply_routes = []; reply_routes = [] }) ran.1 in
      (
        b,
        done,
        (λ r.
            let (to, from) = placed r in
            let (all_of, of_all) = fair.runs_all srv.routes w r in
            (
              (λ p. elim (to p) [
                | inl m ↦ all_of m
                | inr q ↦ elim q [ inl m ↦ elim m [ ] | inr m ↦ elim m [ ] ]
              ]),
              (λ m. from (inl (of_all m))),
            )),
      )

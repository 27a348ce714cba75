-- ===== src/Router/Serving/Drained.antt =====
-- A Stop of the router that waits can come back.
use easytask.Base.{
  ◌≡◌, ◌⊎◌, refl, ap, ◌∙◌, inl, inr, Bool, true, false, List, [], ◌∷◌, length, if◌then◌else◌, All,
  Option, none, some, subst,
}
use easytask.Router.{FinalStdoutResp, serve}
use easytask.Router.Serving.{
  Phase, counted, admitted, refused, Request, waiting, returned, Serving, Event, received, tested,
  answered, wait_ended, picked, serving_started, phase_of, test_at, test_step, replied, finished,
  answer_at, answer_step, wait_step, live_step, step, run,
}
use easytask.Router.Serving.Orderly.{
  is_called, is_running, Orderly, replied-Orderly, step-Orderly, Then, run-Orderly,
}

module _ {W : Type 0} where
  abbrev pub is_new : Event W → Bool
  is_new (received methods trace_id req) = true
  is_new _ = false

  -- Without a new request, Stop comes back, or a handler has panicked and the process has exited.
  abbrev pub Drains : Serving W → Type 1
  Drains s =
      (later : List (Event W)) × (t : Serving W) × (run later s ≡ some t)
      × All (λ e. is_new e ≡ false) later
      × ((t.stop ≡ returned) ⊎ (t.has_exited ≡ true))

  record Draining (s : Serving W) (rs : List (Request W)) : Type 1 where
    orderly : Orderly s
    wait : s.stop ≡ waiting
    alive : s.has_exited ≡ false
    left : s.requests ≡ rs

  step-Drains :
      (e : Event W) (s t : Serving W) → step e s ≡ some t → is_new e ≡ false → Drains t → Drains s
  unfolding run
  step-Drains e s t h old (later, u, goes, olds, ends) =
      (e ∷ later, u, rw (run, h) goes, (old, olds), ends)

  -- A step of a process that has not exited.
  live-step :
      (e : Event W) (s t : Serving W)
      → s.has_exited ≡ false
      → live_step e s ≡ some t
      → step e s ≡ some t
  unfolding step
  live-step e s t alive h = ap (λ b. if b then none else live_step e s) alive ∙ h

  module _ (rest : List (Request W)) (ih : (t : Serving W) → Draining t rest → Drains t) where
    replied-Drains :
        (a : Option FinalStdoutResp × W) (r : Request W) (s : Serving W)
        → Draining s (r ∷ rest)
        → Drains (replied rest a s)
    unfolding run
    replied-Drains (none, v) r s d = ([], replied rest (none, v) s, refl, tt, inr refl)
    replied-Drains (some a, v) r s d = ih (replied rest (some a, v) s) (record {
      orderly =
          replied-Orderly (some a, v) rest s d.orderly (ap length d.left)
            (subst (All (λ r. is_running s.stop r ≡ false)) d.left d.orderly.quiet).1;
      wait = d.wait;
      alive = d.alive;
      left = refl;
    })

    answer-Drains :
        (b : Bool) (r : Request W) (s : Serving W)
        → Draining s (r ∷ rest)
        → answer_at r.phase r rest s ≡ some (finished b r rest s)
        → Drains s
    unfolding finished live_step picked
    answer-Drains b r s d h =
        step-Drains (answered 0) s (finished b r rest s)
          (live-step (answered 0) s (finished b r rest s) d.alive
            (ap (λ rs. answer_step (picked 0 rs) s) d.left ∙ h))
          refl (replied-Drains (serve b r.methods r.trace_id r.req s.world) r s d)

    request-Drains :
        (p : Phase) (r : Request W) (s : Serving W) → r.phase ≡ p → Draining s (r ∷ rest) → Drains s
    unfolding live_step picked
    request-Drains admitted r s e d = answer-Drains false r s d (ap (λ p. answer_at p r rest s) e)
    request-Drains refused r s e d = answer-Drains true r s d (ap (λ p. answer_at p r rest s) e)
    request-Drains counted r s e d =
        let seen : Request W = record r { phase = phase_of s.is_paused } in
        let t : Serving W = record s { requests = seen ∷ rest } in
        let h : step (tested 0) s ≡ some t =
          live-step (tested 0) s t d.alive
            (ap (λ rs. test_step (picked 0 rs) s) d.left ∙ ap (λ p. test_at p r rest s) e) in
        step-Drains (tested 0) s t h refl (
          answer-Drains true seen t
            (record {
              orderly = subst (Then Orderly) h (step-Orderly (tested 0) s d.orderly);
              wait = d.wait;
              alive = d.alive;
              left = refl;
            })
            (ap (λ b. answer_at (phase_of b) seen rest t) (d.orderly.paused ∙ ap is_called d.wait)))

  drains : (rs : List (Request W)) (s : Serving W) → Draining s rs → Drains s
  unfolding live_step run
  drains [] s d =
      let t : Serving W = record s { stop = returned } in
      step-Drains wait_ended s t
        (live-step wait_ended s t d.alive (
          ap (λ b. wait_step b s.serving_wait s) d.wait
          ∙ ap (λ n. wait_step waiting n s) (d.orderly.counts ∙ ap length d.left)))
        refl ([], t, refl, tt, inl refl)
  drains (r ∷ rs) s d = request-Drains rs (λ t u. drains rs t u) r.phase r s refl d

  -- From every state in which Stop waits, there are events, none of them a new request, after which it
  -- is back, unless a handler has panicked and the process has exited.
  pub run-Drains :
      (es : List (Event W)) (w : W) (s : Serving W)
      → run es (serving_started w) ≡ some s
      → s.stop ≡ waiting
      → s.has_exited ≡ false
      → Drains s
  run-Drains es w s h wait alive =
      drains s.requests s
        (record { orderly = run-Orderly es w s h; wait = wait; alive = alive; left = refl })

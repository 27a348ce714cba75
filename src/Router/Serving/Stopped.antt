-- ===== src/Router/Serving/Stopped.antt =====
-- What a Stop of the router that is back promises.
use easytask.Base.{
  ◌≡◌, refl, ap, true, false, ◌&&◌, List, [], ◌∷◌, ◌++◌, All, Option, none, some, subst,
}
use easytask.Errs.{err_code_server_stopped}
use easytask.Router.{FinalStdoutResp, serve, resp_err}
use easytask.Router.Serving.{
  Phase, counted, admitted, refused, Request, returned, Serving, Event, received, tested, answered,
  stop_called, wait_ended, picked, serving_started, test_at, test_step, finished, answer_at,
  answer_step, live_step, step, run,
}
use easytask.Router.Serving.Orderly.{
  is_back, is_admitted, is_running, Orderly, Then, Taken, picked-Taken, unless_exited, run-keeps,
  step-Orderly, run-Orderly,
}

module _ {W : Type 0} where
  -- Since `s`, where Stop was back already, nothing has run, and all answers were refusals.
  pub record Quiet (s t : Serving W) : Type 0 where
    pub back : t.stop ≡ returned
    pub same : t.world ≡ s.world
    pub since : List FinalStdoutResp
    pub told : t.answers ≡ since ++ s.answers
    pub refusals : All (λ a. a.code ≡ err_code_server_stopped) since

  refused-Quiet :
      (r : Request W) (rest : List (Request W)) (s t : Serving W)
      → Quiet s t
      → Quiet s (finished true r rest t)
  unfolding finished serve resp_err
  refused-Quiet r rest s t q = record {
    back = q.back;
    same = q.same;
    since = resp_err err_code_server_stopped [] r.trace_id ∷ q.since;
    told = ap (λ l. resp_err err_code_server_stopped [] r.trace_id ∷ l) q.told;
    refusals = (refl, q.refusals);
  }

  answer_at-Quiet :
      (p : Phase) (r : Request W) (rest : List (Request W)) (s t : Serving W)
      → (is_back t.stop && is_admitted p) ≡ false
      → Quiet s t
      → Then (Quiet s) (answer_at p r rest t)
  answer_at-Quiet counted r rest s t fine q = tt
  answer_at-Quiet admitted r rest s t fine q = cc (rw q.back at fine)
  answer_at-Quiet refused r rest s t fine q = refused-Quiet r rest s t q

  answer_step-Quiet :
      (x : Option (Request W × List (Request W))) (s t : Serving W)
      → Taken (λ r. is_running t.stop r ≡ false) t.requests x
      → Quiet s t
      → Then (Quiet s) (answer_step x t)
  answer_step-Quiet none s t h q = tt
  answer_step-Quiet (some (r, rest)) s t (size, fine, others) q =
      answer_at-Quiet r.phase r rest s t fine q

  test_at-Quiet :
      (p : Phase) (r : Request W) (rest : List (Request W)) (s t : Serving W)
      → Quiet s t
      → Then (Quiet s) (test_at p r rest t)
  test_at-Quiet counted r rest s t q = record {
    back = q.back;
    same = q.same;
    since = q.since;
    told = q.told;
    refusals = q.refusals;
  }
  test_at-Quiet admitted r rest s t q = tt
  test_at-Quiet refused r rest s t q = tt

  test_step-Quiet :
      (x : Option (Request W × List (Request W))) (s t : Serving W)
      → Quiet s t
      → Then (Quiet s) (test_step x t)
  test_step-Quiet none s t q = tt
  test_step-Quiet (some (r, rest)) s t q = test_at-Quiet r.phase r rest s t q

  live_step-Quiet :
      (e : Event W) (s t : Serving W) → Orderly t → Quiet s t → Then (Quiet s) (live_step e t)
  unfolding live_step
  live_step-Quiet (received methods trace_id req) s t o q = record {
    back = q.back;
    same = q.same;
    since = q.since;
    told = q.told;
    refusals = q.refusals;
  }
  live_step-Quiet (tested i) s t o q = test_step-Quiet (picked i t.requests) s t q
  live_step-Quiet (answered i) s t o q =
      answer_step-Quiet (picked i t.requests) s t (picked-Taken _ i t.requests o.quiet) q
  live_step-Quiet stop_called s t o q = rw q.back tt
  live_step-Quiet wait_ended s t o q = rw q.back tt

  Then-both :
      (P Q : Serving W → Type 0) (t : Option (Serving W))
      → Then P t
      → Then Q t
      → Then (λ s. P s × Q s) t
  Then-both P Q none p q = tt
  Then-both P Q (some t) p q = (p, q)

  -- When Stop is back, no handler is left running and none runs later: whatever happens, the world of
  -- the handlers stays as it is, and every answer from then on has the code of a stopped server.
  pub run-Quiet :
      (es later : List (Event W)) (w : W) (s t : Serving W)
      → run es (serving_started w) ≡ some s
      → s.stop ≡ returned
      → run later s ≡ some t
      → Quiet s t
  unfolding step
  run-Quiet es later w s t h back goes =
      (subst (Then (λ t. Orderly t × Quiet s t)) goes (
        run-keeps (λ t. Orderly t × Quiet s t)
          (λ e t (o, q).
            Then-both Orderly (Quiet s) (step e t) (step-Orderly e t o)
              (unless_exited (Quiet s) t.has_exited (live_step e t) (live_step-Quiet e s t o q)))
          later s
          (
            run-Orderly es w s h,
            record { back = back; same = refl; since = []; told = refl; refusals = tt },
          ))).1

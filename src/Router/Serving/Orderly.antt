-- ===== src/Router/Serving/Orderly.antt =====
-- The counter, the flag and the requests of a router, over every sequence of events.
use easytask.Base.{
  ℕ, zero, suc, ◌≡◌, refl, sym, ap, ◌∙◌, inl, inr, Bool, true, false, ◌&&◌, List, [], ◌∷◌, length,
  if◌then◌else◌, All, Option, none, some, Option-cases, arith, subst,
}
use easytask.Router.{FinalStdoutResp, serve}
use easytask.Router.Serving.{
  Phase, counted, admitted, refused, Request, StopAt, not_called, waiting, returned, Serving, Event,
  received, tested, answered, stop_called, wait_ended, picked, serving_started, phase_of, test_at,
  test_step, replied, finished, answer_at, answer_step, stop_step, wait_step, live_step, step, run,
}

&&-false : (b : Bool) → (b && false) ≡ false
&&-false true = refl
&&-false false = refl

abbrev pub is_called : StopAt → Bool
is_called not_called = false
is_called waiting = true
is_called returned = true

abbrev pub is_back : StopAt → Bool
is_back returned = true
is_back waiting = false
is_back not_called = false

abbrev pub is_admitted : Phase → Bool
is_admitted admitted = true
is_admitted counted = false
is_admitted refused = false

phase_of-is_admitted :
    (b : Bool) (stop : StopAt)
    → b ≡ is_called stop
    → (is_back stop && is_admitted (phase_of b)) ≡ false
phase_of-is_admitted true stop e = &&-false (is_back stop)
phase_of-is_admitted false not_called e = refl
phase_of-is_admitted false waiting e = cc
phase_of-is_admitted false returned e = cc

module _ {W : Type 0} where
  -- Once Stop is back, no request is in a handler.
  abbrev pub is_running : StopAt → Request W → Bool
  is_running stop r = is_back stop && is_admitted r.phase

  pub record Orderly (s : Serving W) : Type 0 where
    pub counts : s.serving_wait ≡ length s.requests
    pub paused : s.is_paused ≡ is_called s.stop
    pub quiet : All (λ r. is_running s.stop r ≡ false) s.requests

  abbrev pub Then : (Serving W → Type 0) → Option (Serving W) → Type 0
  Then P none = Unit
  Then P (some t) = P t

  -- What is known of a request that is taken out of a list, and of the others.
  abbrev pub Taken :
      (Request W → Type 0) → List (Request W) → Option (Request W × List (Request W)) → Type 0
  Taken P rs none = Unit
  Taken P rs (some (r, rest)) = (length rs ≡ suc (length rest)) × P r × All P rest

  pub picked-Taken :
      (P : Request W → Type 0) (i : ℕ) (rs : List (Request W)) → All P rs → Taken P rs (picked i rs)
  unfolding picked
  picked-Taken P i [] h = tt
  picked-Taken P zero (x ∷ xs) (first, others) = (refl, first, others)
  picked-Taken P (suc i) (x ∷ xs) (first, others) =
      let h : Taken P xs (picked i xs) = picked-Taken P i xs others in
      elim (Option-cases (picked i xs)) [
        | inl e ↦ rw e tt
        | inr ((r, rest), e) ↦
            (let (size, holds, all) = subst (Taken P xs) e h in
              rw e (ap suc size, holds, (first, all)))
      ]

  test_at-Orderly :
      (p : Phase) (r : Request W) (rest : List (Request W)) (s : Serving W)
      → Orderly s
      → length s.requests ≡ suc (length rest)
      → All (λ r. is_running s.stop r ≡ false) rest
      → Then Orderly (test_at p r rest s)
  test_at-Orderly counted r rest s o size others = record {
    counts = o.counts ∙ size;
    paused = o.paused;
    quiet = (phase_of-is_admitted s.is_paused s.stop o.paused, others);
  }
  test_at-Orderly admitted r rest s o size others = tt
  test_at-Orderly refused r rest s o size others = tt

  test_step-Orderly :
      (t : Option (Request W × List (Request W))) (s : Serving W)
      → Orderly s
      → Taken (λ r. is_running s.stop r ≡ false) s.requests t
      → Then Orderly (test_step t s)
  test_step-Orderly none s o h = tt
  test_step-Orderly (some (r, rest)) s o (size, fine, others) =
      test_at-Orderly r.phase r rest s o size others

  pub replied-Orderly :
      (a : Option FinalStdoutResp × W) (rest : List (Request W)) (s : Serving W)
      → Orderly s
      → length s.requests ≡ suc (length rest)
      → All (λ r. is_running s.stop r ≡ false) rest
      → Orderly (replied rest a s)
  replied-Orderly (none, v) rest s o size others = record {
    counts = o.counts;
    paused = o.paused;
    quiet = o.quiet;
  }
  replied-Orderly (some a, v) rest s o size others = record {
    counts = omega (arith, o.counts, size);
    paused = o.paused;
    quiet = others;
  }

  answer_at-Orderly :
      (p : Phase) (r : Request W) (rest : List (Request W)) (s : Serving W)
      → Orderly s
      → length s.requests ≡ suc (length rest)
      → All (λ r. is_running s.stop r ≡ false) rest
      → Then Orderly (answer_at p r rest s)
  unfolding finished
  answer_at-Orderly counted r rest s o size others = tt
  answer_at-Orderly admitted r rest s o size others =
      replied-Orderly (serve false r.methods r.trace_id r.req s.world) rest s o size others
  answer_at-Orderly refused r rest s o size others =
      replied-Orderly (serve true r.methods r.trace_id r.req s.world) rest s o size others

  answer_step-Orderly :
      (t : Option (Request W × List (Request W))) (s : Serving W)
      → Orderly s
      → Taken (λ r. is_running s.stop r ≡ false) s.requests t
      → Then Orderly (answer_step t s)
  answer_step-Orderly none s o h = tt
  answer_step-Orderly (some (r, rest)) s o (size, fine, others) =
      answer_at-Orderly r.phase r rest s o size others

  -- Until Stop is back nothing is asked of the requests.
  not_back :
      (stop : StopAt)
      → is_back stop ≡ false
      → (rs : List (Request W)) → All (λ r. is_running stop r ≡ false) rs
  not_back stop e [] = tt
  not_back stop e (r ∷ rs) = (rw e refl, not_back stop e rs)

  stop_step-Orderly : (b : StopAt) (s : Serving W) → Orderly s → Then Orderly (stop_step b s)
  stop_step-Orderly not_called s o = record {
    counts = o.counts;
    paused = refl;
    quiet = not_back waiting refl s.requests;
  }
  stop_step-Orderly waiting s o = tt
  stop_step-Orderly returned s o = tt

  no_requests : (rs : List (Request W)) → 0 ≡ length rs → (P : Request W → Type 0) → All P rs
  no_requests [] e P = tt
  no_requests (r ∷ rs) e P = cc

  wait_step-Orderly :
      (b : StopAt) (n : ℕ) (s : Serving W)
      → s.stop ≡ b
      → s.serving_wait ≡ n
      → Orderly s
      → Then Orderly (wait_step b n s)
  wait_step-Orderly waiting zero s e f o = record {
    counts = o.counts;
    paused = o.paused ∙ ap is_called e;
    quiet = no_requests s.requests (sym f ∙ o.counts) _;
  }
  wait_step-Orderly waiting (suc n) s e f o = tt
  wait_step-Orderly not_called n s e f o = tt
  wait_step-Orderly returned n s e f o = tt

  live_step-Orderly : (e : Event W) (s : Serving W) → Orderly s → Then Orderly (live_step e s)
  unfolding live_step
  live_step-Orderly (received methods trace_id req) s o = record {
    counts = omega (arith, o.counts);
    paused = o.paused;
    quiet = (&&-false (is_back s.stop), o.quiet);
  }
  live_step-Orderly (tested i) s o =
      test_step-Orderly (picked i s.requests) s o (picked-Taken _ i s.requests o.quiet)
  live_step-Orderly (answered i) s o =
      answer_step-Orderly (picked i s.requests) s o (picked-Taken _ i s.requests o.quiet)
  live_step-Orderly stop_called s o = stop_step-Orderly s.stop s o
  live_step-Orderly wait_ended s o = wait_step-Orderly s.stop s.serving_wait s refl refl o

  pub unless_exited :
      (P : Serving W → Type 0) (b : Bool) (t : Option (Serving W))
      → Then P t
      → Then P (if b then none else t)
  unless_exited P true t h = tt
  unless_exited P false t h = h

  pub step-Orderly : (e : Event W) (s : Serving W) → Orderly s → Then Orderly (step e s)
  unfolding step
  step-Orderly e s o = unless_exited Orderly s.has_exited (live_step e s) (live_step-Orderly e s o)

  -- What a step keeps, a run keeps.
  pub run-keeps :
      (P : Serving W → Type 0)
      → ((e : Event W) (s : Serving W) → P s → Then P (step e s))
      → (es : List (Event W)) (s : Serving W) → P s
      → Then P (run es s)
  unfolding run
  run-keeps P keeps [] s h = h
  run-keeps P keeps (e ∷ es) s h =
      let first : Then P (step e s) = keeps e s h in
      elim (Option-cases (step e s)) [
        | inl stops ↦ rw (run, stops) tt
        | inr (t, goes) ↦ rw (run, goes) (run-keeps P keeps es t (subst (Then P) goes first))
      ]

  serving_started-Orderly : (w : W) → Orderly (serving_started w)
  unfolding serving_started
  serving_started-Orderly w = record { counts = refl; paused = refl; quiet = tt }

  pub run-Orderly :
      (es : List (Event W)) (w : W) (s : Serving W)
      → run es (serving_started w) ≡ some s
      → Orderly s
  run-Orderly es w s h =
      subst (Then Orderly) h
        (run-keeps Orderly step-Orderly es (serving_started w) (serving_started-Orderly w))

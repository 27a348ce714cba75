-- ===== src/Engine/Worker/Stopping.antt =====
-- The wait group of the engine, over every run of its workers.
use easytask.Base.{
  ℕ, zero, suc, ◌+◌, ◌≡◌, refl, sym, ap, Bool, true, false, List, [], ◌∷◌, Option, ℤ, ok, arith,
  if◌then◌else◌,
}
use easytask.Outside.{Outside}
use easytask.Task.{Task}
use easytask.Task.Repo.{TaskRepo, TaskCallbackSrvExec}
use easytask.Engine.Worker.{
  End, goes_on, done, gone, worker_round, Engine, create_worker_pool, end_round, pause, all_running,
  leave,
}

-- The number of workers that still run their loop, and whether worker `i` does.
abbrev pub alive : List Bool → ℕ
alive [] = 0
alive (b ∷ bs) = if b then suc (alive bs) else alive bs

abbrev pub is_alive : ℕ → List Bool → Bool
is_alive i [] = false
is_alive zero (b ∷ bs) = b
is_alive (suc i) (b ∷ bs) = is_alive i bs

abbrev pub counted : End → ℕ
counted goes_on = 0
counted done = 0
counted gone = 1

-- The runs of an engine: it starts with its pool, is told to stop, and its workers run rounds, each in
-- some world. The number counts the workers that left without `Done`.
module _ {W : Type 0} (o : Outside) (repo : TaskRepo W) (exec : TaskCallbackSrvExec W) where
  pub data Trace : Engine → ℕ → Type 0 where
    started : (size : ℕ) → Trace (create_worker_pool size) 0
    stopping : {e : Engine} {n : ℕ} → Trace e n → Trace (pause e) n
    round :
        {e : Engine} {n : ℕ} (i : ℕ) (now : ℤ) (input : Option Task) (w : W) (end : End)
        → is_alive i e.running ≡ true
        → (worker_round o repo exec e.is_paused now input w).0 ≡ ok end
        → Trace e n
        → Trace (end_round i end e) (n + counted end)

alive-all_running : (n : ℕ) → alive (all_running n) ≡ n
alive-all_running zero = refl
alive-all_running (suc n) = ap suc (alive-all_running n)

alive-leave : (i : ℕ) (bs : List Bool) → is_alive i bs ≡ true → suc (alive (leave i bs)) ≡ alive bs
alive-leave i [] h = cc
alive-leave zero (true ∷ bs) h = refl
alive-leave zero (false ∷ bs) h = cc
alive-leave (suc i) (true ∷ bs) h = ap suc (alive-leave i bs h)
alive-leave (suc i) (false ∷ bs) h = alive-leave i bs h

create_worker_pool-waiting :
    (size : ℕ) → (create_worker_pool size).waiting ≡ alive (create_worker_pool size).running
unfolding create_worker_pool
create_worker_pool-waiting size = sym (alive-all_running _)

end_round-waiting :
    (i n : ℕ) (end : End) (e : Engine)
    → is_alive i e.running ≡ true
    → e.waiting ≡ alive e.running + n
    → (end_round i end e).waiting ≡ alive (end_round i end e).running + (n + counted end)
unfolding end_round
end_round-waiting i n goes_on e h k = omega (arith, k)
end_round-waiting i n done e h k = omega (arith, k, alive-leave i e.running h)
end_round-waiting i n gone e h k = omega (arith, k, alive-leave i e.running h)

module _ {W : Type 0} (o : Outside) (repo : TaskRepo W) (exec : TaskCallbackSrvExec W) where
  -- In every run the counter of the wait group is the number of workers that still run plus the number
  -- of those that left without Done. So once all have left, Stop returns if none of them left so, and
  -- waits for ever if one did.
  pub Trace-waiting : {e : Engine} {n : ℕ} → Trace o repo exec e n → e.waiting ≡ alive e.running + n
  unfolding pause
  Trace-waiting (started size) = omega (arith, create_worker_pool-waiting size)
  Trace-waiting (stopping tr) = Trace-waiting tr
  Trace-waiting (round {e} {n} i now input w end h r tr) =
      end_round-waiting i n end e h (Trace-waiting tr)

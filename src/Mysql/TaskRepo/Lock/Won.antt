-- ===== src/Mysql/TaskRepo/Lock/Won.antt =====
-- The update of `LockTask`: whom it reaches, and what its success says of the rows.
use easytask.Base.{
  ℕ, ◌≡◌, ◌≢◌, refl, sym, ◌∙◌, inl, inr, true, ◌==◌, List, [], ◌∷◌, map, All, any, select, arith,
  Bool-cases, ℤ, pos, ◌+ℤ◌, ◌<ℤ◌, lt-+ℤ-one, ==ℤ_iff,
}
use easytask.Task.{Task}
use easytask.Mysql.Models.{TaskModel}
use easytask.Mysql.Models.Columns.{task_model}
use easytask.Mysql.Gorm.{in_scope}
use easytask.Mysql.Gorm.Laws.{updated}
use easytask.Mysql.TaskRepo.Lock.{unchanged_since, lock_updates}
use easytask.Mysql.TaskRepo.Lock.Counter.{assign-id}
use easytask.Mysql.TaskRepo.Lock.Overtaken.{IsOvertaken, lock_updates-run_times, present-map}

-- No two rows under one primary key.
abbrev pub IsKeyed : List TaskModel → Type 0
IsKeyed [] = Unit
IsKeyed (m ∷ ms) = All (λ r. r.id ≢ m.id) ms × IsKeyed ms

pub record Reached (key : ℕ) (t : Task) (m : TaskModel) : Type 0 where
  pub live : m.deleted_at ≡ 0
  pub same_key : m.id ≡ key
  pub same_last : m.last_run_at ≡ t.last_run_at
  pub same_times : m.run_times ≡ t.run_times

module _ (key : ℕ) (t : Task) where
  pub in_scope-Reached :
      (m : TaskModel) → in_scope task_model (unchanged_since key t) m ≡ true → Reached key t m
  in_scope-Reached m h = record {
    live = ground (arith, h);
    same_key = ground (arith, h);
    same_last = (==ℤ_iff m.last_run_at t.last_run_at).0 (ground (arith, h));
    same_times = (==ℤ_iff m.run_times t.run_times).0 (ground (arith, h));
  }

  -- A row that has run more often is out of reach.
  pub none_reached :
      (rows : List TaskModel)
      → All (λ m. m.id ≡ key → t.run_times <ℤ m.run_times) rows
      → select (in_scope task_model (unchanged_since key t)) rows ≡ []
  none_reached [] h = refl
  none_reached (m ∷ rows) (p, h) =
      elim (Bool-cases (in_scope task_model (unchanged_since key t) m)) [
        | inl hit ↦
            let r = in_scope-Reached m hit in
            absurd (omega (arith, rw (r.same_times) at (p r.same_key)))
        | inr miss ↦ rw miss (none_reached rows h)
      ]

  other_keys :
      (id : ℕ) (rows : List TaskModel)
      → All (λ r. r.id ≢ id) rows
      → any (λ m. m.id == key) rows ≡ true
      → id ≢ key
  other_keys id [] h e = cc
  other_keys id (m ∷ rows) (p, h) e = ground (arith, other_keys id rows h)

  module _ (now next at : ℤ) where
    abbrev won : TaskModel → TaskModel
    won = updated task_model (unchanged_since key t) (lock_updates now next) at

    -- The row that is reached gains one run.
    won-run_times :
        (m : TaskModel)
        → in_scope task_model (unchanged_since key t) m ≡ true
        → (won m).run_times ≡ m.run_times +ℤ pos 1
    won-run_times m hit = rw hit (lock_updates-run_times now next m)

    won-id : (m : TaskModel) → (won m).id ≡ m.id
    won-id m = elim (Bool-cases (in_scope task_model (unchanged_since key t) m)) [
      | inl hit ↦ rw hit (assign-id (lock_updates now next) m)
      | inr miss ↦ rw miss
    ]

    -- Where other keys are only, nothing is said.
    others_passed :
        (id : ℕ) (rows : List TaskModel)
        → id ≡ key
        → All (λ r. r.id ≢ id) rows
        → All (λ m. m.id ≡ key → t.run_times <ℤ m.run_times) (map won rows)
    others_passed id [] e h = tt
    others_passed id (m ∷ rows) e (p, h) =
        ((λ k. absurd (p (sym (won-id m) ∙ k ∙ sym e))), others_passed id rows e h)

    -- Keys are unique and some row was reached: the row under the key is overtaken.
    pub won-IsOvertaken :
        (rows : List TaskModel)
        → IsKeyed rows
        → select (in_scope task_model (unchanged_since key t)) rows ≢ []
        → IsOvertaken key t.run_times (map won rows)
    won-IsOvertaken [] keyed some_reached = absurd (some_reached refl)
    won-IsOvertaken (m ∷ rows) (others, keyed) some_reached =
        elim (Bool-cases (in_scope task_model (unchanged_since key t) m)) [
          | inl hit ↦
              let r = in_scope-Reached m hit in
              record {
                present = rw (won-id m) (ground (arith, r.same_key));
                passed = (
                  (λ _. rw (won-run_times m hit, r.same_times) (lt-+ℤ-one t.run_times)),
                  others_passed m.id rows r.same_key others,
                );
              }
          | inr miss ↦
              let h = won-IsOvertaken rows keyed (rw miss at some_reached) in
              let there = present-map key t.run_times won rows won-id in
              record {
                present = rw (won-id m) (ground (arith, h.present));
                passed = (
                  (λ e.
                      absurd
                        (other_keys m.id rows others (sym there ∙ h.present) (sym (won-id m) ∙ e))),
                  h.passed,
                );
              }
        ]

-- ===== src/Mysql/TaskRepo/Lock/Overtaken.antt =====
-- Rows that have run more often than a given count, and the changes that keep it so.
use easytask.Base.{
  ℕ, ◌<◌, ◌≡◌, refl, sym, ◌∙◌, inl, inr, true, ◌==◌, List, [], ◌∷◌, ◌++◌, map, All, any, arith,
  Bool-cases, ℤ, pos, ◌+ℤ◌, ◌≤ℤ◌, ◌<ℤ◌,
}
use easytask.Mysql.Column.{Column, Value}
use easytask.Mysql.Models.{TaskModel}
use easytask.Mysql.Models.Columns.{set_task, task_model}
use easytask.Mysql.Gorm.{Query, in_scope}
use easytask.Mysql.Gorm.Laws.{assign, updated, soft_deleted}
use easytask.Mysql.TaskRepo.Lock.{lock_updates}
use easytask.Mysql.TaskRepo.Lock.Counter.{assign-id}

-- A change of a row that keeps its key and never lowers its counter.
pub record Grows (f : TaskModel → TaskModel) : Type 0 where
  pub keeps_id : (m : TaskModel) → (f m).id ≡ m.id
  pub grows : (m : TaskModel) → m.run_times ≤ℤ (f m).run_times

-- A row is there under the key, and each such row has run more often than `times`.
pub record IsOvertaken (key : ℕ) (times : ℤ) (rows : List TaskModel) : Type 0 where
  pub present : any (λ m. m.id == key) rows ≡ true
  pub passed : All (λ m. m.id ≡ key → times <ℤ m.run_times) rows

module _ (key : ℕ) (times : ℤ) where
  passed-map :
      (f : TaskModel → TaskModel) (rows : List TaskModel)
      → Grows f
      → All (λ m. m.id ≡ key → times <ℤ m.run_times) rows
      → All (λ m. m.id ≡ key → times <ℤ m.run_times) (map f rows)
  passed-map f [] g h = tt
  passed-map f (m ∷ rows) g (p, h) =
      ((λ e. omega (arith, p (sym (g.keeps_id m) ∙ e), g.grows m)), passed-map f rows g h)

  pub present-map :
      (f : TaskModel → TaskModel) (rows : List TaskModel)
      → ((m : TaskModel) → (f m).id ≡ m.id)
      → any (λ m. m.id == key) (map f rows) ≡ any (λ m. m.id == key) rows
  present-map f [] g = refl
  present-map f (m ∷ rows) g = rw (g m, present-map f rows g)

  pub map-IsOvertaken :
      (f : TaskModel → TaskModel) (rows : List TaskModel)
      → Grows f
      → IsOvertaken key times rows
      → IsOvertaken key times (map f rows)
  map-IsOvertaken f rows g h = record {
    present = present-map f rows g.keeps_id ∙ h.present;
    passed = passed-map f rows g h.passed;
  }

  -- A new row comes under another key.
  pub below_fresh :
      (rows : List TaskModel) (fresh : ℕ)
      → All (λ m. m.id < fresh) rows
      → any (λ m. m.id == key) rows ≡ true
      → key < fresh
  below_fresh [] fresh a h = cc
  below_fresh (m ∷ rows) fresh (p, a) h = ground (arith, below_fresh rows fresh a)

  pub append-IsOvertaken :
      (rows : List TaskModel) (m : TaskModel)
      → key < m.id
      → IsOvertaken key times rows
      → IsOvertaken key times (rows ++ m ∷ [])
  append-IsOvertaken rows m lt h = record {
    present = there rows h.present;
    passed = longer rows h.passed;
  }
    where
      there :
          (xs : List TaskModel)
          → any (λ x. x.id == key) xs ≡ true
          → any (λ x. x.id == key) (xs ++ m ∷ []) ≡ true
      there [] e = cc
      there (x ∷ xs) e = ground (arith, there xs)

      longer :
          (xs : List TaskModel)
          → All (λ x. x.id ≡ key → times <ℤ x.run_times) xs
          → All (λ x. x.id ≡ key → times <ℤ x.run_times) (xs ++ m ∷ [])
      longer [] a = ((λ e. absurd (omega arith)), tt)
      longer (x ∷ xs) (p, a) = (p, longer xs a)

-- An update of other columns, the update of `LockTask` and a soft deletion are such changes.
pub updated-Grows :
    (q : Query TaskModel) (xs : List (Column × Value)) (at : ℤ)
    → ((m : TaskModel) → m.run_times ≤ℤ (assign task_model xs m).run_times)
    → Grows (updated task_model q xs at)
updated-Grows q xs at h = record {
  keeps_id = λ m. elim (Bool-cases (in_scope task_model q m)) [
    | inl hit ↦ rw hit (assign-id xs m)
    | inr miss ↦ rw miss
  ];
  grows = λ m. elim (Bool-cases (in_scope task_model q m)) [
    | inl hit ↦ rw hit (h m)
    | inr miss ↦ rw miss (omega arith)
  ];
}

pub lock_updates-run_times :
    (now next : ℤ) (m : TaskModel)
    → (assign task_model (lock_updates now next) m).run_times ≡ m.run_times +ℤ pos 1
unfolding assign set_task
lock_updates-run_times now next m = refl

pub soft_deleted-Grows : (q : Query TaskModel) (at : ℕ) → Grows (soft_deleted task_model q at)
soft_deleted-Grows q at = record {
  keeps_id =
      λ m. elim (Bool-cases (in_scope task_model q m)) [ inl hit ↦ rw hit | inr miss ↦ rw miss ];
  grows = λ m. elim (Bool-cases (in_scope task_model q m)) [
    | inl hit ↦ rw hit (omega arith)
    | inr miss ↦ rw miss (omega arith)
  ];
}

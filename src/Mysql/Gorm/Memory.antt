-- ===== src/Mysql/Gorm/Memory.antt =====
-- A database in memory, which meets the laws: tests and witnesses run the repositories over it.
use mathlib.Core.List.{Perm, Memᴰ}
use mathlib.Core.List.Perm
use Prim.Native.Nat.{max}
use easytask.Base.{
  ℕ, suc, ◌≤◌, ◌<◌, ◌≡◌, refl, inl, inr, Bool, true, false, List, [], ◌∷◌, ◌++◌, map, all, select,
  drop, length, is_empty, All, if◌then◌else◌, Bool-cases, not, ℤ, arith, Result, ok, err,
  ok-injective, sym, ap, ◌∙◌, ◌⊎◌, Error, record_not_found, foreign, text_eq,
}
use easytask.Mysql.Ids.{sprint_uint}
use easytask.Mysql.Column.{Column, Value}
use easytask.Mysql.Models.Columns.{Model, task_model, srv_model, route_model, log_model}
use easytask.Mysql.Gorm.{Query, in_scope, Table, Tables, Gorm}
use easytask.Mysql.Gorm.Laws.{
  limited, updated, soft_deleted, is_column, Created, TableLaws, GormLaws,
}

pub record Memory : Type 0 where
  pub tables : Tables
  pub clock : ℤ

module _ {M : Type 0} (model : Model M) where
  abbrev next_key : List M → ℕ
  next_key [] = 1
  next_key (r ∷ rs) = max (suc (model.base r).id) (next_key rs)

  next_key-fresh :
      (rows : List M) (k : ℕ) → next_key rows ≤ k → All (λ r. (model.base r).id < k) rows
  next_key-fresh [] k h = tt
  next_key-fresh (r ∷ rs) k h = (omega arith, next_key-fresh rs k (omega arith))

  abbrev stamped : List M → ℤ → M → M
  stamped rows at m =
      model.with_base m
        (record { id = next_key rows; created_at = at; updated_at = at; deleted_at = 0 })

  stamped-Created : (rows : List M) (at : ℤ) (m : M) → Created model rows m (stamped rows at m)
  stamped-Created rows at m = record {
    key = next_key rows;
    at = at;
    fresh = next_key-fresh rows (next_key rows) (omega arith);
    stored = refl;
  }

  updated_none :
      (q : Query M) (xs : List (Column × Value)) (at : ℤ) (rows : List M)
      → length (select (in_scope model q) rows) ≡ 0
      → map (updated model q xs at) rows ≡ rows
  updated_none q xs at [] h = refl
  updated_none q xs at (r ∷ rs) h = elim (Bool-cases (in_scope model q r)) [
    | inl hit ↦ absurd (omega (arith, rw hit at h))
    | inr miss ↦ rw (miss, updated_none q xs at rs (rw miss at h))
  ]

module _ {M : Type 0} (model : Model M) (get : Tables → List M)
    (put : List M → Tables → Tables) where
  abbrev with_rows : List M → Memory → Memory
  with_rows rows m = record m { tables = put rows m.tables }

  abbrev hits : Query M → Memory → List M
  hits q m = select (in_scope model q) (get m.tables)

  abbrev first_row : List M → Result M
  first_row [] = err record_not_found
  first_row (r ∷ _) = ok r

  abbrev found_or_made : List M → M → Memory → Result (M × ℕ) × Memory
  found_or_made (r ∷ _) x m = (ok (r, 0), m)
  found_or_made [] x m =
      let row = stamped model (get m.tables) m.clock x in
      (ok (row, 1), with_rows (get m.tables ++ row ∷ []) m)

  abbrev pub memory_table : Table Memory M
  memory_table = record {
    find = λ q win m. (ok (limited win.limit (drop win.offset (hits q m))), m);
    take = λ q m. (first_row (hits q m), m);
    first_or_create = λ q x m. found_or_made (hits q m) x m;
    create =
        λ x m. (ok tt, with_rows (get m.tables ++ stamped model (get m.tables) m.clock x ∷ []) m);
    updates = λ q xs m.
        if all (is_column model) xs
        then (ok (length (hits q m)), with_rows (map (updated model q xs m.clock) (get m.tables)) m)
        else (err (foreign 1054), m);
    delete = λ q m. if is_empty q.conds then (err (foreign 0), m) else (
      ok (length (hits q m)),
      with_rows
          (if q.unscoped
            then select (λ r. not (in_scope model q r)) (get m.tables)
            else map (soft_deleted model q 1) (get m.tables))
          m,
    );
    count = λ q es m. (ok (map (λ e. length (select e (hits q m))) es), m);
  }

  abbrev pub view : Memory → Tables
  view m = m.tables

  abbrev pub Laws : Type 0
  Laws = TableLaws model memory_table view (λ m. get m.tables) (λ rows m. put rows m.tables)

  by_key : (b : Bool) (rows : List M) → (if b then rows ≡ rows else Perm rows rows)
  by_key true rows = refl
  by_key false rows = Perm.refl rows

  first_row-mem : (rows : List M) (r : M) → first_row rows ≡ ok r → Memᴰ r rows
  first_row-mem [] r e = cc
  first_row-mem (x ∷ xs) r e = Memᴰ.head (sym (ok-injective e))

  first_row-nil : (rows : List M) → first_row rows ≡ err record_not_found → rows ≡ []
  first_row-nil [] e = refl
  first_row-nil (x ∷ xs) e = cc

  found_or_made-ok :
      (rows : List M) (x : M) (m : Memory) (row : M) (n : ℕ)
      → (found_or_made rows x m).0 ≡ ok (row, n)
      → ((n ≡ 0)
          × (view (found_or_made rows x m).1 ≡ view m)
          × (rest : List M) × (rows ≡ row ∷ rest))
        ⊎ ((n ≡ 1)
            × (rows ≡ [])
            × Created model (get m.tables) x row
            × (view (found_or_made rows x m).1 ≡ put (get m.tables ++ row ∷ []) m.tables))
  found_or_made-ok (r ∷ rs) x m row n e =
      let p = ok-injective e in
      inl (sym (ap (λ t. t.1) p), refl, rs, ap (λ (t : M × ℕ). t.0 ∷ rs) p)
  found_or_made-ok [] x m row n e =
      let p = ok-injective e in
      let same : stamped model (get m.tables) m.clock x ≡ row = ap (λ t. t.0) p in
      inr (
        sym (ap (λ t. t.1) p),
        refl,
        rw (← same) (stamped-Created model (get m.tables) m.clock x),
        rw (← same),
      )

  found_or_made-err :
      (rows : List M) (x : M) (m : Memory) (e : Error)
      → (found_or_made rows x m).0 ≡ err e
      → view (found_or_made rows x m).1 ≡ view m
  found_or_made-err (r ∷ rs) x m e h = refl
  found_or_made-err [] x m e h = cc

  pub memory_table-laws : Laws
  memory_table-laws = record {
    find_view = λ q win w. refl;
    find_ok = λ q win w ms e. (hits q w, by_key win.by_id (hits q w), sym (ok-injective e));
    take_view = λ q w. refl;
    take_ok = λ q w m e. first_row-mem (hits q w) m e;
    take_not_found = λ q w e. first_row-nil (hits q w) e;
    updates_ok = λ q xs w n e. elim (Bool-cases (all (is_column model) xs)) [
      | inl good ↦
          let same : length (hits q w) ≡ n = ok-injective (rw good at e) in
          (
            w.clock,
            rw good,
            omega (arith, same),
            (λ z. updated_none model q xs w.clock (get w.tables) (same ∙ z)),
            good,
          )
      | inr bad ↦ cc (rw bad at e)
    ];
    updates_err = λ q xs w n e. elim (Bool-cases (all (is_column model) xs)) [
      | inl good ↦ cc (rw good at e)
      | inr bad ↦ rw bad
    ];
    delete_ok = λ q w n e. elim (Bool-cases (is_empty q.conds)) [
      | inl none_given ↦ cc (rw none_given at e)
      | inr given ↦ (1, omega arith, rw given)
    ];
    delete_err = λ q w n e. elim (Bool-cases (is_empty q.conds)) [
      | inl none_given ↦ rw none_given
      | inr given ↦ cc (rw given at e)
    ];
    create_ok = λ m w e. (
      stamped model (get w.tables) w.clock m,
      stamped-Created model (get w.tables) w.clock m,
      refl,
    );
    create_err = λ m w x e. cc;
    first_or_create_ok = λ q m w row n e. found_or_made-ok (hits q w) m w row n e;
    first_or_create_err = λ q m w x e. found_or_made-err (hits q w) m w x e;
    count_view = λ q es w. refl;
    count_ok = λ q es w ns e. sym (ok-injective e);
  }

-- The four tables over one memory.
abbrev pub memory : Gorm
memory = record {
  World = Memory;
  now = λ m. (m.clock, m);
  tasks = memory_table task_model (λ t. t.tasks) (λ rows t. record t { tasks = rows });
  logs = memory_table log_model (λ t. t.logs) (λ rows t. record t { logs = rows });
  srvs = memory_table srv_model (λ t. t.srvs) (λ rows t. record t { srvs = rows });
  routes = memory_table route_model (λ t. t.routes) (λ rows t. record t { routes = rows });
  delete_task_log_repo = λ conds m. (err (foreign 1146), m);
  uint_eq_text = λ n s. text_eq (sprint_uint n) s;
}

abbrev pub memory-laws : GormLaws memory
memory-laws = record {
  view = λ m. m.tables;
  now_view = λ m. refl;
  task_laws = memory_table-laws task_model (λ t. t.tasks) (λ rows t. record t { tasks = rows });
  log_laws = memory_table-laws log_model (λ t. t.logs) (λ rows t. record t { logs = rows });
  srv_laws = memory_table-laws srv_model (λ t. t.srvs) (λ rows t. record t { srvs = rows });
  route_laws = memory_table-laws route_model (λ t. t.routes) (λ rows t. record t { routes = rows });
  delete_task_log_repo_view = λ conds m. refl;
}

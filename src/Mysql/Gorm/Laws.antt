-- ===== src/Mysql/Gorm/Laws.antt =====
-- What the repositories rely on of gorm and MySQL: documented behaviour of one statement at a time,
-- stated through the rows that a world holds.
use easytask.Base.{
  ℕ, ◌≤◌, ◌<◌, ◌≡◌, ◌⊎◌, Bool, true, List, [], ◌∷◌, ◌++◌, map, Option, none, some, all, select,
  take, drop, length, All, if◌then◌else◌, not, ℤ, ok, err, Error, record_not_found,
}
use mathlib.Core.List.{Perm, Memᴰ}
use easytask.Mysql.Column.{Column, Value}
use easytask.Mysql.Models.Columns.{Model, task_model, srv_model, route_model, log_model}
use easytask.Mysql.Gorm.{Query, in_scope, Window, Table, Tables, Gorm, Cond}

abbrev pub limited {ℓ} : {A : Type ℓ} → Option ℕ → List A → List A
limited none xs = xs
limited (some n) xs = take n xs

-- What a `Find` may answer: the reached rows in key order, or in any order.
abbrev pub Found {ℓ} : {A : Type ℓ} → Window → List A → List A → Type ℓ
Found win rows ms =
    (listed : _) × (if win.by_id then listed ≡ rows else Perm listed rows)
    × (ms ≡ limited win.limit (drop win.offset listed))

module _ {M : Type 0} (model : Model M) where
  -- The assignments of an update, in order.
  unfoldable pub assign : List (Column × Value) → M → M
  assign [] r = r
  assign ((c, v) ∷ xs) r = assign xs (model.set_column c v r)

  -- A row after an `Updates` at time `t`.
  abbrev pub updated : Query M → List (Column × Value) → ℤ → M → M
  updated q xs t r =
      if in_scope model q r
      then model.with_base (assign xs r) (record (model.base (assign xs r)) { updated_at = t })
      else r

  -- A row after a soft `Delete` at time `t`.
  abbrev pub soft_deleted : Query M → ℕ → M → M
  soft_deleted q t r =
      if in_scope model q r then model.with_base r (record (model.base r) { deleted_at = t }) else r

  abbrev pub is_column : Column × Value → Bool
  is_column (c, _) = model.has_column c

  -- A new row: the given fields under a key above all others.
  pub record Created (rows : List M) (given row : M) : Type 0 where
    pub key : ℕ
    pub at : ℤ
    pub fresh : All (λ r. (model.base r).id < key) rows
    pub stored :
        row
        ≡ model.with_base given
            (record { id = key; created_at = at; updated_at = at; deleted_at = 0 })

-- `here` and `become` are the table's part of the view, and the view with another content there.
module _ {W M : Type 0} (model : Model M) (t : Table W M) (view : W → Tables) (here : W → List M)
    (become : List M → W → Tables) where
  abbrev reached : Query M → W → List M
  reached q w = select (in_scope model q) (here w)

  pub record TableLaws : Type 0 where
    pub find_view : (q : Query M) (win : Window) (w : W) → view (t.find q win w).1 ≡ view w
    pub find_ok :
        (q : Query M) (win : Window) (w : W) (ms : List M)
        → (t.find q win w).0 ≡ ok ms
        → Found win (reached q w) ms
    pub take_view : (q : Query M) (w : W) → view (t.take q w).1 ≡ view w
    pub take_ok : (q : Query M) (w : W) (m : M) → (t.take q w).0 ≡ ok m → Memᴰ m (reached q w)
    pub take_not_found :
        (q : Query M) (w : W) → (t.take q w).0 ≡ err record_not_found → reached q w ≡ []
    pub updates_ok :
        (q : Query M) (xs : List (Column × Value)) (w : W) (n : ℕ)
        → (t.updates q xs w).0 ≡ ok n
        → (at : ℤ) × (view (t.updates q xs w).1 ≡ become (map (updated model q xs at) (here w)) w)
          × (n ≤ length (reached q w))
          × (n ≡ 0 → map (updated model q xs at) (here w) ≡ here w)
          × (all (is_column model) xs ≡ true)
    pub updates_err :
        (q : Query M) (xs : List (Column × Value)) (w : W) (e : Error)
        → (t.updates q xs w).0 ≡ err e
        → view (t.updates q xs w).1 ≡ view w
    pub delete_ok :
        (q : Query M) (w : W) (n : ℕ)
        → (t.delete q w).0 ≡ ok n
        → (at : ℕ) × (0 < at)
          × (view (t.delete q w).1
              ≡ become
                  (if q.unscoped
                    then select (λ r. not (in_scope model q r)) (here w)
                    else map (soft_deleted model q at) (here w))
                  w)
    pub delete_err :
        (q : Query M) (w : W) (e : Error)
        → (t.delete q w).0 ≡ err e
        → view (t.delete q w).1 ≡ view w
    pub create_ok :
        (m : M) (w : W)
        → (t.create m w).0 ≡ ok tt
        → (row : M) × Created model (here w) m row
          × (view (t.create m w).1 ≡ become (here w ++ row ∷ []) w)
    pub create_err :
        (m : M) (w : W) (e : Error) → (t.create m w).0 ≡ err e → view (t.create m w).1 ≡ view w
    pub first_or_create_ok :
        (q : Query M) (m : M) (w : W) (row : M) (n : ℕ)
        → (t.first_or_create q m w).0 ≡ ok (row, n)
        → ((n ≡ 0)
            × (view (t.first_or_create q m w).1 ≡ view w)
            × (rest : List M) × (reached q w ≡ row ∷ rest))
          ⊎ ((n ≡ 1)
              × (reached q w ≡ [])
              × Created model (here w) m row
              × (view (t.first_or_create q m w).1 ≡ become (here w ++ row ∷ []) w))
    pub first_or_create_err :
        (q : Query M) (m : M) (w : W) (e : Error)
        → (t.first_or_create q m w).0 ≡ err e
        → view (t.first_or_create q m w).1 ≡ view w
    pub count_view : (q : Query M) (es : List (M → Bool)) (w : W) → view (t.count q es w).1 ≡ view w
    pub count_ok :
        (q : Query M) (es : List (M → Bool)) (w : W) (ns : List ℕ)
        → (t.count q es w).0 ≡ ok ns
        → ns ≡ map (λ e. length (select e (reached q w))) es

-- The laws of the four tables and of the clock, through one view of the database.
pub record GormLaws (g : Gorm) : Type 0 where
  pub view : g.World → Tables
  pub now_view : (w : g.World) → view (g.now w).1 ≡ view w
  pub task_laws :
      TableLaws task_model g.tasks view
        (λ w. (view w).tasks)
        (λ ms w. record (view w) { tasks = ms })
  pub log_laws :
      TableLaws log_model g.logs view (λ w. (view w).logs) (λ ms w. record (view w) { logs = ms })
  pub srv_laws :
      TableLaws srv_model g.srvs view (λ w. (view w).srvs) (λ ms w. record (view w) { srvs = ms })
  pub route_laws :
      TableLaws route_model g.routes view
        (λ w. (view w).routes)
        (λ ms w. record (view w) { routes = ms })
  pub delete_task_log_repo_view :
      (conds : List Cond) (w : g.World) → view (g.delete_task_log_repo conds w).1 ≡ view w

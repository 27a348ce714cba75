-- ===== src/Mysql/Gorm.antt =====
-- The database as the repositories use it, a parameter of the model: gorm, the MySQL server behind
-- it, and the clock. A query is the chain of `Where` calls, with the conditions as tests on a row.
pub mod Laws
pub mod Memory
use easytask.Base.{ℕ, Bool, List, [], ◌∷◌, Option, none, some, ◌||◌, ◌&&◌, ◌==◌, all, ℤ, Text, Io}
use easytask.Mysql.Column.{Column, Value}
use easytask.Mysql.Models.{TaskModel, TaskCallbackSrvModel, TaskCallbackSrvRouteModel, TaskLogModel}
use easytask.Mysql.Models.Columns.{Model}

pub record Query (M : Type 0) : Type 0 where
  -- without `Unscoped`, soft-deleted rows are out of reach
  pub unscoped : Bool
  pub conds : List (M → Bool)

abbrev pub where_ : {M : Type 0} → List (M → Bool) → Query M
where_ conds = record { unscoped = Bool.false; conds = conds }

abbrev pub unscoped_where : {M : Type 0} → List (M → Bool) → Query M
unscoped_where conds = record { unscoped = Bool.true; conds = conds }

-- The rows that a query reaches.
abbrev pub in_scope : {M : Type 0} → Model M → Query M → M → Bool
in_scope model q r = (q.unscoped || (model.base r).deleted_at == 0) && all (λ c. c r) q.conds

-- Limit, Offset, and whether the chain orders by the primary key.
pub record Window : Type 0 where
  pub limit : Option ℕ
  pub offset : ℕ
  pub by_id : Bool

pub record Table (W M : Type 0) : Type 0 where
  pub find : Query M → Window → Io W (List M)
  pub take : Query M → Io W M
  -- the row found or created, and RowsAffected
  pub first_or_create : Query M → M → Io W (M × ℕ)
  pub create : M → Io W (Unit {0})
  -- RowsAffected
  pub updates : Query M → List (Column × Value) → Io W ℕ
  pub delete : Query M → Io W ℕ
  -- for each expression, the number of rows in which it is not NULL
  pub count : Query M → List (M → Bool) → Io W (List ℕ)

-- A condition as SQL text: a column above a value, a column at most another.
pub data Cond : Type 0 where
  above : Column → ℤ → Cond
  at_most : Column → Column → Cond

pub record Gorm : Type 1 where
  pub World : Type 0
  -- time.Now().Unix()
  pub now : World → ℤ × World
  pub tasks : Table World TaskModel
  pub logs : Table World TaskLogModel
  pub srvs : Table World TaskCallbackSrvModel
  pub routes : Table World TaskCallbackSrvRouteModel
  -- Unscoped().Delete(&TaskLogRepo{}), whose struct is no model
  pub delete_task_log_repo : List Cond → Io World ℕ
  -- SQL's comparison of a bigint column with a text
  pub uint_eq_text : ℕ → Text → Bool

-- The tables as data.
pub record Tables : Type 0 where
  pub tasks : List TaskModel
  pub logs : List TaskLogModel
  pub srvs : List TaskCallbackSrvModel
  pub routes : List TaskCallbackSrvRouteModel

-- ===== src/Outside.antt =====
-- What internal/task takes from libraries that are not in the repository, as a parameter: cron
-- expressions, struct validation, and the JSON form of an error.
use easytask.Base.{◌≡◌, ◌≢◌, ◌↔◌, Option, none, [], ℤ, Text, Error, Result}
use easytask.Task.{NewTaskReq, mode_nil}

pub record Outside : Type 0 where
  -- cronexpr.Parse, then Next of the clock read and Unix
  pub cron_next : Text → ℤ → Result ℤ
  -- validator.New().Struct
  pub check_new_task_req : NewTaskReq → Option Error
  -- json.Marshal of InternalErrTaskRespDetail
  pub marshal_internal_err : Error → ℤ → Result Text

-- The validator accepts a struct exactly when the fields tagged `required` are not zero.
pub record IsValidator (o : Outside) : Type 0 where
  pub accepts :
      (req : NewTaskReq)
      → (o.check_new_task_req req ≡ none)
        ↔ ((req.callback_srv ≢ none) × (req.name ≢ []) × (req.sched_mode ≢ mode_nil))

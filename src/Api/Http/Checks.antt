-- ===== src/Api/Http/Checks.antt =====
-- The parameters that a schedule mode needs.
use easytask.Base.{◌≡◌, ◌≢◌, [], ℤ, pos, ok, trim_space, arith}
use easytask.Task.{SchedMode, mode_nil, time_cron, time_spec, time_interval}
use easytask.Api.Http.{
  AddTaskHttpReq, checked_mode, sched_mode_time_cron, sched_mode_time_spec,
  sched_mode_time_interval,
}

-- What a mode needs of the request.
abbrev pub HasParameter : SchedMode → AddTaskHttpReq → Type 0
HasParameter time_cron r = trim_space r.time_cron ≢ []
HasParameter time_spec r = r.time_spec_at ≢ pos 0
HasParameter time_interval r = r.time_interval_sec ≢ pos 0
HasParameter mode_nil r = Unit

-- The number of a mode in the API.
abbrev pub IsNumber : SchedMode → ℤ → Type 0
IsNumber time_cron n = n ≡ sched_mode_time_cron
IsNumber time_spec n = n ≡ sched_mode_time_spec
IsNumber time_interval n = n ≡ sched_mode_time_interval
IsNumber mode_nil n =
    (n ≢ sched_mode_time_cron) × (n ≢ sched_mode_time_spec) × (n ≢ sched_mode_time_interval)

-- A request passes the check with the mode that its number names, the zero mode for an unknown number,
-- and only with the parameter that the mode needs.
pub checked_mode-HasParameter :
    (r : AddTaskHttpReq) (mode : SchedMode)
    → checked_mode r ≡ ok mode
    → IsNumber mode r.sched_mode × HasParameter mode r
unfolding checked_mode
checked_mode-HasParameter r time_cron e = ground arith
checked_mode-HasParameter r time_spec e = ground arith
checked_mode-HasParameter r time_interval e = ground arith
checked_mode-HasParameter r mode_nil e = ground arith

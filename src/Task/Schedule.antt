-- ===== src/Task/Schedule.antt =====
-- `GetSchedNextAt` of internal/task/task.go: when a task runs next.
use easytask.Base.{
  ◌≡◌, ℤ, pos, ◌+ℤ◌, ◌<ℤ◌, wrap64, wrap64_of_IsInt64, +ℤ_parts, IsInt64, Text, codes, arith, new,
  Result, ok, err,
}
use easytask.Task.{Task, SchedMode, mode_nil, time_cron, time_spec, time_interval}

-- `cron` parses an expression and gives the first time after a given one; `now` is the clock read.
sched_next_at : (Text → ℤ → Result ℤ) → SchedMode → Task → ℤ → Result ℤ
sched_next_at cron time_interval t now = ok (wrap64 (now +ℤ t.time_interval_sec))
sched_next_at cron time_cron t now = cron t.time_cron_expr now
sched_next_at cron time_spec t now = ok t.time_spec_at
sched_next_at cron mode_nil t now = err (new (codes "unknown schedule at"))

unfoldable pub get_sched_next_at : (Text → ℤ → Result ℤ) → Task → ℤ → Result ℤ
unfolding sched_next_at
get_sched_next_at cron t now = sched_next_at cron t.sched_mode t now

-- A positive interval that does not overflow gives a time later than now.
get_sched_next_at-interval_later :
    (cron : Text → ℤ → Result ℤ) (t : Task) (now next : ℤ)
    → t.sched_mode ≡ time_interval
    → pos 0 <ℤ t.time_interval_sec
    → IsInt64 (now +ℤ t.time_interval_sec)
    → get_sched_next_at cron t now ≡ ok next
    → now <ℤ next
unfolding get_sched_next_at
get_sched_next_at-interval_later cron t now next mode p fits e =
    ground
      (arith, wrap64_of_IsInt64 (now +ℤ t.time_interval_sec) fits, +ℤ_parts now t.time_interval_sec)

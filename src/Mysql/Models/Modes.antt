-- ===== src/Mysql/Models/Modes.antt =====
-- The schedule modes of the table and of the entities.
use easytask.Base.{◌≡◌, ◌↔◌, ℤ, ok, arith}
use easytask.Task.{SchedMode, mode_nil, time_cron, time_spec, time_interval}
use easytask.Mysql.Models.{to_task_model_sched_mode, to_task_entity_sched_mode}

-- The two conversions of schedule modes are inverse to one another: each succeeds with a value exactly
-- where the other leads back.
to_task_model_sched_mode-to_task_entity_sched_mode :
    (mode : SchedMode) (n : ℤ)
    → (to_task_model_sched_mode mode ≡ ok n) ↔ (to_task_entity_sched_mode n ≡ ok mode)
unfolding to_task_model_sched_mode to_task_entity_sched_mode
to_task_model_sched_mode-to_task_entity_sched_mode time_cron n = ground arith
to_task_model_sched_mode-to_task_entity_sched_mode time_spec n = ground arith
to_task_model_sched_mode-to_task_entity_sched_mode time_interval n = ground arith
to_task_model_sched_mode-to_task_entity_sched_mode mode_nil n = ground arith

-- ===== src/Engine.antt =====
-- internal/task/sched.go and internal/task/worker.go: the scheduler that hands due tasks to the
-- workers, and the workers.
pub mod Sched
pub mod Worker

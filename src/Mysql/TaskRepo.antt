-- ===== src/Mysql/TaskRepo.antt =====
-- internal/task/impl/repo/mysql/task_repo.go: the repository of tasks, an operation to a module.
pub mod Rows
pub mod Timeout
pub mod Lock
pub mod Confirm
pub mod Add
pub mod ById

-- ===== src/Mysql/SrvRepo.antt =====
-- internal/task/impl/repo/mysql/task_srv_repo.go: callback services and their routes.
pub mod Routes
pub mod Query

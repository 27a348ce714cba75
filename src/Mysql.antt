-- ===== src/Mysql.antt =====
-- internal/task/impl/repo/mysql: the repositories over the database.
pub mod Ids
pub mod Column
pub mod Models
pub mod Conn
pub mod Gorm
pub mod LogRepo
pub mod TaskRepo
pub mod SrvRepo
pub mod Repos

-- ===== src/Api.antt =====
-- internal/apihandler: the API's handlers and the services behind them.
pub mod Service
pub mod Http
pub mod Routes

-- ===== src/Tests.antt =====
-- The statements of the development at concrete inputs.
pub mod Samples
pub mod Locks
pub mod Pages
pub mod Rows
pub mod Found
pub mod Stops
pub mod Services
pub mod Work
pub mod Values
pub mod Booting
pub mod Calls
pub mod Clearing
pub mod Broken
pub mod Requests
pub mod Health
pub mod Beats
pub mod Routing
pub mod Serving
pub mod Shutdowns

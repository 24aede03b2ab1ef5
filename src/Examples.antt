-- ===== src/Examples.antt =====
-- Runs of the model at concrete inputs.
pub mod World
pub mod Judging
pub mod Sharing
pub mod Pool
pub mod Settings
pub mod Startup
pub mod FirstRun
pub mod Exits
pub mod Threads
pub mod Records
pub mod Running
pub mod Choosing
pub mod Dispatching

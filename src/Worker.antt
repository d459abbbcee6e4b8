-- ===== src/Worker.antt =====
-- src/worker.rs: the isolated writer, over any platform.
pub mod Types
pub mod Trace
pub mod Signals
pub mod Job
pub mod Accepted
pub mod Stage
pub mod Run
pub mod Monitor
mod Calls
pub mod Staging
pub mod Writing
pub mod Outcome
mod Settle
pub mod Safety
pub mod Session
mod Tests

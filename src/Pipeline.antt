-- ===== src/Pipeline.antt =====
-- src/pipeline.rs.
pub mod Types
pub mod Job
pub mod Run
pub mod Control
pub mod Progress
pub mod Quoting
mod Memory
mod Tests

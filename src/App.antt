-- ===== src/App.antt =====
-- src/app.rs, without the drawing.
pub mod Types
pub mod Request
pub mod Step
pub mod Invariant
pub mod Reachable
mod Tests

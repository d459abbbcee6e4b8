-- ===== src/Platform.antt =====
-- The platform workers: src/worker/linux.rs and src/worker/windows.rs.
pub mod Verifier
pub mod Linux
mod Tests

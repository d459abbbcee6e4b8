-- ===== src/Platform/Verifier.antt =====
-- `DirectVerifier` of src/worker/linux.rs and `UnbufferedVerifier` of src/worker/windows.rs.
pub mod Transfer
pub mod Read
pub mod Bounds
pub mod Reading
pub mod Seeking

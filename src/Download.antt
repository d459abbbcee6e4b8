-- ===== src/Download.antt =====
-- src/download.rs: a download into a partial file, and its publication.
pub mod Types
pub mod Request
pub mod Fetch
pub mod Calls
pub mod Published
pub mod Filling
pub mod Outcome
pub mod Tests

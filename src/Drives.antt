-- ===== src/Drives.antt =====
-- src/drives.rs and the identity checks of src/worker.rs: which drives are offered, and how a drive
-- is named so that the worker can tell it from another one.
pub mod MacOs
pub mod Linux
pub mod Windows
pub mod Tests

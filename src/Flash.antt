-- ===== src/Flash.antt =====
-- src/flash.rs: unpacking, writing and reading back a raw image.
pub mod Types
pub mod Write
pub mod Contract
pub mod Prepare
pub mod Prepared
mod WriteLoop
mod ReadBack
pub mod Report
pub mod Tests

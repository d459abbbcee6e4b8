-- ===== src/Platform/Linux.antt =====
-- The target checks of src/worker/linux.rs. One check of the target sees one state of the kernel's
-- files, which is the record `Kernel`.
pub mod Types
pub mod Names
pub mod Mountinfo
pub mod Related
pub mod Target
pub mod Safe
pub mod Validated
pub mod RoundTrip
mod Tests

-- ===== src/Catalog.antt =====
-- src/catalog.rs: the validation of release manifests and catalogs, and what a client fetches.
pub mod Percent
pub mod Types
pub mod Validate
pub mod Fetch
pub mod Accepted
pub mod Fetched
pub mod Tests

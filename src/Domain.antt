-- ===== src/Domain.antt =====
-- src/domain: the rules that need neither the database nor the disk, a module for each file.
pub mod Actor
pub mod Catalog
pub mod Validation
pub mod CanonicalJson
pub mod Manifest
pub mod Delta
pub mod Semver

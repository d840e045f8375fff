-- ===== src/Tests.antt =====
-- The theorems at concrete inputs.
pub mod Examples
pub mod Owners
pub mod Domain
pub mod Auth
pub mod Upload
pub mod Download
pub mod Retention
pub mod Administration
pub mod Common
pub mod Catalog

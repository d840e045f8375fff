-- ===== src/Storage.antt =====
-- src/storage: the files that the backend keeps.
pub mod BlobStore
pub mod DownloadUrlSigner

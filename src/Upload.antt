-- ===== src/Upload.antt =====
-- src/services/UploadService.cpp: how the files of a build reach the server.
pub mod Transfer
pub mod Chunks
pub mod Sound
pub mod Steps
pub mod Reach
pub mod Publishing
pub mod Sizes
pub mod Complete
pub mod Stored
pub mod Received
pub mod Finalized
pub mod Served
use custom_game_launcher_bac.Base.{ℕ, List, ℤ, Bytes}
use custom_game_launcher_bac.Database.{Db}
use custom_game_launcher_bac.Storage.BlobStore.{Disk, FileCalls}

pub record UploadSettings : Type 0 where
  pub max_blob_bytes : ℤ
  pub max_chunk_bytes : ℤ
  pub session_ttl : ℕ
  pub max_open_sessions_per_user : ℕ
  pub max_negotiation_batch : ℕ

pub record BlobDeclaration : Type 0 where
  pub sha256 : Bytes
  pub size_bytes : ℤ

-- What the service holds for its lifetime: its settings and the digest of OpenSSL.
pub record UploadEnv : Type 0 where
  pub settings : UploadSettings
  pub sha256_hex : Bytes → Bytes

-- What a request meets: the time, the id drawn for a new row, and the outcomes of the file system.
pub record Moment : Type 0 where
  pub now : ℕ
  pub row_id : Bytes
  pub calls : FileCalls

-- The database and the files.
pub record World : Type 0 where
  pub db : Db
  pub disk : Disk

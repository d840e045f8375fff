-- ===== src/Download.antt =====
-- src/services/DownloadService.cpp: what a client needs to reach a build, and whether it is there.
pub mod Plan
pub mod Verify
pub mod Signed
pub mod Applied
pub mod Repaired
use custom_game_launcher_bac.Base.{ℕ, Bool, List, ℤ, Bytes}
use custom_game_launcher_bac.Domain.Manifest.{ManifestEntry}
use custom_game_launcher_bac.Domain.Delta.{DownloadKind}
use custom_game_launcher_bac.Storage.DownloadUrlSigner.{SignedUrlSettings}

-- The comparison of a download with the size of its build, on floating-point numbers with the ratio
-- of DownloadSettings, is a parameter.
pub record DownloadEnv : Type 0 where
  pub exceeds_threshold : ℤ → ℤ → Bool
  pub signing : SignedUrlSettings
  pub md5 : Bytes → Bytes

pub record DownloadFile : Type 0 where
  pub entry : ManifestEntry
  pub copy_from_relative_path : Bytes
  pub url : Bytes

pub record DownloadPlan : Type 0 where
  pub build_id : Bytes
  pub game_id : Bytes
  pub game_version_id : Bytes
  pub kind : DownloadKind
  pub manifest_sha256 : Bytes
  pub entrypoint_relative_path : Bytes
  pub default_launch_args : Bytes
  pub files : List DownloadFile
  pub unchanged : List ManifestEntry
  pub remove : List Bytes
  pub download_bytes : ℤ
  pub total_bytes : ℤ
  pub urls_expire_at : ℤ

pub record InstalledFile : Type 0 where
  pub relative_path : Bytes
  pub sha256 : Bytes

pub record IntegrityReport : Type 0 where
  pub build_id : Bytes
  pub manifest_sha256 : Bytes
  pub intact : Bool
  pub missing : List Bytes
  pub corrupt : List Bytes
  pub unexpected : List Bytes
  pub repair : List DownloadFile
  pub repair_bytes : ℤ
  pub urls_expire_at : ℤ

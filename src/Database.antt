-- ===== src/Database.antt =====
-- The tables that the services share (migrations/0001 and its successors), as lists of rows, and the
-- statements of src/repositories/postgres, as functions on them: a module for each repository.
-- A request takes place at one instant, `now`. Values that the database or the generator draws at
-- random (ids, tokens) are arguments.
pub mod Users
pub mod Tokens
pub mod Blobs
pub mod Sessions
pub mod Builds
pub mod Downloads
pub mod Accounts
pub mod Admin
pub mod Games
use custom_game_launcher_bac.Base.{ℕ, String, Bool, List, Option, ℤ, Bytes, Part}
use custom_game_launcher_bac.Domain.Catalog.{
  GameVisibility, BuildStage, BuildPlatform, BuildArchitecture, BuildStatus, BuildOwnership,
}
use custom_game_launcher_bac.Domain.Manifest.{ManifestEntry}
use custom_game_launcher_bac.Domain.Delta.{DownloadKind}

-- src/domain/User.h, with the column last_login_at of the row.
pub record User : Type 0 where
  pub id : Bytes
  pub email : Bytes
  pub display_name : Bytes
  pub password_hash : Bytes
  pub email_verified : Bool
  pub is_active : Bool
  pub password_change_required : Bool
  pub upload_quota_bytes : ℤ
  pub upload_used_bytes : ℤ
  pub last_login_at : Option ℕ

-- A row of refresh_tokens. It is live while revoked_at is null.
pub record RefreshToken : Type 0 where
  pub id : Bytes
  pub user_id : Bytes
  pub family_id : Bytes
  pub token_hash : Bytes
  pub expires_at : ℕ
  pub revoked_at : Option ℕ
  pub replaced_by : Option Bytes
  pub user_agent : Bytes
  pub ip_address : Bytes

pub data UserTokenPurpose : Type 0 where
  email_verification password_reset : UserTokenPurpose

-- A row of user_tokens.
pub record UserToken : Type 0 where
  pub user_id : Bytes
  pub purpose : UserTokenPurpose
  pub token_hash : Bytes
  pub expires_at : ℕ
  pub consumed_at : Option ℕ

-- A row of blobs.
pub record BlobRow : Type 0 where
  pub sha256 : Bytes
  pub size_bytes : ℤ
  pub storage_key : Bytes
  pub created_at : ℕ
  pub uploaded_by_user_id : Option Bytes

pub data UploadSessionStatus : Type 0 where
  pending completed aborted : UploadSessionStatus

-- A row of upload_sessions. `expired` of the struct is computed when the row is read.
pub record UploadSession : Type 0 where
  pub id : Bytes
  pub build_id : Bytes
  pub user_id : Bytes
  pub blob_sha256 : Bytes
  pub declared_size_bytes : ℤ
  pub received_bytes : ℤ
  pub status : UploadSessionStatus
  pub expires_at : ℕ

-- A row of games.
pub record GameRow : Type 0 where
  pub id : Bytes
  pub slug : Bytes
  pub title : Bytes
  pub summary : Bytes
  pub description : Bytes
  pub publisher_user_id : Bytes
  pub release_date : Bytes
  pub visibility : GameVisibility
  pub created_at : ℕ

-- A row of game_versions. It is published while published_at is set.
pub record VersionRow : Type 0 where
  pub id : Bytes
  pub game_id : Bytes
  pub semver : Bytes
  pub version_major : ℕ
  pub version_minor : ℕ
  pub version_patch : ℕ
  pub stage : BuildStage
  pub release_notes : Bytes
  pub published_at : Option ℕ
  pub created_at : ℕ

-- A row of builds.
pub record BuildRow : Type 0 where
  pub build_id : Bytes
  pub game_version_id : Bytes
  pub status : BuildStatus
  pub name : Bytes
  pub platform : BuildPlatform
  pub architecture : BuildArchitecture
  pub manifest_sha256 : Bytes
  pub total_size_bytes : ℤ
  pub file_count : ℕ
  pub entrypoint_relative_path : Bytes
  pub default_launch_args : Bytes
  pub ready_at : Option ℕ

-- A row of build_files.
pub record BuildFile : Type 0 where
  pub build_id : Bytes
  pub relative_path : Bytes
  pub blob_sha256 : Bytes
  pub is_executable : Bool

-- A row of download_events.
pub record DownloadEvent : Type 0 where
  pub game_id : Bytes
  pub build_id : Bytes
  -- Null once the account is erased.
  pub user_id : Option Bytes
  pub from_version_id : Bytes
  pub kind : DownloadKind
  pub bytes_planned : ℤ

-- A row of account_deletion_requests, whose status is always `completed`.
pub record DeletionRequest : Type 0 where
  pub user_id : Bytes
  pub reason : Bytes
  pub processed_at : ℕ

-- NewAuditEntry of src/domain/AuditEntry.h. A value of the metadata is a text or a number.
pub record NewAuditEntry : Type 0 where
  pub actor_user_id : Bytes
  pub action : String
  pub entity_type : String
  pub entity_id : Bytes
  pub metadata : List (String × Part)

-- A row of audit_log. The actor is null where the entry names none.
pub record AuditRow : Type 0 where
  pub actor_user_id : Option Bytes
  pub action : String
  pub entity_type : String
  pub entity_id : Bytes
  pub metadata : List (String × Part)
  pub created_at : ℕ

pub record Db : Type 0 where
  pub users : List User
  -- user_roles, by the key of the role, and the rows of roles with the permissions of each.
  pub user_roles : List (Bytes × String)
  pub roles : List (String × List String)
  pub refresh_tokens : List RefreshToken
  pub user_tokens : List UserToken
  pub blobs : List BlobRow
  pub upload_sessions : List UploadSession
  pub games : List GameRow
  pub game_versions : List VersionRow
  pub builds : List BuildRow
  pub build_files : List BuildFile
  pub download_events : List DownloadEvent
  -- The library of each account: a user and a game.
  pub user_games : List (Bytes × Bytes)
  pub account_deletion_requests : List DeletionRequest
  pub audit_log : List AuditRow

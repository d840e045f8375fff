-- ===== src/Upload/Sound.antt =====
-- The soundness of the store and of the tables, and the statements that src/services/UploadService.cpp
-- makes on them.
use custom_game_launcher_bac.Base.{
  ℕ, ◌≡◌, refl, inl, inr, true, ◌&&◌, List, [], ◌∷◌, Option, some, arith, +ℤ_parts, -ℤ_parts,
  is_some, length, All, ℤ, pos, ◌≤ℤ◌, Bytes, find_row, All-update_rows, All-delete_rows,
  find_row-All, Option-cases,
}
use custom_game_launcher_bac.Domain.Manifest.{is_sha256_hex}
use custom_game_launcher_bac.Database.{User, BlobRow, UploadSession, UploadSessionStatus, Db}
use custom_game_launcher_bac.Database.Users
use custom_game_launcher_bac.Database.Users.{
  charge_upload, release_upload, has_room, charge, release, update_user,
}
use custom_game_launcher_bac.Database.Blobs.{record_blob, find_by_sha256, is_pending}
use custom_game_launcher_bac.Database.Sessions
use custom_game_launcher_bac.Database.Sessions.{
  reserve_bytes, is_reservable, receive, finish, set_status, mark_completed, mark_aborted,
  delete_by_id,
}
use custom_game_launcher_bac.Storage.BlobStore.{Disk, storage_key_for}
use custom_game_launcher_bac.Storage.BlobStore.Addressed.{Addressed, Keeps}
use custom_game_launcher_bac.Upload.{UploadEnv, World}

-- The row stands for a file of the store, at the place of its address.
abbrev pub HasFile : Disk → BlobRow → Type 0
HasFile disk b =
    (is_sha256_hex b.sha256 ≡ true)
    × (is_some (disk.stored (storage_key_for b.sha256)) ≡ true)
    × (b.storage_key ≡ storage_key_for b.sha256)

abbrev pub WithinQuota : User → Type 0
WithinQuota u = (pos 0 ≤ℤ u.upload_used_bytes) × (u.upload_used_bytes ≤ℤ u.upload_quota_bytes)

abbrev pub IsBounded : UploadSession → Type 0
IsBounded s = (pos 0 ≤ℤ s.received_bytes) × (s.received_bytes ≤ℤ s.declared_size_bytes)

pub record TablesAreSound (disk : Disk) (db : Db) : Type 0 where
  pub held : All (HasFile disk) db.blobs
  pub within : All WithinQuota db.users
  pub bounded : All IsBounded db.upload_sessions

pub record IsSound (env : UploadEnv) (w : World) : Type 0 where
  pub addressed : Addressed env.sha256_hex w.disk
  pub tables : TablesAreSound w.disk w.db

pub declared_nonnegative : (s : UploadSession) → IsBounded s → pos 0 ≤ℤ s.declared_size_bytes
declared_nonnegative s (low, high) = omega arith

pub HasFile-Keeps :
    (before after : Disk) (bs : List BlobRow)
    → Keeps before after
    → All (HasFile before) bs
    → All (HasFile after) bs
HasFile-Keeps before after [] keeps h = tt
HasFile-Keeps before after (b ∷ bs) keeps h = (file b h.0, HasFile-Keeps before after bs keeps h.1)
  where
    file : (b : BlobRow) → HasFile before b → HasFile after b
    file b (hex, there, key) = (hex, keeps (storage_key_for b.sha256) there, key)

module _ (disk : Disk) (db : Db) (sound : TablesAreSound disk db) where
  pub finish-TablesAreSound :
      (status : UploadSessionStatus) (id : Bytes) → TablesAreSound disk (finish status id db)
  finish-TablesAreSound status id = record {
    held = sound.held;
    within = sound.within;
    bounded =
        All-update_rows IsBounded (λ s. Sessions.has_id id s && is_pending s.status)
          (set_status status) db.upload_sessions (λ s hit h. h) sound.bounded;
  }

  pub charge_upload-TablesAreSound :
      (user_id : Bytes) (n : ℤ) → pos 0 ≤ℤ n → TablesAreSound disk (charge_upload user_id n db).1
  unfolding charge_upload
  charge_upload-TablesAreSound user_id n low = record {
    held = sound.held;
    within =
        All-update_rows WithinQuota (λ u. Users.has_id user_id u && has_room n u) (charge n)
          db.users (λ u hit h. ground (arith, +ℤ_parts u.upload_used_bytes n)) sound.within;
    bounded = sound.bounded;
  }

  pub release_upload-TablesAreSound :
      (user_id : Bytes) (n : ℤ) → pos 0 ≤ℤ n → TablesAreSound disk (release_upload user_id n db)
  unfolding release_upload
  release_upload-TablesAreSound user_id n low = record {
    held = sound.held;
    within =
        All-update_rows WithinQuota (Users.has_id user_id) (release n) db.users
          (λ u hit h. ground (arith, -ℤ_parts u.upload_used_bytes n)) sound.within;
    bounded = sound.bounded;
  }

  pub record_blob-TablesAreSound :
      (now : ℕ) (sha256 : Bytes) (size : ℤ) (owner : Option Bytes)
      → is_sha256_hex sha256 ≡ true
      → is_some (disk.stored (storage_key_for sha256)) ≡ true
      → TablesAreSound disk (record_blob now sha256 size (storage_key_for sha256) owner db).1
  unfolding record_blob
  record_blob-TablesAreSound now sha256 size owner hex there =
      elim (Option-cases (find_by_sha256 db sha256)) [
        | inr (b, held) ↦ rw (held, record_blob) sound
        | inl missing ↦
            rw (missing, record_blob)
              (record {
                held = ((hex, there, refl), sound.held);
                within = sound.within;
                bounded = sound.bounded;
              })
      ]

  pub reserve_bytes-TablesAreSound :
      (now : ℕ) (id chunk : Bytes) (offset : ℤ)
      → TablesAreSound disk (reserve_bytes now id offset (pos (length chunk)) db).1
  unfolding reserve_bytes
  reserve_bytes-TablesAreSound now id chunk offset = record {
    held = sound.held;
    within = sound.within;
    bounded =
        All-update_rows IsBounded (is_reservable now id offset (pos (length chunk)))
          (receive (pos (length chunk))) db.upload_sessions
          (λ s hit h. ground (arith, +ℤ_parts s.received_bytes (pos (length chunk)))) sound.bounded;
  }

  pub reserve_bytes-declared :
      (now : ℕ) (id : Bytes) (offset n : ℤ) (s : UploadSession)
      → (reserve_bytes now id offset n db).0 ≡ some s
      → pos 0 ≤ℤ s.declared_size_bytes
  unfolding reserve_bytes
  reserve_bytes-declared now id offset n s h =
      elim (Option-cases (find_row (is_reservable now id offset n) db.upload_sessions)) [
        | inl missing ↦ ground arith
        | inr (found, hit) ↦
            let low = declared_nonnegative found (
              find_row-All IsBounded (is_reservable now id offset n) db.upload_sessions found
                sound.bounded hit) in
            ground arith
      ]

  pub delete_by_id-TablesAreSound : (id : Bytes) → TablesAreSound disk (delete_by_id id db).1
  unfolding delete_by_id
  delete_by_id-TablesAreSound id = record {
    held = sound.held;
    within = sound.within;
    bounded = All-delete_rows IsBounded (Sessions.has_id id) db.upload_sessions sound.bounded;
  }

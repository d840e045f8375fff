-- ===== src/Database/Blobs.antt =====
-- src/repositories/postgres/PgUploadRepositories.cpp: the rows of stored blobs.
use custom_game_launcher_bac.Base.{
  take, sort_by, ℕ, ◌+◌, Bool, true, false, ◌&&◌, ◌||◌, not, List, [], ◌∷◌, Option, none, some, ltb,
  if◌then◌else◌, is_some, any, select_rows, ℤ, Bytes, eq_bytes, find_row, delete_rows,
}
use custom_game_launcher_bac.Database.{
  BlobRow, BuildFile, UploadSession, UploadSessionStatus, pending, Db,
}

abbrev pub has_sha256 : Bytes → BlobRow → Bool
has_sha256 sha256 b = eq_bytes b.sha256 sha256

unfoldable pub find_by_sha256 : Db → Bytes → Option BlobRow
find_by_sha256 db sha256 = find_row (has_sha256 sha256) db.blobs

-- WHERE NOT EXISTS …, in the order of the request.
unfoldable pub find_missing : Db → List Bytes → List Bytes
unfolding find_by_sha256
find_missing db [] = []
find_missing db (s ∷ ss) =
    let rest = find_missing db ss in if is_some (find_by_sha256 db s) then rest else s ∷ rest

-- INSERT … ON CONFLICT (sha256) DO NOTHING; the answer is whether a row was inserted.
unfoldable pub record_blob : ℕ → Bytes → ℤ → Bytes → Option Bytes → Db → Bool × Db
unfolding find_by_sha256
record_blob now sha256 size_bytes storage_key uploaded_by db = elim (find_by_sha256 db sha256) [
  | some held ↦ (false, db)
  | none ↦ (
    true,
    record db {
      blobs =
          record {
            sha256 = sha256;
            size_bytes = size_bytes;
            storage_key = storage_key;
            created_at = now;
            uploaded_by_user_id = uploaded_by;
          }
          ∷ db.blobs;
    },
  )
]

abbrev pub is_pending : UploadSessionStatus → Bool
is_pending pending = true
is_pending _ = false

-- Some manifest names the blob, or an open upload session is waiting on it.
unfoldable pub is_referenced : Db → Bytes → Bool
is_referenced db sha256 =
    any (λ (f : BuildFile). eq_bytes f.blob_sha256 sha256) db.build_files
    || any (λ (s : UploadSession). eq_bytes s.blob_sha256 sha256 && is_pending s.status)
        db.upload_sessions

-- created_at < now() - $1, which is created_at + $1 < now().
unfoldable pub is_collectable : ℕ → ℕ → Db → BlobRow → Bool
unfolding is_referenced
is_collectable now minimum_age db b =
    ltb (b.created_at + minimum_age) now && not (is_referenced db b.sha256)

-- The listing of the sweep, oldest first. The uploader is null where the account is gone.
unfoldable pub find_unreferenced : ℕ → ℕ → ℕ → Db → List BlobRow
unfolding is_collectable
find_unreferenced now minimum_age limit db = take limit (
    sort_by (λ (b : BlobRow). b.created_at ∷ [])
      (select_rows (is_collectable now minimum_age db) db.blobs))

-- DELETE FROM blobs WHERE sha256 = $1 AND …; the answer is whether a row was deleted.
unfoldable pub delete_if_unreferenced : ℕ → Bytes → ℕ → Db → Bool × Db
unfolding is_collectable
delete_if_unreferenced now sha256 minimum_age db =
    let p = λ (b : BlobRow). has_sha256 sha256 b && is_collectable now minimum_age db b in
    (is_some (find_row p db.blobs), record db { blobs = delete_rows p db.blobs })

unfoldable pub find_many : Db → List Bytes → List BlobRow
find_many db sha256s =
    select_rows (λ (b : BlobRow). any (λ s. eq_bytes s b.sha256) sha256s) db.blobs

-- ===== src/Retention.antt =====
-- src/services/RetentionService.cpp: the sweep of blobs that nothing names.
pub mod Spares
use custom_game_launcher_bac.Base.{
  ℕ, suc, Bool, true, false, not, List, [], ◌∷◌, Option, none, some, if◌then◌else◌, ℤ, pos, ◌+ℤ◌,
  Bytes,
}
use custom_game_launcher_bac.Database.{BlobRow, Db}
use custom_game_launcher_bac.Database.Users.{release_upload}
use custom_game_launcher_bac.Database.Blobs.{find_unreferenced, delete_if_unreferenced}
use custom_game_launcher_bac.Storage.BlobStore.{Disk, storage_key_for, remove_file}
use custom_game_launcher_bac.Upload.{World}

pub record RetentionSettings : Type 0 where
  pub blob_grace_seconds : ℕ
  pub batch_size : ℕ

pub record SweepReport : Type 0 where
  pub collected : ℕ
  pub skipped : ℕ
  pub reclaimed_bytes : ℤ

-- store_.discard(store_.pathFor(sha256)), on a stored file.
unfoldable pub discard_blob : Bytes → Disk → Disk
discard_blob sha256 disk = record disk { stored = remove_file (storage_key_for sha256) disk.stored }

-- The quota that the uploader gets back.
unfoldable pub release_owner : BlobRow → Db → Db
release_owner b db = elim b.uploaded_by_user_id [
  | none ↦ db
  | some user_id ↦ release_upload user_id b.size_bytes db
]

-- The loop over the candidates.
unfoldable pub collect : ℕ → ℕ → List BlobRow → SweepReport → World → SweepReport × World
unfolding discard_blob release_owner
collect now grace [] report w = (report, w)
collect now grace (b ∷ bs) report w =
    let (deleted, after) = delete_if_unreferenced now b.sha256 grace w.db in
    let passed_over =
      collect now grace bs (record report { skipped = suc report.skipped })
        (record w { db = after }) in
    let rest =
      collect now grace bs
        (record report {
          collected = suc report.collected;
          reclaimed_bytes = report.reclaimed_bytes +ℤ b.size_bytes;
        })
        (record { db = release_owner b after; disk = discard_blob b.sha256 w.disk }) in
    if not deleted then passed_over else rest

unfoldable pub collect_unreferenced_blobs : ℕ → RetentionSettings → World → SweepReport × World
unfolding collect
collect_unreferenced_blobs now settings w =
    collect now settings.blob_grace_seconds
      (find_unreferenced now settings.blob_grace_seconds settings.batch_size w.db)
      (record { collected = 0; skipped = 0; reclaimed_bytes = pos 0 }) w

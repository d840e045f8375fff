-- ===== src/Retention/Spares.antt =====
-- src/services/RetentionService.cpp: the sweep and the files of the manifests.
use custom_game_launcher_bac.Base.{
  ℕ, ◌≡◌, refl, subst, ◌∙◌, ap, inl, inr, Bool, true, false, ◌&&◌, List, [], ◌∷◌, some, arith,
  is_some, any, suc, pos, ◌+ℤ◌, All, Bytes, eq_bytes, eq_bytes_iff, eq_bytes_refl, find_row,
  find_row_holds, find_row-delete_rows, find_row-All, All-delete_rows, Bool-cases, Option-cases,
}
use custom_game_launcher_bac.Domain.Manifest.{is_sha256_hex}
use custom_game_launcher_bac.Database.{BlobRow, BuildFile, Db}
use custom_game_launcher_bac.Database.Users.{release_upload}
use custom_game_launcher_bac.Database.Blobs.{
  has_sha256, find_by_sha256, is_referenced, is_collectable, find_unreferenced,
  delete_if_unreferenced,
}
use custom_game_launcher_bac.Storage.BlobStore.{storage_key_for}
use custom_game_launcher_bac.Storage.BlobStore.Addressed.{storage_key_for-injective}
use custom_game_launcher_bac.Upload.{World}
use custom_game_launcher_bac.Retention.{
  RetentionSettings, SweepReport, discard_blob, release_owner, collect, collect_unreferenced_blobs,
}

-- The file of a build can be downloaded: the database has its blob, and the store the content.
abbrev pub IsServable : World → BuildFile → Type 0
IsServable w f =
    (is_sha256_hex f.blob_sha256 ≡ true)
    × (is_some (find_by_sha256 w.db f.blob_sha256) ≡ true)
    × (is_some (w.disk.stored (storage_key_for f.blob_sha256)) ≡ true)

abbrev pub HasAddress : BlobRow → Type 0
HasAddress b = is_sha256_hex b.sha256 ≡ true

-- Every row has an address, and every file of a manifest can be downloaded.
pub record IsComplete (w : World) : Type 0 where
  pub addresses : All HasAddress w.db.blobs
  pub files : All (IsServable w) w.db.build_files

abbrev is_named : List BuildFile → Bytes → Bool
is_named fs sha256 = any (λ (f : BuildFile). eq_bytes f.blob_sha256 sha256) fs

All-is_named :
    (gs fs : List BuildFile)
    → ((s : Bytes) → is_named fs s ≡ true → is_named gs s ≡ true)
    → All (λ (f : BuildFile). is_named gs f.blob_sha256 ≡ true) fs
All-is_named gs [] h = tt
All-is_named gs (f ∷ fs) h = (
  h f.blob_sha256 (rw (eq_bytes_refl f.blob_sha256) refl),
  All-is_named gs fs (λ s k. h s (ground arith)),
)

All-IsServable :
    (before after : World) (gs fs : List BuildFile)
    → ((f : BuildFile)
        → is_named gs f.blob_sha256 ≡ true
        → IsServable before f
        → IsServable after f)
    → All (λ (f : BuildFile). is_named gs f.blob_sha256 ≡ true) fs
    → All (IsServable before) fs
    → All (IsServable after) fs
All-IsServable before after gs [] h named k = tt
All-IsServable before after gs (f ∷ fs) h named k =
    (h f named.0 k.0, All-IsServable before after gs fs h named.1 k.1)

module _ (now grace : ℕ) (sha256 : Bytes) (db : Db) where
  abbrev is_deleted : BlobRow → Bool
  is_deleted b = has_sha256 sha256 b && is_collectable now grace db b

  -- A row that a manifest names is not deleted.
  spared :
      (s : Bytes) (b : BlobRow)
      → is_named db.build_files s ≡ true
      → has_sha256 s b ≡ true
      → is_deleted b ≡ false
  unfolding is_collectable is_referenced
  spared s b named same = ground (arith, eq_bytes_iff b.sha256 s)

  find_by_sha256-delete :
      (s : Bytes)
      → is_named db.build_files s ≡ true
      → find_by_sha256 (delete_if_unreferenced now sha256 grace db).1 s ≡ find_by_sha256 db s
  unfolding find_by_sha256 delete_if_unreferenced
  find_by_sha256-delete s named =
      find_row-delete_rows (has_sha256 s) is_deleted db.blobs (λ b same. spared s b named same)

  -- Where a row was deleted, its address is not named.
  deleted_unnamed :
      (b : BlobRow)
      → find_row is_deleted db.blobs ≡ some b
      → (b.sha256 ≡ sha256) × (is_named db.build_files sha256 ≡ false)
  unfolding is_collectable is_referenced
  deleted_unnamed b found =
      let met = find_row_holds is_deleted db.blobs b found in
      let same : b.sha256 ≡ sha256 = (eq_bytes_iff b.sha256 sha256).0 (ground arith) in
      (same, subst (λ s. is_named db.build_files s ≡ false) same (ground arith))

abbrev deleted_db : ℕ → ℕ → Bytes → Db → Db
deleted_db now grace sha256 db = (delete_if_unreferenced now sha256 grace db).1

module _ (now grace : ℕ) where
  row-IsComplete :
      (sha256 : Bytes) (w : World)
      → IsComplete w
      → IsComplete (record w { db = deleted_db now grace sha256 w.db })
  unfolding delete_if_unreferenced
  row-IsComplete sha256 w complete =
      let after = record w { db = deleted_db now grace sha256 w.db } in
      let files = w.db.build_files in
      record {
        addresses =
            All-delete_rows HasAddress (is_deleted now grace sha256 w.db) w.db.blobs
              complete.addresses;
        files =
            All-IsServable w after files files
              (λ f named (hex, held, stored). (
                hex,
                ap is_some (find_by_sha256-delete now grace sha256 w.db f.blob_sha256 named) ∙ held,
                stored,
              ))
              (All-is_named files files (λ s k. k)) complete.files;
      }

  release_owner-IsComplete :
      (b : BlobRow) (w : World) → IsComplete w → IsComplete (record w { db = release_owner b w.db })
  unfolding release_owner release_upload find_by_sha256
  release_owner-IsComplete b w complete = elim (Option-cases b.uploaded_by_user_id) [
    | inl gone ↦ rw (gone, release_owner) complete
    | inr (user_id, owner) ↦
        rw (owner, release_owner)
          (record { addresses = complete.addresses; files = complete.files })
  ]

  blob-IsComplete :
      (sha256 : Bytes) (w : World)
      → is_sha256_hex sha256 ≡ true
      → is_named w.db.build_files sha256 ≡ false
      → IsComplete w
      → IsComplete (record w { disk = discard_blob sha256 w.disk })
  unfolding discard_blob
  blob-IsComplete sha256 w address unnamed complete =
      let after = record w { disk = discard_blob sha256 w.disk } in
      let files = w.db.build_files in
      record {
        addresses = complete.addresses;
        files =
            All-IsServable w after files files
              (λ f named (hex, held, stored).
                elim (Bool-cases
                  (eq_bytes (storage_key_for f.blob_sha256) (storage_key_for sha256))) [
                    | inr other ↦ (hex, held, rw (other, discard_blob) stored)
                    | inl hit ↦
                        let same = storage_key_for-injective f.blob_sha256 sha256 hex address (
                          (eq_bytes_iff (storage_key_for f.blob_sha256) (storage_key_for sha256)).0
                            hit) in
                        let clash : is_named files sha256 ≡ true =
                          subst (λ s. is_named files s ≡ true) same named in
                        absurd (ground arith)
                  ])
              (All-is_named files files (λ s k. k)) complete.files;
      }

  -- The state behind one candidate whose row was deleted.
  abbrev taken : BlobRow → World → World
  taken b w = record {
    db = release_owner b (deleted_db now grace b.sha256 w.db);
    disk = discard_blob b.sha256 w.disk;
  }

  taken-IsComplete :
      (b : BlobRow) (w : World)
      → (delete_if_unreferenced now b.sha256 grace w.db).0 ≡ true
      → IsComplete w
      → IsComplete (taken b w)
  unfolding delete_if_unreferenced
  taken-IsComplete b w deleted complete =
      elim (Option-cases (find_row (is_deleted now grace b.sha256 w.db) w.db.blobs)) [
        | inl none_found ↦ ground arith
        | inr (row, found) ↦
            let (same, unnamed) = deleted_unnamed now grace b.sha256 w.db row found in
            let address =
              find_row-All HasAddress (is_deleted now grace b.sha256 w.db) w.db.blobs row
                complete.addresses found in
            let rows = row-IsComplete b.sha256 w complete in
            let files =
              blob-IsComplete b.sha256 (record w { db = deleted_db now grace b.sha256 w.db })
                (subst (λ s. is_sha256_hex s ≡ true) same address) unnamed rows in
            release_owner-IsComplete b
              (record {
                db = deleted_db now grace b.sha256 w.db;
                disk = discard_blob b.sha256 w.disk;
              })
              files
      ]

  collect-IsComplete :
      (bs : List BlobRow) (report : SweepReport) (w : World)
      → IsComplete w
      → IsComplete (collect now grace bs report w).1
  unfolding collect
  collect-IsComplete [] report w complete = complete
  collect-IsComplete (b ∷ bs) report w complete =
      elim (Bool-cases (delete_if_unreferenced now b.sha256 grace w.db).0) [
        | inr kept ↦
            rw (kept, collect)
              (collect-IsComplete bs (record report { skipped = suc report.skipped })
                (record w { db = deleted_db now grace b.sha256 w.db })
                (row-IsComplete b.sha256 w complete))
        | inl deleted ↦
            rw (deleted, collect)
              (collect-IsComplete bs
                (record report {
                  collected = suc report.collected;
                  reclaimed_bytes = report.reclaimed_bytes +ℤ b.size_bytes;
                })
                (taken b w) (taken-IsComplete b w deleted complete))
      ]

-- Where every file of every manifest can be downloaded, a sweep of unreferenced blobs leaves that
-- so, at any time and with any grace period: each file keeps the row of its blob and its content.
pub collect_unreferenced_blobs-IsComplete :
    (now : ℕ) (settings : RetentionSettings) (w : World)
    → IsComplete w
    → IsComplete (collect_unreferenced_blobs now settings w).1
unfolding collect_unreferenced_blobs
collect_unreferenced_blobs-IsComplete now settings w complete =
    collect-IsComplete now settings.blob_grace_seconds
      (find_unreferenced now settings.blob_grace_seconds settings.batch_size w.db)
      (record { collected = 0; skipped = 0; reclaimed_bytes = pos 0 }) w complete

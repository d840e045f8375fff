-- ===== src/Upload/Steps.antt =====
-- src/services/UploadService.cpp: uploadChunk and its parts, and the soundness of what they leave.
use custom_game_launcher_bac.Base.{
  ◌≡◌, refl, sym, ◌∙◌, ap, inl, inr, true, some, if◌then◌else◌, is_some, length, ℤ, pos, ◌≤ℤ◌,
  Bytes, Bool-cases, Option-cases, Result-cases,
}
use custom_game_launcher_bac.Domain.Actor.{Actor}
use custom_game_launcher_bac.Domain.Manifest.{is_sha256_hex}
use custom_game_launcher_bac.Database.{UploadSession, completed, aborted, Db}
use custom_game_launcher_bac.Database.Users.{charge_upload, release_upload}
use custom_game_launcher_bac.Database.Blobs.{record_blob, find_by_sha256}
use custom_game_launcher_bac.Database.Sessions.{reserve_bytes, mark_completed, mark_aborted}
use custom_game_launcher_bac.Storage.BlobStore.{Disk, storage_key_for, write_at, commit, discard}
use custom_game_launcher_bac.Storage.BlobStore.Addressed.{
  stored-write_at, commit-Addressed, commit-Keeps, commit-stores,
}
use custom_game_launcher_bac.Upload.{UploadEnv, Moment, World}
use custom_game_launcher_bac.Upload.Transfer.{session_status, is_complete}
use custom_game_launcher_bac.Upload.Chunks.{
  record_committed, commit_session, complete_session, finish_chunk, check_chunk, write_chunk,
  receive_chunk, upload_chunk,
}
use custom_game_launcher_bac.Upload.Sound.{
  TablesAreSound, IsSound, HasFile-Keeps, finish-TablesAreSound, charge_upload-TablesAreSound,
  release_upload-TablesAreSound, record_blob-TablesAreSound, reserve_bytes-TablesAreSound,
  reserve_bytes-declared,
}

-- Soundness reads the stored files alone, not the staging.
pub with_disk :
    (env : UploadEnv) (db : Db) (before after : Disk)
    → after.stored ≡ before.stored
    → IsSound env (record { db = db; disk = before })
    → IsSound env (record { db = db; disk = after })
with_disk env db before after same sound = record {
  addressed = λ s content hex found.
      sound.addressed s content hex (sym (ap (λ f. f (storage_key_for s)) same) ∙ found);
  tables = record {
    held =
        HasFile-Keeps before after db.blobs (λ name h. ap (λ f. is_some (f name)) same ∙ h)
          sound.tables.held;
    within = sound.tables.within;
    bounded = sound.tables.bounded;
  };
}

pub with_tables :
    (env : UploadEnv) (w : World) (db : Db)
    → IsSound env w
    → TablesAreSound w.disk db
    → IsSound env (record w { db = db })
with_tables env w db sound tables = record { addressed = sound.addressed; tables = tables }

module _ (env : UploadEnv) (moment : Moment) where
  record_committed-IsSound :
      (s : UploadSession) (w : World)
      → IsSound env w
      → pos 0 ≤ℤ s.declared_size_bytes
      → is_some (w.disk.stored (storage_key_for s.blob_sha256)) ≡ true
      → is_sha256_hex s.blob_sha256 ≡ true
      → IsSound env (record_committed env moment s w)
  unfolding record_committed mark_completed
  record_committed-IsSound s w sound low there hex =
      let attempt =
        record_blob moment.now s.blob_sha256 s.declared_size_bytes (storage_key_for s.blob_sha256)
          (some s.user_id) w.db in
      let recorded =
        record_blob-TablesAreSound w.disk w.db sound.tables moment.now s.blob_sha256
          s.declared_size_bytes (some s.user_id) hex there in
      let charged =
        if attempt.0 then attempt.1 else release_upload s.user_id s.declared_size_bytes attempt.1 in
      let kept : TablesAreSound w.disk charged = elim (Bool-cases attempt.0) [
        | inl new ↦ rw new recorded
        | inr lost ↦ rw lost (
            release_upload-TablesAreSound w.disk attempt.1 recorded s.user_id s.declared_size_bytes
              low)
      ] in
      with_tables env w (mark_completed s.id charged) sound
        (finish-TablesAreSound w.disk charged kept completed s.id)

  commit_session-IsSound :
      (s : UploadSession) (charged : Db) (w : World)
      → IsSound env (record w { db = charged })
      → pos 0 ≤ℤ s.declared_size_bytes
      → IsSound env (commit_session env moment s charged w).1
  unfolding commit_session mark_aborted
  commit_session-IsSound s charged w sound low =
      let attempt = commit env.sha256_hex moment.calls s.id s.blob_sha256 w.disk in
      let moved : IsSound env (record { db = charged; disk = attempt.1 }) = record {
        addressed =
            commit-Addressed env.sha256_hex moment.calls s.id s.blob_sha256 w.disk sound.addressed;
        tables = record {
          held =
              HasFile-Keeps w.disk attempt.1 charged.blobs
                (commit-Keeps env.sha256_hex moment.calls s.id s.blob_sha256 w.disk)
                sound.tables.held;
          within = sound.tables.within;
          bounded = sound.tables.bounded;
        };
      } in
      elim (Result-cases attempt.0) [
        | inr (e, failed) ↦
            let released = release_upload s.user_id s.declared_size_bytes charged in
            rw (failed, commit_session)
              (with_tables env (record { db = charged; disk = attempt.1 })
                (mark_aborted s.id released) moved
                (finish-TablesAreSound attempt.1 released
                  (release_upload-TablesAreSound attempt.1 charged moved.tables s.user_id
                    s.declared_size_bytes low)
                  aborted s.id))
        | inl (_, done) ↦
            let (hex, there) =
              commit-stores env.sha256_hex moment.calls s.id s.blob_sha256 w.disk done in
            rw (done, commit_session)
              (record_committed-IsSound s (record { db = charged; disk = attempt.1 }) moved low
                there hex)
      ]

  complete_session-IsSound :
      (s : UploadSession) (w : World)
      → IsSound env w
      → pos 0 ≤ℤ s.declared_size_bytes
      → IsSound env (complete_session env moment s w).1
  unfolding complete_session mark_completed mark_aborted discard
  complete_session-IsSound s w sound low =
      let charge = charge_upload s.user_id s.declared_size_bytes w.db in
      let kept =
        charge_upload-TablesAreSound w.disk w.db sound.tables s.user_id s.declared_size_bytes low in
      elim (Bool-cases (is_some (find_by_sha256 w.db s.blob_sha256))) [
        | inl held ↦
            rw (held, complete_session)
              (with_disk env (mark_completed s.id w.db) w.disk (discard s.id w.disk) refl (
                with_tables env w (mark_completed s.id w.db) sound
                  (finish-TablesAreSound w.disk w.db sound.tables completed s.id)))
        | inr new ↦ elim (Bool-cases charge.0) [
          | inr full ↦
              rw (new, full, complete_session)
                (with_disk env (mark_aborted s.id charge.1) w.disk (discard s.id w.disk) refl (
                  with_tables env w (mark_aborted s.id charge.1) sound
                    (finish-TablesAreSound w.disk charge.1 kept aborted s.id)))
          | inl paid ↦
              rw (new, paid, complete_session)
                (commit_session-IsSound s charge.1 w (with_tables env w charge.1 sound kept) low)
        ]
      ]

  finish_chunk-IsSound :
      (s : UploadSession) (w : World)
      → IsSound env w
      → pos 0 ≤ℤ s.declared_size_bytes
      → IsSound env (finish_chunk env moment s w).1
  unfolding finish_chunk
  finish_chunk-IsSound s w sound low = elim (Bool-cases (is_complete s)) [
    | inr partial ↦ rw (partial, finish_chunk) sound
    | inl whole ↦
        let done = complete_session-IsSound s w sound low in
        elim (Result-cases (complete_session env moment s w).0) [
          | inr (e, failed) ↦ rw (whole, failed, finish_chunk) done
          | inl (_, passed) ↦ rw (whole, passed, finish_chunk) done
        ]
  ]

  write_chunk-IsSound :
      (s : UploadSession) (offset : ℤ) (chunk : Bytes) (w : World)
      → IsSound env w
      → pos 0 ≤ℤ s.declared_size_bytes
      → IsSound env (write_chunk env moment s offset chunk w).1
  unfolding write_chunk mark_aborted discard
  write_chunk-IsSound s offset chunk w sound low =
      let attempt = write_at moment.calls s.id offset chunk w.disk in
      let same = stored-write_at moment.calls s.id offset chunk w.disk in
      let written = with_disk env w.db w.disk attempt.1 same sound in
      elim (Result-cases attempt.0) [
        | inr (e, failed) ↦
            rw (failed, write_chunk)
              (with_disk env (mark_aborted s.id w.db) w.disk (discard s.id attempt.1) same (
                with_tables env w (mark_aborted s.id w.db) sound
                  (finish-TablesAreSound w.disk w.db sound.tables aborted s.id)))
        | inl (_, done) ↦
            rw (done, write_chunk)
              (finish_chunk-IsSound s (record w { disk = attempt.1 }) written low)
      ]

  receive_chunk-IsSound :
      (s : UploadSession) (offset : ℤ) (chunk : Bytes) (w : World)
      → IsSound env w
      → IsSound env (receive_chunk env moment s offset chunk w).1
  unfolding receive_chunk
  receive_chunk-IsSound s offset chunk w sound =
      let attempt = reserve_bytes moment.now s.id offset (pos (length chunk)) w.db in
      let kept =
        with_tables env w attempt.1 sound
          (reserve_bytes-TablesAreSound w.disk w.db sound.tables moment.now s.id chunk offset) in
      elim (Option-cases attempt.0) [
        | inl missed ↦ rw (missed, receive_chunk) kept
        | inr (reserved, hit) ↦
            rw (hit, receive_chunk)
              (write_chunk-IsSound reserved offset chunk (record w { db = attempt.1 }) kept
                (reserve_bytes-declared w.disk w.db sound.tables moment.now s.id offset
                  (pos (length chunk)) reserved hit))
      ]

  pub upload_chunk-IsSound :
      (actor : Actor) (session_id : Bytes) (offset : ℤ) (chunk : Bytes) (w : World)
      → IsSound env w
      → IsSound env (upload_chunk env moment actor session_id offset chunk w).1
  unfolding upload_chunk
  upload_chunk-IsSound actor session_id offset chunk w sound =
      elim (Result-cases (session_status actor session_id w.db)) [
        | inr (e, refused) ↦ rw (refused, upload_chunk) sound
        | inl (s, found) ↦ elim (Result-cases (check_chunk env moment.now s offset chunk)) [
          | inr (e, refused) ↦ rw (found, refused, upload_chunk) sound
          | inl (_, passed) ↦
              rw (found, passed, upload_chunk) (receive_chunk-IsSound s offset chunk w sound)
        ]
      ]

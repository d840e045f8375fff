-- ===== src/Upload/Chunks.antt =====
-- src/services/UploadService.cpp: the chunks of a session, and how a session ends.
use custom_game_launcher_bac.Base.{
  ℕ, suc, not, List, [], ◌∷◌, none, some, if◌then◌else◌, is_some, length, ℤ, pos, ◌+ℤ◌, ltb_ℤ,
  eqb_ℤ, Bytes, Result, VoidResult, ok, err, success, failure, invalid_input, conflict,
  quota_exceeded, lit, int, refuse_if, ◌>>◌,
}
use custom_game_launcher_bac.Domain.Actor.{Actor}
use custom_game_launcher_bac.Database.{UploadSession, completed, Db}
use custom_game_launcher_bac.Database.Users.{charge_upload, release_upload}
use custom_game_launcher_bac.Database.Blobs.{find_by_sha256, record_blob, is_pending}
use custom_game_launcher_bac.Database.Sessions.{
  is_expired, reserve_bytes, mark_completed, mark_aborted, find_expired, delete_by_id, set_status,
}
use custom_game_launcher_bac.Storage.BlobStore.{storage_key_for, write_at, commit, discard}
use custom_game_launcher_bac.Upload.{UploadEnv, Moment, World}
use custom_game_launcher_bac.Upload.Transfer.{session_status, is_complete}

-- How many expired sessions one sweep reclaims.
abbrev pub sweep_batch : ℕ
sweep_batch = 100

module _ (env : UploadEnv) where
  -- The row of a blob that was committed, and the session that it completes.
  unfoldable pub record_committed : Moment → UploadSession → World → World
  record_committed moment session w =
      let (stored, recorded) =
        record_blob moment.now session.blob_sha256 session.declared_size_bytes
          (storage_key_for session.blob_sha256) (some session.user_id) w.db in
      let charged =
        if stored
        then recorded
        else release_upload session.user_id session.declared_size_bytes recorded in
      record w { db = mark_completed session.id charged }

  -- The part of completeSession behind the charge, with the database `charged`.
  unfoldable pub commit_session : Moment → UploadSession → Db → World → VoidResult × World
  unfolding record_committed
  commit_session moment session charged w =
      let (committed, disk) =
        commit env.sha256_hex moment.calls session.id session.blob_sha256 w.disk in
      elim committed [
        | err e ↦ (
          err e,
          record {
            db =
                mark_aborted session.id
                  (release_upload session.user_id session.declared_size_bytes charged);
            disk = disk;
          },
        )
        | ok _ ↦ (success, record_committed moment session (record { db = charged; disk = disk }))
      ]

  unfoldable pub complete_session : Moment → UploadSession → World → VoidResult × World
  unfolding commit_session
  complete_session moment session w =
      if is_some (find_by_sha256 w.db session.blob_sha256)
      then (
        success,
        record { db = mark_completed session.id w.db; disk = discard session.id w.disk },
      )
      else let (charged, after) = charge_upload session.user_id session.declared_size_bytes w.db in
        if not charged
        then (
          failure quota_exceeded
              (lit "storing this file would take you past your upload quota" ∷ []),
          record { db = mark_aborted session.id after; disk = discard session.id w.disk },
        )
        else commit_session moment session after w

  -- The end of uploadChunk, once the bytes are written.
  unfoldable pub finish_chunk : Moment → UploadSession → World → Result UploadSession × World
  unfolding complete_session
  finish_chunk moment reserved w =
      let (done, after) = complete_session moment reserved w in
      if not (is_complete reserved)
      then (ok reserved, w)
      else elim done [ err e ↦ (err e, after) | ok _ ↦ (ok (set_status completed reserved), after) ]

  -- The tests of uploadChunk on the session.
  unfoldable pub check_chunk : ℕ → UploadSession → ℤ → Bytes → VoidResult
  check_chunk now session offset chunk =
      refuse_if (not (is_pending session.status)) conflict
        (lit "this upload has already finished" ∷ [])
      >> refuse_if (is_expired now session) conflict
          (lit "this upload expired; start it again from the beginning" ∷ [])
      >> refuse_if (ltb_ℤ env.settings.max_chunk_bytes (pos (length chunk))) invalid_input
          (lit "a chunk may be at most " ∷ int env.settings.max_chunk_bytes ∷ lit " bytes" ∷ [])
      >> refuse_if (not (eqb_ℤ offset session.received_bytes)) conflict (
          lit "this upload is at offset "
          ∷ int session.received_bytes
          ∷ lit ", not "
          ∷ int offset
          ∷ [])
      >> refuse_if (ltb_ℤ session.declared_size_bytes (offset +ℤ pos (length chunk))) invalid_input
          (lit "this chunk runs past the declared file size" ∷ [])

  -- The part of uploadChunk behind the reservation: the write, and the end of the session.
  unfoldable pub write_chunk :
      Moment → UploadSession → ℤ → Bytes → World → Result UploadSession × World
  unfolding finish_chunk
  write_chunk moment reserved offset chunk w =
      let (written, disk) = write_at moment.calls reserved.id offset chunk w.disk in
      elim written [
        | err e ↦
            (err e, record { db = mark_aborted reserved.id w.db; disk = discard reserved.id disk })
        | ok _ ↦ finish_chunk moment reserved (record w { disk = disk })
      ]

  -- The part of uploadChunk behind the tests.
  unfoldable pub receive_chunk :
      Moment → UploadSession → ℤ → Bytes → World → Result UploadSession × World
  unfolding write_chunk
  receive_chunk moment session offset chunk w =
      let (reserved, after) =
        reserve_bytes moment.now session.id offset (pos (length chunk)) w.db in
      elim reserved [
        | none ↦ (
          failure conflict
              (lit "another request is writing to this upload; retry after a status check" ∷ []),
          record w { db = after },
        )
        | some s ↦ write_chunk moment s offset chunk (record w { db = after })
      ]

  unfoldable pub upload_chunk :
      Moment → Actor → Bytes → ℤ → Bytes → World → Result UploadSession × World
  unfolding check_chunk receive_chunk
  upload_chunk moment actor session_id offset chunk w =
      elim (session_status actor session_id w.db) [
        | err e ↦ (err e, w)
        | ok session ↦ elim (check_chunk moment.now session offset chunk) [
          | err e ↦ (err e, w)
          | ok _ ↦ receive_chunk moment session offset chunk w
        ]
      ]

unfoldable pub abort_upload : Actor → Bytes → World → VoidResult × World
abort_upload actor session_id w = elim (session_status actor session_id w.db) [
  | err e ↦ (err e, w)
  | ok s ↦ (success, record { db = mark_aborted s.id w.db; disk = discard s.id w.disk })
]

-- The loop of the sweep over the expired sessions, which counts the rows that it deleted.
unfoldable pub reclaim : List UploadSession → World → ℕ × World
reclaim [] w = (0, w)
reclaim (s ∷ ss) w =
    let (deleted, after) = delete_by_id s.id w.db in
    let (reclaimed, last) = reclaim ss (record { db = after; disk = discard s.id w.disk }) in
    (if deleted then suc reclaimed else reclaimed, last)

unfoldable pub sweep_expired_sessions : Moment → World → ℕ × World
unfolding reclaim
sweep_expired_sessions moment w = reclaim (find_expired moment.now sweep_batch w.db) w

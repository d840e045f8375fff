-- ===== src/Upload/Received.antt =====
-- src/services/UploadService.cpp: what a chunk that is accepted has done.
use custom_game_launcher_bac.Base.{
  ℕ, ◌≡◌, refl, sym, subst, ◌∙◌, ap, inl, inr, Bool, true, ◌||◌, Option, some, arith, is_some,
  length, ℤ, pos, ◌+ℤ◌, ◌≤ℤ◌, eq_of_parts, Bytes, eq_bytes_refl, Result, ok, success, find_row,
  find_row_holds, Bool-cases, Option-cases, Result-cases,
}
use custom_game_launcher_bac.Domain.Actor.{Actor}
use custom_game_launcher_bac.Database.{UploadSession, completed, Db}
use custom_game_launcher_bac.Database.Users.{charge_upload, release_upload}
use custom_game_launcher_bac.Database.Blobs.{record_blob, find_by_sha256, is_pending}
use custom_game_launcher_bac.Upload.Stored.{upload_chunk-stored}
use custom_game_launcher_bac.Database.Sessions
use custom_game_launcher_bac.Database.Sessions.{
  reserve_bytes, is_reservable, receive, mark_completed, set_status,
}
use custom_game_launcher_bac.Storage.BlobStore.{storage_key_for, write_at, commit}
use custom_game_launcher_bac.Upload.{UploadEnv, Moment, World}
use custom_game_launcher_bac.Upload.Transfer.{session_status, is_complete}
use custom_game_launcher_bac.Upload.Chunks.{
  record_committed, commit_session, complete_session, finish_chunk, check_chunk, write_chunk,
  receive_chunk, upload_chunk,
}

abbrev pub is_held : Db → Bytes → Bool
is_held db sha256 = is_some (find_by_sha256 db sha256)

record_blob-is_held :
    (now : ℕ) (sha256 : Bytes) (size : ℤ) (key : Bytes) (owner : Option Bytes) (db : Db)
    → is_held (record_blob now sha256 size key owner db).1 sha256 ≡ true
unfolding record_blob find_by_sha256 find_row
record_blob-is_held now sha256 size key owner db = elim (Option-cases (find_by_sha256 db sha256)) [
  | inr (b, held) ↦ rw (held, record_blob) (ap is_some held)
  | inl new ↦ rw (new, record_blob) (rw (eq_bytes_refl sha256) refl)
]

module _ (env : UploadEnv) (moment : Moment) where
  record_committed-is_held :
      (s : UploadSession) (w : World)
      → is_held (record_committed env moment s w).db s.blob_sha256 ≡ true
  unfolding record_committed mark_completed release_upload find_by_sha256
  record_committed-is_held s w =
      let attempt =
        record_blob moment.now s.blob_sha256 s.declared_size_bytes (storage_key_for s.blob_sha256)
          (some s.user_id) w.db in
      let held =
        record_blob-is_held moment.now s.blob_sha256 s.declared_size_bytes
          (storage_key_for s.blob_sha256) (some s.user_id) w.db in
      elim (Bool-cases attempt.0) [
        | inl new ↦ rw (new, record_committed) held
        | inr lost ↦ rw (lost, record_committed) held
      ]

  complete_session-is_held :
      (s : UploadSession) (w : World)
      → (complete_session env moment s w).0 ≡ success
      → is_held (complete_session env moment s w).1.db s.blob_sha256 ≡ true
  unfolding complete_session commit_session mark_completed find_by_sha256
  complete_session-is_held s w done =
      let charge = charge_upload s.user_id s.declared_size_bytes w.db in
      let attempt = commit env.sha256_hex moment.calls s.id s.blob_sha256 w.disk in
      elim (Bool-cases (is_held w.db s.blob_sha256)) [
        | inl held ↦ rw (held, complete_session) held
        | inr new ↦ elim (Bool-cases charge.0) [
          | inr full ↦ ground arith
          | inl paid ↦ elim (Result-cases attempt.0) [
            | inr (e, failed) ↦ ground arith
            | inl (_, moved) ↦
                rw (new, paid, complete_session)
                  (rw (moved, commit_session)
                    (record_committed-is_held s (record { db = charge.1; disk = attempt.1 })))
          ]
        ]
      ]

  -- What the answer says of the session, and the database of its blob.
  abbrev pub Received : ℤ → Bytes → UploadSession → World → Type 0
  Received offset chunk s after =
      (s.received_bytes ≡ offset +ℤ pos (length chunk))
      × (s.received_bytes ≤ℤ s.declared_size_bytes)
      × ((is_pending s.status || is_held after.db s.blob_sha256) ≡ true)

  reserved_row :
      (now : ℕ) (id : Bytes) (offset n : ℤ) (db : Db) (s : UploadSession)
      → (reserve_bytes now id offset n db).0 ≡ some s
      → (s.received_bytes ≡ offset +ℤ n)
        × (s.received_bytes ≤ℤ s.declared_size_bytes)
        × (is_pending s.status ≡ true)
  unfolding reserve_bytes
  reserved_row now id offset n db s h =
      elim (Option-cases (find_row (is_reservable now id offset n) db.upload_sessions)) [
        | inl missing ↦ ground arith
        | inr (found, hit) ↦
            let meets =
              find_row_holds (is_reservable now id offset n) db.upload_sessions found hit in
            let same : receive n found ≡ s = ground arith in
            let at : found.received_bytes ≡ offset =
              eq_of_parts found.received_bytes offset (ground arith) in
            subst
              (λ (r : UploadSession).
                (r.received_bytes ≡ offset +ℤ n)
                × (r.received_bytes ≤ℤ r.declared_size_bytes)
                × (is_pending r.status ≡ true))
              same (ap (λ r. r +ℤ n) at, ground arith, ground arith)
      ]

  finish_chunk-Received :
      (r : UploadSession) (offset : ℤ) (chunk : Bytes) (w : World) (s : UploadSession)
      → r.received_bytes ≡ offset +ℤ pos (length chunk)
      → r.received_bytes ≤ℤ r.declared_size_bytes
      → is_pending r.status ≡ true
      → (finish_chunk env moment r w).0 ≡ ok s
      → Received offset chunk s (finish_chunk env moment r w).1
  unfolding finish_chunk
  finish_chunk-Received r offset chunk w s at within open_session h =
      elim (Bool-cases (is_complete r)) [
        | inr partial ↦
            let same : r ≡ s = ground arith in
            subst (λ (t : UploadSession). Received offset chunk t (finish_chunk env moment r w).1)
              same (at, within, rw open_session refl)
        | inl whole ↦ elim (Result-cases (complete_session env moment r w).0) [
          | inr (e, failed) ↦ ground arith
          | inl (_, passed) ↦
              let same : set_status completed r ≡ s = ground arith in
              let held = complete_session-is_held r w passed in
              let after : (finish_chunk env moment r w).1 ≡ (complete_session env moment r w).1 =
                rw (whole, passed, finish_chunk) refl in
              subst (λ (t : UploadSession). Received offset chunk t (finish_chunk env moment r w).1)
                same (at, within, ap (λ (v : World). is_held v.db r.blob_sha256) after ∙ held)
        ]
      ]

  write_chunk-Received :
      (r : UploadSession) (offset : ℤ) (chunk : Bytes) (w : World) (s : UploadSession)
      → r.received_bytes ≡ offset +ℤ pos (length chunk)
      → r.received_bytes ≤ℤ r.declared_size_bytes
      → is_pending r.status ≡ true
      → (write_chunk env moment r offset chunk w).0 ≡ ok s
      → Received offset chunk s (write_chunk env moment r offset chunk w).1
  unfolding write_chunk
  write_chunk-Received r offset chunk w s at within open_session h =
      let attempt = write_at moment.calls r.id offset chunk w.disk in
      elim (Result-cases attempt.0) [
        | inr (e, failed) ↦ ground arith
        | inl (_, done) ↦
            let finish = finish_chunk env moment r (record w { disk = attempt.1 }) in
            let reached : write_chunk env moment r offset chunk w ≡ finish =
              rw (done, write_chunk) refl in
            subst (λ (a : Result UploadSession × World). Received offset chunk s a.1) (sym reached)
              (finish_chunk-Received r offset chunk (record w { disk = attempt.1 }) s at within
                open_session (ap (λ (a : Result UploadSession × World). a.0) (sym reached) ∙ h))
      ]

  receive_chunk-Received :
      (session : UploadSession) (offset : ℤ) (chunk : Bytes) (w : World) (s : UploadSession)
      → (receive_chunk env moment session offset chunk w).0 ≡ ok s
      → Received offset chunk s (receive_chunk env moment session offset chunk w).1
  unfolding receive_chunk
  receive_chunk-Received session offset chunk w s h =
      let attempt = reserve_bytes moment.now session.id offset (pos (length chunk)) w.db in
      elim (Option-cases attempt.0) [
        | inl missed ↦ ground arith
        | inr (r, hit) ↦
            let (at, within, open_session) =
              reserved_row moment.now session.id offset (pos (length chunk)) w.db r hit in
            let next = record w { db = attempt.1 } in
            let reached : receive_chunk env moment session offset chunk w
                ≡ write_chunk env moment r offset chunk next =
              rw (hit, receive_chunk) refl in
            subst (λ (a : Result UploadSession × World). Received offset chunk s a.1) (sym reached)
              (write_chunk-Received r offset chunk next s at within open_session
                (ap (λ (a : Result UploadSession × World). a.0) (sym reached) ∙ h))
      ]

  upload_chunk-answer :
      (actor : Actor) (session_id : Bytes) (offset : ℤ) (chunk : Bytes) (w : World)
      (s : UploadSession)
      → (upload_chunk env moment actor session_id offset chunk w).0 ≡ ok s
      → Received offset chunk s (upload_chunk env moment actor session_id offset chunk w).1
  unfolding upload_chunk
  upload_chunk-answer actor session_id offset chunk w s h =
      elim (Result-cases (session_status actor session_id w.db)) [
        | inr (e, refused) ↦ ground arith
        | inl (session, found) ↦
            elim (Result-cases (check_chunk env moment.now session offset chunk)) [
              | inr (e, refused) ↦ ground arith
              | inl (_, passed) ↦
                  let reached : upload_chunk env moment actor session_id offset chunk w
                      ≡ receive_chunk env moment session offset chunk w =
                    rw (found, passed, upload_chunk) refl in
                  subst (λ (a : Result UploadSession × World). Received offset chunk s a.1)
                    (sym reached)
                    (receive_chunk-Received session offset chunk w s
                      (ap (λ (a : Result UploadSession × World). a.0) (sym reached) ∙ h))
            ]
      ]

  -- A chunk that is accepted moves the session to exactly the end of the chunk, which lies within the
  -- declared size: that is the row of the session afterwards, and the answer. The session is still
  -- pending, or the database has the row of its blob.
  pub upload_chunk-Received :
      (actor : Actor) (session_id : Bytes) (offset : ℤ) (chunk : Bytes) (w : World)
      (s : UploadSession)
      → (upload_chunk env moment actor session_id offset chunk w).0 ≡ ok s
      → let after = (upload_chunk env moment actor session_id offset chunk w).1 in
        (Sessions.find_by_id after.db session_id ≡ some s) × Received offset chunk s after
  upload_chunk-Received actor session_id offset chunk w s h = (
    upload_chunk-stored env moment actor session_id offset chunk w s h,
    upload_chunk-answer actor session_id offset chunk w s h,
  )

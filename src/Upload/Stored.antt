-- ===== src/Upload/Stored.antt =====
-- src/services/UploadService.cpp: the row of the session to which a chunk is sent.
use custom_game_launcher_bac.Base.{
  eq_bytes_iff, eq_of_parts, ℕ, ◌≡◌, refl, sym, subst, ◌∙◌, ap, inl, inr, ◌&&◌, true, Option, some,
  arith, is_some, length, ℤ, pos, Bytes, Result, ok, success, find_row, update_rows, find_row_holds,
  find_row_narrow, find_row-update_rows, List, Bool-cases, Option-cases, Result-cases,
}
use custom_game_launcher_bac.Domain.Actor.{Actor}
use custom_game_launcher_bac.Database.{UploadSession, completed, Db}
use custom_game_launcher_bac.Database.Users.{charge_upload, release_upload}
use custom_game_launcher_bac.Database.Blobs.{record_blob, find_by_sha256, is_pending}
use custom_game_launcher_bac.Database.Sessions
use custom_game_launcher_bac.Database.Sessions.{
  has_id, reserve_bytes, is_reservable, receive, mark_completed, set_status,
}
use custom_game_launcher_bac.Storage.BlobStore.{storage_key_for, write_at, commit}
use custom_game_launcher_bac.Upload.{UploadEnv, Moment, World}
use custom_game_launcher_bac.Upload.Transfer.{session_status, is_complete}
use custom_game_launcher_bac.Upload.Chunks.{
  record_committed, commit_session, complete_session, finish_chunk, check_chunk, write_chunk,
  receive_chunk, upload_chunk,
}

-- The statements on other tables.
record_blob-sessions :
    (now : ℕ) (sha256 : Bytes) (size : ℤ) (key : Bytes) (owner : Option Bytes) (db : Db)
    → (record_blob now sha256 size key owner db).1.upload_sessions ≡ db.upload_sessions
unfolding record_blob
record_blob-sessions now sha256 size key owner db = ground arith

complete_rows : Bytes → List UploadSession → List UploadSession
complete_rows id = update_rows (λ t. has_id id t && is_pending t.status) (set_status completed)

session_status-row :
    (actor : Actor) (id : Bytes) (db : Db) (s : UploadSession)
    → session_status actor id db ≡ ok s
    → (Sessions.find_by_id db id ≡ some s) × (s.id ≡ id)
unfolding session_status Sessions.find_by_id
session_status-row actor id db s h = elim (Option-cases (Sessions.find_by_id db id)) [
  | inl missing ↦ absurd (ground arith)
  | inr (t, found) ↦
      let same : t ≡ s = ground arith in
      let mine = (eq_bytes_iff t.id id).0 (find_row_holds (has_id id) db.upload_sessions t found) in
      (found ∙ ap some same, subst (λ (u : UploadSession). u.id ≡ id) same mine)
]

module _ (env : UploadEnv) (moment : Moment) where
  record_committed-sessions :
      (s : UploadSession) (w : World)
      → (record_committed env moment s w).db.upload_sessions
        ≡ (mark_completed s.id w.db).upload_sessions
  unfolding record_committed mark_completed release_upload complete_rows
  record_committed-sessions s w =
      let attempt =
        record_blob moment.now s.blob_sha256 s.declared_size_bytes (storage_key_for s.blob_sha256)
          (some s.user_id) w.db in
      let same =
        record_blob-sessions moment.now s.blob_sha256 s.declared_size_bytes
          (storage_key_for s.blob_sha256) (some s.user_id) w.db in
      elim (Bool-cases attempt.0) [
        | inl new ↦ rw (new, record_committed) (ap (complete_rows s.id) same)
        | inr lost ↦ rw (lost, record_committed) (ap (complete_rows s.id) same)
      ]

  complete_session-sessions :
      (s : UploadSession) (w : World)
      → (complete_session env moment s w).0 ≡ success
      → (complete_session env moment s w).1.db.upload_sessions
        ≡ (mark_completed s.id w.db).upload_sessions
  unfolding complete_session commit_session mark_completed charge_upload
  complete_session-sessions s w done =
      let charge = charge_upload s.user_id s.declared_size_bytes w.db in
      let attempt = commit env.sha256_hex moment.calls s.id s.blob_sha256 w.disk in
      elim (Bool-cases (is_some (find_by_sha256 w.db s.blob_sha256))) [
        | inl held ↦ rw (held, complete_session) refl
        | inr new ↦ elim (Bool-cases charge.0) [
          | inr full ↦ ground arith
          | inl paid ↦ elim (Result-cases attempt.0) [
            | inr (e, failed) ↦ ground arith
            | inl (_, moved) ↦
                rw (new, paid, complete_session)
                  (rw (moved, commit_session)
                    (record_committed-sessions s (record { db = charge.1; disk = attempt.1 })))
          ]
        ]
      ]

  finish_chunk-stored :
      (r : UploadSession) (w : World) (s : UploadSession)
      → Sessions.find_by_id w.db r.id ≡ some r
      → is_pending r.status ≡ true
      → (finish_chunk env moment r w).0 ≡ ok s
      → Sessions.find_by_id (finish_chunk env moment r w).1.db r.id ≡ some s
  unfolding finish_chunk Sessions.find_by_id mark_completed
  finish_chunk-stored r w s found open_session h = elim (Bool-cases (is_complete r)) [
    | inr partial ↦
        let same : r ≡ s = ground arith in rw (partial, finish_chunk) (found ∙ ap some same)
    | inl whole ↦ elim (Result-cases (complete_session env moment r w).0) [
      | inr (e, failed) ↦ ground arith
      | inl (_, passed) ↦
          let same : set_status completed r ≡ s = ground arith in
          let mine : has_id r.id r ≡ true = find_row_holds (has_id r.id) _ r found in
          let row =
            find_row-update_rows (has_id r.id) (λ t. has_id r.id t && is_pending t.status)
              (set_status completed) w.db.upload_sessions r (λ t. refl) found in
          rw (whole, passed, finish_chunk)
            (ap (find_row (has_id r.id)) (complete_session-sessions r w passed)
              ∙ row
              ∙ ap some (rw (mine, open_session) same))
    ]
  ]

  write_chunk-stored :
      (r : UploadSession) (offset : ℤ) (chunk : Bytes) (w : World) (s : UploadSession)
      → Sessions.find_by_id w.db r.id ≡ some r
      → is_pending r.status ≡ true
      → (write_chunk env moment r offset chunk w).0 ≡ ok s
      → Sessions.find_by_id (write_chunk env moment r offset chunk w).1.db r.id ≡ some s
  unfolding write_chunk
  write_chunk-stored r offset chunk w s found open_session h =
      let attempt = write_at moment.calls r.id offset chunk w.disk in
      elim (Result-cases attempt.0) [
        | inr (e, failed) ↦ ground arith
        | inl (_, done) ↦
            rw (done, write_chunk)
              (finish_chunk-stored r (record w { disk = attempt.1 }) s found open_session
                (ground arith))
      ]

  -- The session that was tested is the row that is reserved.
  reserved :
      (session : UploadSession) (offset : ℤ) (chunk : Bytes) (db : Db)
      → Sessions.find_by_id db session.id ≡ some session
      → check_chunk env moment.now session offset chunk ≡ success
      → find_row
          (is_reservable moment.now session.id offset (pos (length chunk)))
          db.upload_sessions
        ≡ some session
  unfolding check_chunk Sessions.find_by_id
  reserved session offset chunk db found passed =
      let mine = find_row_holds (has_id session.id) db.upload_sessions session found in
      let open_session : is_pending session.status ≡ true = ground arith in
      let meets : is_reservable moment.now session.id offset (pos (length chunk)) session ≡ true =
        let same : session.received_bytes ≡ offset =
          sym (eq_of_parts offset session.received_bytes (ground arith)) in
        rw (mine, open_session, same) (ground arith) in
      find_row_narrow (has_id session.id)
        (is_reservable moment.now session.id offset (pos (length chunk))) db.upload_sessions session
        (λ t h. ground arith) meets found

  receive_chunk-stored :
      (session : UploadSession) (offset : ℤ) (chunk : Bytes) (w : World) (s : UploadSession)
      → Sessions.find_by_id w.db session.id ≡ some session
      → check_chunk env moment.now session offset chunk ≡ success
      → (receive_chunk env moment session offset chunk w).0 ≡ ok s
      → Sessions.find_by_id (receive_chunk env moment session offset chunk w).1.db session.id
        ≡ some s
  unfolding receive_chunk reserve_bytes Sessions.find_by_id check_chunk
  receive_chunk-stored session offset chunk w s found passed h =
      let p = is_reservable moment.now session.id offset (pos (length chunk)) in
      let r = receive (pos (length chunk)) session in
      let hit = reserved session offset chunk w.db found passed in
      let meets = find_row_holds p w.db.upload_sessions session hit in
      let open_session : is_pending session.status ≡ true = ground arith in
      let row =
        find_row-update_rows (has_id session.id) p (receive (pos (length chunk)))
          w.db.upload_sessions session (λ t. refl) found in
      let next = record w {
        db = record w.db {
          upload_sessions = update_rows p (receive (pos (length chunk))) w.db.upload_sessions;
        };
      } in
      let reached : receive_chunk env moment session offset chunk w
          ≡ write_chunk env moment r offset chunk next =
        rw (hit, receive_chunk) refl in
      rw reached (
        write_chunk-stored r offset chunk next s (row ∙ rw meets refl) open_session
          (ap (λ (a : Result UploadSession × World). a.0) (sym reached) ∙ h))

  -- The row of the session that was named is the one of the answer.
  pub upload_chunk-stored :
      (actor : Actor) (session_id : Bytes) (offset : ℤ) (chunk : Bytes) (w : World)
      (s : UploadSession)
      → (upload_chunk env moment actor session_id offset chunk w).0 ≡ ok s
      → Sessions.find_by_id
          (upload_chunk env moment actor session_id offset chunk w).1.db
          session_id
        ≡ some s
  unfolding upload_chunk
  upload_chunk-stored actor session_id offset chunk w s h =
      elim (Result-cases (session_status actor session_id w.db)) [
        | inr (e, refused) ↦ ground arith
        | inl (session, found) ↦
            elim (Result-cases (check_chunk env moment.now session offset chunk)) [
              | inr (e, refused) ↦ ground arith
              | inl (_, passed) ↦
                  let (row, same) = session_status-row actor session_id w.db session found in
                  let reached : upload_chunk env moment actor session_id offset chunk w
                      ≡ receive_chunk env moment session offset chunk w =
                    rw (found, passed, upload_chunk) refl in
                  rw reached (
                    subst
                      (λ id.
                        Sessions.find_by_id (receive_chunk env moment session offset chunk w).1.db
                          id
                        ≡ some s)
                      same
                      (receive_chunk-stored session offset chunk w s
                        (subst (λ id. Sessions.find_by_id w.db id ≡ some session) (sym same) row)
                        passed (ap (λ (a : Result UploadSession × World). a.0) (sym reached) ∙ h)))
            ]
      ]

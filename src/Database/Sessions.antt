-- ===== src/Database/Sessions.antt =====
-- src/repositories/postgres/PgUploadRepositories.cpp: upload sessions.
use custom_game_launcher_bac.Base.{
  ℕ, ◌+◌, Bool, ◌&&◌, not, List, [], ◌∷◌, Option, none, some, leb, ltb_ℤ, eqb_ℤ, select_rows, take,
  sort_by, is_some, ℤ, pos, ◌+ℤ◌, Bytes, eq_bytes, Result, ok, find_row, update_rows, delete_rows,
  count_rows,
}
use custom_game_launcher_bac.Database.{
  UploadSession, UploadSessionStatus, pending, completed, aborted, Db,
}
use custom_game_launcher_bac.Database.Blobs.{is_pending}

-- expires_at <= now().
abbrev pub is_expired : ℕ → UploadSession → Bool
is_expired now s = leb s.expires_at now

abbrev pub has_id : Bytes → UploadSession → Bool
has_id id s = eq_bytes s.id id

-- The key of the partial unique index on open sessions.
abbrev pub is_open_for : Bytes → Bytes → UploadSession → Bool
is_open_for build_id sha256 s =
    eq_bytes s.build_id build_id && (eq_bytes s.blob_sha256 sha256 && is_pending s.status)

pub record NewUploadSession : Type 0 where
  pub build_id : Bytes
  pub user_id : Bytes
  pub blob_sha256 : Bytes
  pub declared_size_bytes : ℤ
  pub ttl : ℕ

-- INSERT … ON CONFLICT (build_id, blob_sha256) WHERE status = 'pending' DO NOTHING, and the SELECT
-- of the session in the way. It finds that row, so its answer for an empty result is not reached.
unfoldable pub create : ℕ → Bytes → NewUploadSession → Db → Result UploadSession × Db
create now id session db =
    elim (find_row (is_open_for session.build_id session.blob_sha256) db.upload_sessions) [
      | some existing ↦ (ok existing, db)
      | none ↦
          let row : UploadSession = record {
            id = id;
            build_id = session.build_id;
            user_id = session.user_id;
            blob_sha256 = session.blob_sha256;
            declared_size_bytes = session.declared_size_bytes;
            received_bytes = pos 0;
            status = pending;
            expires_at = now + session.ttl;
          } in
          (ok row, record db { upload_sessions = row ∷ db.upload_sessions })
    ]

unfoldable pub find_by_id : Db → Bytes → Option UploadSession
find_by_id db id = find_row (has_id id) db.upload_sessions

-- The WHERE clause of reserveBytes.
abbrev pub is_reservable : ℕ → Bytes → ℤ → ℤ → UploadSession → Bool
is_reservable now id offset byte_count s =
    has_id id s
    && (is_pending s.status
        && (not (is_expired now s)
            && (eqb_ℤ s.received_bytes offset
                && not (ltb_ℤ s.declared_size_bytes (s.received_bytes +ℤ byte_count)))))

abbrev pub receive : ℤ → UploadSession → UploadSession
receive byte_count s = record s { received_bytes = s.received_bytes +ℤ byte_count }

unfoldable pub reserve_bytes : ℕ → Bytes → ℤ → ℤ → Db → Option UploadSession × Db
reserve_bytes now id offset byte_count db =
    let p = is_reservable now id offset byte_count in
    (
      elim (find_row p db.upload_sessions) [ none ↦ none | some s ↦ some (receive byte_count s) ],
      record db { upload_sessions = update_rows p (receive byte_count) db.upload_sessions },
    )

abbrev pub set_status : UploadSessionStatus → UploadSession → UploadSession
set_status status s = record s { status = status }

-- UPDATE upload_sessions SET status = … WHERE id = $1 AND status = 'pending'.
abbrev pub finish : UploadSessionStatus → Bytes → Db → Db
finish status id db = record db {
  upload_sessions =
      update_rows (λ s. has_id id s && is_pending s.status) (set_status status) db.upload_sessions;
}

unfoldable pub mark_completed : Bytes → Db → Db
mark_completed = finish completed

unfoldable pub mark_aborted : Bytes → Db → Db
mark_aborted = finish aborted

unfoldable pub count_open_for_user : ℕ → Db → Bytes → ℕ
count_open_for_user now db user_id =
    count_rows
      (λ (s : UploadSession).
        eq_bytes s.user_id user_id && (is_pending s.status && not (is_expired now s)))
      db.upload_sessions

unfoldable pub delete_by_id : Bytes → Db → Bool × Db
delete_by_id id db = (
  is_some (find_row (has_id id) db.upload_sessions),
  record db { upload_sessions = delete_rows (has_id id) db.upload_sessions },
)

-- ORDER BY expires_at LIMIT $1.
unfoldable pub find_expired : ℕ → ℕ → Db → List UploadSession
find_expired now limit db = take limit (
    sort_by (λ (s : UploadSession). s.expires_at ∷ [])
      (select_rows (λ (s : UploadSession). is_pending s.status && is_expired now s)
        db.upload_sessions))

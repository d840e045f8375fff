-- ===== src/Upload/Transfer.antt =====
-- src/services/UploadService.cpp: the negotiation, and how a session begins.
use custom_game_launcher_bac.Base.{
  Bool, ◌||◌, not, List, [], ◌∷◌, none, some, ltb, leb, if◌then◌else◌, is_some, is_empty, any,
  length, pos, ◌+ℤ◌, ltb_ℤ, Bytes, eq_bytes, Result, VoidResult, ok, err, failure, invalid_input,
  not_found, forbidden, conflict, unauthenticated, quota_exceeded, lit, num, int, refuse_if, ◌>>=◌,
  ◌>>◌,
}
use custom_game_launcher_bac.Domain.Actor.{Actor, can, build_upload}
use custom_game_launcher_bac.Domain.Validation.{is_uuid}
use custom_game_launcher_bac.Domain.Catalog.{BuildOwnership, may_publish_build}
use custom_game_launcher_bac.Domain.Manifest.{is_sha256_hex}
use custom_game_launcher_bac.Database.{UploadSession, Db}
use custom_game_launcher_bac.Database.Users
use custom_game_launcher_bac.Database.Users.{charge_upload, release_upload}
use custom_game_launcher_bac.Database.Blobs.{find_by_sha256, find_missing}
use custom_game_launcher_bac.Database.Sessions
use custom_game_launcher_bac.Database.Sessions.{
  NewUploadSession, is_expired, reserve_bytes, mark_completed, mark_aborted, count_open_for_user,
  find_expired, delete_by_id, set_status,
}
use custom_game_launcher_bac.Database.Builds.{find_ownership, is_uploading}
use custom_game_launcher_bac.Upload.{UploadEnv, BlobDeclaration, Moment}

abbrev pub no_such_build {ℓ} : {A : Type ℓ} → Result A
no_such_build = failure not_found (lit "no such build" ∷ [])

abbrev pub no_such_session {ℓ} : {A : Type ℓ} → Result A
no_such_session = failure not_found (lit "no such upload session" ∷ [])

unfoldable pub writable_build : Actor → Bytes → Db → Result BuildOwnership
writable_build actor build_id db =
    if not (can actor build_upload)
    then failure forbidden (lit "you cannot upload builds" ∷ [])
    else if not (is_uuid build_id)
    then no_such_build
    else elim (find_ownership db build_id) [
      | none ↦ no_such_build
      | some ownership ↦
          if not (may_publish_build ownership actor)
          then no_such_build
          else if not (is_uploading ownership.status)
          then failure conflict (lit "this build has already been finalized" ∷ [])
          else ok ownership
    ]

-- The session is past its last byte.
abbrev pub is_complete : UploadSession → Bool
is_complete s = not (ltb_ℤ s.received_bytes s.declared_size_bytes)

module _ (env : UploadEnv) where
  -- The tests on one declared blob.
  unfoldable pub check_declaration : BlobDeclaration → VoidResult
  check_declaration blob =
      refuse_if (not (is_sha256_hex blob.sha256)) invalid_input
        (lit "sha256 must be 64 lowercase hex characters" ∷ [])
      >> refuse_if
          (ltb_ℤ blob.size_bytes (pos 0) || ltb_ℤ env.settings.max_blob_bytes blob.size_bytes)
          invalid_input
          (lit "a single file may be at most "
            ∷ int env.settings.max_blob_bytes
            ∷ lit " bytes"
            ∷ [])

  -- The loop of missingBlobs: the distinct hashes in the order of the request.
  unfoldable pub candidates : List Bytes → List BlobDeclaration → Result (List Bytes)
  unfolding check_declaration
  candidates seen [] = ok []
  candidates seen (blob ∷ blobs) =
      let repeated = candidates seen blobs in
      let rest = candidates (blob.sha256 ∷ seen) blobs in
      check_declaration blob
      >> (if any (λ s. eq_bytes s blob.sha256) seen
          then repeated
          else rest >>= λ found. ok (blob.sha256 ∷ found))

  unfoldable pub missing_blobs : Actor → Bytes → List BlobDeclaration → Db → Result (List Bytes)
  unfolding writable_build candidates
  missing_blobs actor build_id blobs db =
      writable_build actor build_id db
      >> (if is_empty blobs
          then ok []
          else if ltb env.settings.max_negotiation_batch (length blobs)
          then failure invalid_input (
              lit "ask about at most "
              ∷ num env.settings.max_negotiation_batch
              ∷ lit " blobs per request"
              ∷ [])
          else candidates [] blobs >>= λ hashes. ok (find_missing db hashes))

  -- The part of beginUpload that inserts the session.
  unfoldable pub open_upload :
      Moment → Actor → BuildOwnership → BlobDeclaration → Db → Result UploadSession × Db
  open_upload moment actor build blob db =
      let (session, after) =
        Sessions.create moment.now moment.row_id
          (record {
            build_id = build.build_id;
            user_id = actor.user_id;
            blob_sha256 = blob.sha256;
            declared_size_bytes = blob.size_bytes;
            ttl = env.settings.session_ttl;
          })
          db in
      (
        session >>= λ (s : UploadSession).
            if not (eq_bytes s.user_id actor.user_id)
            then failure conflict (lit "another session is already uploading this file" ∷ [])
            else ok s,
        after,
      )

  -- The tests of beginUpload behind writableBuild.
  unfoldable pub check_begin : Moment → Actor → BlobDeclaration → Db → VoidResult
  unfolding check_declaration
  check_begin moment actor blob db =
      check_declaration blob
      >> refuse_if (is_some (find_by_sha256 db blob.sha256)) conflict
          (lit "the server already holds this content" ∷ [])
      >> refuse_if
          (leb env.settings.max_open_sessions_per_user
            (count_open_for_user moment.now db actor.user_id))
          conflict
          (lit "you have too many uploads in flight; finish or abort one before starting another"
            ∷ [])
      >> elim (Users.find_by_id db actor.user_id) [
        | none ↦ failure unauthenticated (lit "no such account" ∷ [])
        | some user ↦
            refuse_if (ltb_ℤ user.upload_quota_bytes (user.upload_used_bytes +ℤ blob.size_bytes))
              quota_exceeded
              (lit "this upload would take you past your quota of "
                ∷ int user.upload_quota_bytes
                ∷ lit " bytes"
                ∷ [])
      ]

  unfoldable pub begin_upload :
      Moment → Actor → Bytes → BlobDeclaration → Db → Result UploadSession × Db
  unfolding writable_build check_begin open_upload
  begin_upload moment actor build_id blob db = elim (writable_build actor build_id db) [
    | err e ↦ (err e, db)
    | ok build ↦ elim (check_begin moment actor blob db) [
      | err e ↦ (err e, db)
      | ok _ ↦ open_upload moment actor build blob db
    ]
  ]

unfoldable pub session_status : Actor → Bytes → Db → Result UploadSession
session_status actor session_id db =
    if not (is_uuid session_id) then no_such_session else elim (Sessions.find_by_id db session_id) [
      | none ↦ no_such_session
      | some s ↦ if not (eq_bytes s.user_id actor.user_id) then no_such_session else ok s
    ]

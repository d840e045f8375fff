-- ===== src/Upload/Reach.antt =====
-- src/services/UploadService.cpp: sequences of the calls that change its state, and of sweeps.
use custom_game_launcher_bac.Base.{
  ℕ, refl, inl, inr, ◌&&◌, List, [], ◌∷◌, arith, ℤ, pos, ◌≤ℤ◌, Bytes, find_row, Option-cases,
  Result-cases,
}
use custom_game_launcher_bac.Domain.Actor.{Actor}
use custom_game_launcher_bac.Domain.Catalog.{BuildOwnership}
use custom_game_launcher_bac.Database.{UploadSession, BuildRow, aborted}
use custom_game_launcher_bac.Database.Blobs.{find_many}
use custom_game_launcher_bac.Database.Builds
use custom_game_launcher_bac.Database.Builds.{finalize, FinalizedManifest, is_uploading}
use custom_game_launcher_bac.Database.Sessions.{
  create, is_open_for, mark_aborted, delete_by_id, find_expired,
}
use custom_game_launcher_bac.Storage.BlobStore.{discard}
use custom_game_launcher_bac.Upload.{UploadEnv, Moment, World, BlobDeclaration}
use custom_game_launcher_bac.Upload.Transfer.{
  writable_build, session_status, check_declaration, check_begin, open_upload, begin_upload,
}
use custom_game_launcher_bac.Upload.Chunks.{
  upload_chunk, abort_upload, reclaim, sweep_expired_sessions, sweep_batch,
}
use custom_game_launcher_bac.Upload.Publishing.{
  FinalizeBuildCommand, finalize_build, check_command, distinct_hashes, finalized_manifest,
}
use custom_game_launcher_bac.Upload.Sound.{
  IsSound, finish-TablesAreSound, delete_by_id-TablesAreSound,
}
use custom_game_launcher_bac.Upload.Steps.{with_disk, with_tables, upload_chunk-IsSound}

module _ (env : UploadEnv) where
  abort_upload-IsSound :
      (actor : Actor) (session_id : Bytes) (w : World)
      → IsSound env w
      → IsSound env (abort_upload actor session_id w).1
  unfolding abort_upload mark_aborted discard
  abort_upload-IsSound actor session_id w sound =
      elim (Result-cases (session_status actor session_id w.db)) [
        | inr (e, refused) ↦ rw (refused, abort_upload) sound
        | inl (s, found) ↦
            rw (found, abort_upload)
              (with_disk env (mark_aborted s.id w.db) w.disk (discard s.id w.disk) refl (
                with_tables env w (mark_aborted s.id w.db) sound
                  (finish-TablesAreSound w.disk w.db sound.tables aborted s.id)))
      ]

  reclaim-IsSound :
      (ss : List UploadSession) (w : World) → IsSound env w → IsSound env (reclaim ss w).1
  unfolding reclaim discard
  reclaim-IsSound [] w sound = sound
  reclaim-IsSound (s ∷ ss) w sound =
      let after = (delete_by_id s.id w.db).1 in
      reclaim-IsSound ss (record { db = after; disk = discard s.id w.disk })
        (with_disk env after w.disk (discard s.id w.disk) refl (
          with_tables env w after sound
            (delete_by_id-TablesAreSound w.disk w.db sound.tables s.id)))

  open_upload-IsSound :
      (moment : Moment) (actor : Actor) (build : BuildOwnership) (blob : BlobDeclaration)
      (w : World)
      → IsSound env w
      → pos 0 ≤ℤ blob.size_bytes
      → IsSound env (record w { db = (open_upload env moment actor build blob w.db).1 })
  unfolding open_upload create
  open_upload-IsSound moment actor build blob w sound low =
      elim (Option-cases (find_row (is_open_for build.build_id blob.sha256) w.db.upload_sessions)) [
        | inr (s, there) ↦ rw (there, open_upload, create) sound
        | inl free ↦
            rw (free, open_upload, create)
              (record {
                addressed = sound.addressed;
                tables = record {
                  held = sound.tables.held;
                  within = sound.tables.within;
                  bounded = ((omega arith, omega arith), sound.tables.bounded);
                };
              })
      ]

  begin_upload-IsSound :
      (moment : Moment) (actor : Actor) (build_id : Bytes) (blob : BlobDeclaration) (w : World)
      → IsSound env w
      → IsSound env (record w { db = (begin_upload env moment actor build_id blob w.db).1 })
  unfolding begin_upload check_begin check_declaration
  begin_upload-IsSound moment actor build_id blob w sound =
      elim (Result-cases (writable_build actor build_id w.db)) [
        | inr (e, refused) ↦ rw (refused, begin_upload) sound
        | inl (build, writable) ↦ elim (Result-cases (check_begin env moment actor blob w.db)) [
          | inr (e, refused) ↦ rw (writable, refused, begin_upload) sound
          | inl (_, passed) ↦
              rw (writable, passed, begin_upload)
                (open_upload-IsSound moment actor build blob w sound (ground arith))
        ]
      ]

  finalize-IsSound :
      (now : ℕ) (build_id : Bytes) (m : FinalizedManifest) (w : World)
      → IsSound env w
      → IsSound env (record w { db = (finalize now build_id m w.db).1 })
  unfolding finalize
  finalize-IsSound now build_id m w sound =
      elim (Option-cases (
        find_row (λ (b : BuildRow). Builds.has_id build_id b && is_uploading b.status)
          w.db.builds)) [
            | inl missing ↦ rw (missing, finalize) sound
            | inr (b, found) ↦
                rw (found, finalize)
                  (record {
                    addressed = sound.addressed;
                    tables = record {
                      held = sound.tables.held;
                      within = sound.tables.within;
                      bounded = sound.tables.bounded;
                    };
                  })
          ]

  finalize_build-IsSound :
      (moment : Moment) (actor : Actor) (build_id : Bytes) (command : FinalizeBuildCommand)
      (w : World)
      → IsSound env w
      → IsSound env (record w { db = (finalize_build env moment actor build_id command w.db).1 })
  unfolding finalize_build
  finalize_build-IsSound moment actor build_id command w sound =
      let hashes = distinct_hashes [] command.files in
      let records = find_many w.db hashes in
      let m = finalized_manifest env.sha256_hex records command in
      elim (Result-cases (writable_build actor build_id w.db)) [
        | inr (e, refused) ↦ rw (refused, finalize_build) sound
        | inl (build, writable) ↦ elim (Result-cases (check_command records hashes command)) [
          | inr (e, refused) ↦ rw (writable, refused, finalize_build) sound
          | inl (_, passed) ↦
              let kept = finalize-IsSound moment.now build.build_id m w sound in
              elim (Option-cases (finalize moment.now build.build_id m w.db).0) [
                | inl missing ↦ rw (writable, passed, missing, finalize_build) kept
                | inr (b, done) ↦ rw (writable, passed, done, finalize_build) kept
              ]
        ]
      ]

-- One call of beginUpload, uploadChunk, abortUpload or finalizeBuild, or one run of
-- sweepExpiredSessions, and what it leaves.
pub data Step (env : UploadEnv) : World → World → Type 0 where
  begins :
      (moment : Moment) (actor : Actor) (build_id : Bytes) (blob : BlobDeclaration) (w : World)
      → Step env w (record w { db = (begin_upload env moment actor build_id blob w.db).1 })
  sends :
      (moment : Moment) (actor : Actor) (session_id : Bytes) (offset : ℤ) (chunk : Bytes)
      (w : World)
      → Step env w (upload_chunk env moment actor session_id offset chunk w).1
  aborts :
      (actor : Actor) (session_id : Bytes) (w : World)
      → Step env w (abort_upload actor session_id w).1
  finalizes :
      (moment : Moment) (actor : Actor) (build_id : Bytes) (command : FinalizeBuildCommand)
      (w : World)
      → Step env w (record w { db = (finalize_build env moment actor build_id command w.db).1 })
  sweeps : (moment : Moment) (w : World) → Step env w (sweep_expired_sessions moment w).1

pub data Reach (env : UploadEnv) : World → World → Type 0 where
  here : (w : World) → Reach env w w
  after_step : {a b c : World} → Reach env a b → Step env b c → Reach env a c

Step-IsSound : (env : UploadEnv) {a b : World} → Step env a b → IsSound env a → IsSound env b
unfolding sweep_expired_sessions
Step-IsSound env (begins moment actor build_id blob w) sound =
    begin_upload-IsSound env moment actor build_id blob w sound
Step-IsSound env (sends moment actor session_id offset chunk w) sound =
    upload_chunk-IsSound env moment actor session_id offset chunk w sound
Step-IsSound env (aborts actor session_id w) sound =
    abort_upload-IsSound env actor session_id w sound
Step-IsSound env (finalizes moment actor build_id command w) sound =
    finalize_build-IsSound env moment actor build_id command w sound
Step-IsSound env (sweeps moment w) sound =
    reclaim-IsSound env (find_expired moment.now sweep_batch w.db) w sound

-- Any calls of beginUpload, uploadChunk, abortUpload and finalizeBuild and runs of
-- sweepExpiredSessions, one after another and with nothing else in between, so that no quota is
-- changed, take a sound state to a sound state: every blob row has its file in the store, every stored
-- file hashes to its address, no account uses more than its quota or less than nothing, and no session
-- has received less than nothing or more than it declared.
pub Reach-IsSound :
    (env : UploadEnv) {before after : World}
    → Reach env before after
    → IsSound env before
    → IsSound env after
Reach-IsSound env (here w) sound = sound
Reach-IsSound env (after_step run step) sound = Step-IsSound env step (Reach-IsSound env run sound)

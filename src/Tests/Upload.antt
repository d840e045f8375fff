-- ===== src/Tests/Upload.antt =====
-- The theorems on src/services/UploadService.cpp at one build, from its first file to its manifest.
use mathlib.Core.List.{Perm}
use custom_game_launcher_bac.Base.{
  some, update_rows, ◌+ℤ◌, ℕ, ◌≡◌, refl, true, false, List, [], ◌∷◌, map, none, All, arith, pos,
  Bytes, codes, eq_bytes, find_byte, find_row, select_rows, ok,
}
use custom_game_launcher_bac.Domain.Actor.{Actor, can, game_download, owns}
use custom_game_launcher_bac.Domain.Validation.{is_uuid, trim, is_whitespace, is_hex_digit}
use custom_game_launcher_bac.Domain.Catalog.{
  BuildOwnership, ready, windows, x64, uploading, draft, may_publish_build, may_read_build,
}
use custom_game_launcher_bac.Domain.Manifest.{
  ManifestEntry, is_sha256_hex, is_lowercase_hex_digit, validate_manifest, validate_relative_path,
  check_segments, check_segment, check_entries, check_entry, split, cons_head, starts_with_slash,
  has_drive_prefix, is_alpha,
}
use custom_game_launcher_bac.Database.{User, BlobRow, BuildRow, UploadSession, pending, Db}
use custom_game_launcher_bac.Database.Builds.{
  find_ownership, find_by_id, files_for, finalize, set_ready,
}
use custom_game_launcher_bac.Database.Blobs.{find_many}
use custom_game_launcher_bac.Storage.BlobStore.{FileCalls}
use custom_game_launcher_bac.Database.Games.{find_game}
use custom_game_launcher_bac.Database.Games.Versions.{find_version}
use custom_game_launcher_bac.Tests.Owners.{game_with, version_with}
use custom_game_launcher_bac.Upload.{UploadEnv, Moment, World}
use custom_game_launcher_bac.Upload.Transfer.{writable_build, begin_upload}
use custom_game_launcher_bac.Database.Sessions
use custom_game_launcher_bac.Database.Sessions.{reserve_bytes}
use custom_game_launcher_bac.Storage.BlobStore.{write_at, write_into}
use custom_game_launcher_bac.Upload.Transfer.{session_status}
use custom_game_launcher_bac.Upload.Received.{Received, upload_chunk-Received}
use custom_game_launcher_bac.Upload.Chunks.{
  upload_chunk, check_chunk, receive_chunk, write_chunk, finish_chunk,
}
use custom_game_launcher_bac.Upload.Sound.{IsSound}
use custom_game_launcher_bac.Upload.Reach.{
  begins, sends, finalizes, here, after_step, Reach-IsSound,
}
use custom_game_launcher_bac.Upload.Publishing.{
  FinalizeBuildCommand, ManifestDocument, finalize_build, manifest, total_size, finalized_manifest,
  distinct_hashes, check_command, count_sizes, with_sizes, size_of,
}
use custom_game_launcher_bac.Upload.Sizes.{Sized}
use custom_game_launcher_bac.Upload.Complete.{content_of}
use custom_game_launcher_bac.Upload.Served.{manifest-finalize_build, files-finalize_build}
use custom_game_launcher_bac.Tests.Examples.{hash_a, game_exe}

-- A digest with one value.
abbrev env : UploadEnv
env = record {
  settings = record {
    max_blob_bytes = pos 1000;
    max_chunk_bytes = pos 100;
    session_ttl = 500;
    max_open_sessions_per_user = 4;
    max_negotiation_batch = 10;
  };
  sha256_hex = λ content. hash_a;
}

abbrev build_id : Bytes
build_id = codes "11111111-1111-1111-1111-111111111111"

abbrev session_id : Bytes
session_id = codes "22222222-2222-2222-2222-222222222222"

abbrev all_succeed : FileCalls
all_succeed = record {
  directory_made = true;
  file_created = true;
  file_opened = true;
  sought = true;
  written = true;
  arrived = 0;
  hash_opened = true;
  hash_read = true;
  moved = true;
  message = [];
}

abbrev moment_at : ℕ → Moment
moment_at now = record { now = now; row_id = session_id; calls = all_succeed }

abbrev publisher : Actor
publisher = record { user_id = codes "alice"; permissions = "build.upload" ∷ "game.download" ∷ [] }

abbrev alice : User
alice = record {
  id = codes "alice";
  email = codes "a@b.cd";
  display_name = codes "Alice";
  password_hash = [];
  email_verified = true;
  is_active = true;
  password_change_required = false;
  upload_quota_bytes = pos 100;
  upload_used_bytes = pos 0;
  last_login_at = none;
}

abbrev build_row : BuildRow
build_row = record {
  build_id = build_id;
  game_version_id = codes "v1";
  status = uploading;
  name = codes "main";
  platform = windows;
  architecture = x64;
  manifest_sha256 = [];
  total_size_bytes = pos 0;
  file_count = 0;
  entrypoint_relative_path = [];
  default_launch_args = [];
  ready_at = none;
}

abbrev db_with : List BlobRow → Db
db_with blobs = record {
  users = alice ∷ [];
  user_roles = [];
  roles = [];
  refresh_tokens = [];
  user_tokens = [];
  blobs = blobs;
  upload_sessions = [];
  builds = build_row ∷ [];
  build_files = [];
  download_events = [];
  games = game_with (codes "g1") (codes "alice") draft ∷ [];
  game_versions = version_with (codes "v1") (codes "g1") none ∷ [];
  user_games = [];
  account_deletion_requests = [];
  audit_log = [];
}

abbrev start : World
start = record { db = db_with []; disk = record { staging = λ name. none; stored = λ name. none } }

start-IsSound : IsSound env start
start-IsSound = record {
  addressed = λ s content hex found. absurd cc;
  tables = record { held = tt; within = ((omega arith, omega arith), tt); bounded = tt };
}

-- The file of the game, in one chunk, and the manifest that names it.
abbrev begun : World
begun = record start {
  db =
      (begin_upload env (moment_at 10) publisher build_id
        (record { sha256 = hash_a; size_bytes = pos 7 }) start.db).1;
}

abbrev sent : World
sent = (upload_chunk env (moment_at 11) publisher session_id (pos 0) (codes "content") begun).1

abbrev command : FinalizeBuildCommand
command = record {
  files = game_exe ∷ [];
  entrypoint_relative_path = codes "bin/game.exe";
  default_launch_args = [];
}

Reach-IsSound_example :
    IsSound env (record sent {
      db = (finalize_build env (moment_at 12) publisher build_id command sent.db).1;
    })
Reach-IsSound_example =
    Reach-IsSound env
      (after_step
        (after_step
          (after_step (here start) (
            begins (moment_at 10) publisher build_id
              (record { sha256 = hash_a; size_bytes = pos 7 }) start))
          (sends (moment_at 11) publisher session_id (pos 0) (codes "content") begun))
        (finalizes (moment_at 12) publisher build_id command sent))
      start-IsSound

abbrev stocked : Db
stocked = db_with (
    record {
      sha256 = hash_a;
      size_bytes = pos 7;
      storage_key = [];
      created_at = 1;
      uploaded_by_user_id = none;
    }
    ∷ [])

abbrev finished : BuildRow
finished = set_ready 12 (finalized_manifest env.sha256_hex stocked.blobs command) build_row

abbrev after : Db
after = (finalize_build env (moment_at 12) publisher build_id command stocked).1

finalize-succeeds :
    finalize_build env (moment_at 12) publisher build_id command stocked ≡ (ok finished, after)
unfolding finalize_build writable_build find_ownership find_by_id find_version find_game finalize
    find_row eq_bytes can is_uuid may_publish_build is_hex_digit owns validate_manifest
    validate_relative_path trim is_whitespace starts_with_slash has_drive_prefix check_segments
    split check_segment check_entries check_entry is_sha256_hex is_lowercase_hex_digit find_many
    select_rows find_byte is_alpha cons_head check_command count_sizes distinct_hashes size_of
    with_sizes
finalize-succeeds = refl

may-download : can publisher game_download ≡ true
unfolding can
may-download = refl

abbrev owner : BuildOwnership
owner = record {
  build_id = build_id;
  game_version_id = codes "v1";
  game_id = codes "g1";
  publisher_user_id = codes "alice";
  visibility = draft;
  status = ready;
  version_published = false;
}

finished-owned : find_ownership after build_id ≡ some owner
unfolding finalize_build writable_build find_ownership find_by_id find_version find_game finalize
    find_row eq_bytes can is_uuid may_publish_build is_hex_digit owns validate_manifest
    validate_relative_path trim is_whitespace starts_with_slash has_drive_prefix check_segments
    split check_segment check_entries check_entry is_sha256_hex is_lowercase_hex_digit find_many
    select_rows find_byte is_alpha cons_head check_command count_sizes distinct_hashes size_of
    with_sizes update_rows
finished-owned = refl

may-read : may_read_build owner publisher ≡ true
unfolding may_read_build may_publish_build owns eq_bytes
may-read = refl

manifest-finalize_build_example :
    (document : ManifestDocument) × (manifest publisher build_id after ≡ ok document)
    × (document.sha256 ≡ finished.manifest_sha256)
    × (env.sha256_hex document.json ≡ document.sha256)
manifest-finalize_build_example =
    manifest-finalize_build env (moment_at 12) publisher publisher build_id command stocked after
      finished owner tt finalize-succeeds may-download finished-owned may-read

files-finalize_build_example :
    (files : List ManifestEntry) × Perm (files_for after build_id) files
    × (map content_of files ≡ map content_of command.files)
    × All (Sized stocked) files
    × (finished.total_size_bytes ≡ total_size files)
files-finalize_build_example =
    files-finalize_build env (moment_at 12) publisher build_id command stocked after finished tt
      finalize-succeeds

abbrev session_row : UploadSession
session_row = record {
  id = session_id;
  build_id = build_id;
  user_id = codes "alice";
  blob_sha256 = hash_a;
  declared_size_bytes = pos 7;
  received_bytes = pos 0;
  status = pending;
  expires_at = 500;
}

abbrev waiting : World
waiting = record start { db = record start.db { upload_sessions = session_row ∷ [] } }

-- The first three bytes of the seven.
chunk-accepted :
    (upload_chunk env (moment_at 11) publisher session_id (pos 0) (codes "con") waiting).0
    ≡ ok (record session_row { received_bytes = pos 3 })
unfolding upload_chunk session_status Sessions.find_by_id find_row eq_bytes is_uuid is_hex_digit
    check_chunk receive_chunk reserve_bytes write_chunk write_at write_into finish_chunk ◌+ℤ◌
chunk-accepted = refl

upload_chunk-Received_example :
    let last =
      (upload_chunk env (moment_at 11) publisher session_id (pos 0) (codes "con") waiting).1 in
    let row = record session_row { received_bytes = pos 3 } in
    (Sessions.find_by_id last.db session_id ≡ some row)
    × Received env (moment_at 11) (pos 0) (codes "con") row last
upload_chunk-Received_example =
    upload_chunk-Received env (moment_at 11) publisher session_id (pos 0) (codes "con") waiting
      (record session_row { received_bytes = pos 3 }) chunk-accepted

-- ===== src/Tests/Download.antt =====
-- The theorems on src/services/DownloadService.cpp at two builds of one game.
use custom_game_launcher_bac.Base.{
  ◌≡◌, ◌↔◌, refl, true, false, List, [], ◌∷◌, map, none, some, All, pos, Bytes, codes, eq_bytes,
  find_row, ok, sort_by, insert_by, lt_bytes,
}
use custom_game_launcher_bac.Domain.Actor.{Actor, can}
use custom_game_launcher_bac.Domain.Validation.{is_uuid, is_hex_digit}
use custom_game_launcher_bac.Domain.Catalog.{
  BuildOwnership, windows, x64, ready, visible, may_read_build,
}
use custom_game_launcher_bac.Domain.Manifest.{is_sha256_hex, is_lowercase_hex_digit}
use custom_game_launcher_bac.Domain.Delta.{find_path}
use custom_game_launcher_bac.Domain.Delta.Facts.{content, Distinct}
use custom_game_launcher_bac.Domain.Delta.Apply.{run, file_action}
use custom_game_launcher_bac.Database.{BlobRow, BuildRow, BuildFile, Db}
use custom_game_launcher_bac.Database.Blobs.{find_by_sha256}
use custom_game_launcher_bac.Database.Builds.{find_by_id, find_ownership, files_for, entries_of}
use custom_game_launcher_bac.Download.{DownloadEnv, DownloadPlan, InstalledFile, IntegrityReport}
use custom_game_launcher_bac.Download.Plan.{
  downloadable_build, source_of, choose_delta, download_plan, plan,
}
use custom_game_launcher_bac.Download.Verify.{
  check_all_installed, check_installed, observed_at, integrity_report, verify_install,
}
use custom_game_launcher_bac.Download.Signed.{delta_file, IsSigned}
use custom_game_launcher_bac.Download.Applied.{plan_actions, run-plan}
use custom_game_launcher_bac.Download.Repaired.{
  IsInstalled, repaired, verify_install_iff, run-repair,
}
use custom_game_launcher_bac.Tests.Examples.{hash_a, hash_b}
use custom_game_launcher_bac.Database.Games.{find_game}
use custom_game_launcher_bac.Database.Games.Versions.{find_version}
use custom_game_launcher_bac.Tests.Owners.{game_with, version_with}

abbrev env : DownloadEnv
env = record {
  exceeds_threshold = λ part whole. false;
  signing = record {
    public_base_url = codes "http://files.example/blobs/";
    secret = codes "s";
    ttl = 600;
  };
  md5 = λ payload. codes "0123456789abcdef";
}

abbrev old_id : Bytes
old_id = codes "11111111-1111-1111-1111-111111111111"

abbrev new_id : Bytes
new_id = codes "22222222-2222-2222-2222-222222222222"

abbrev player : Actor
player = record { user_id = codes "bob"; permissions = "game.download" ∷ [] }

abbrev owner_of : Bytes → Bytes → BuildOwnership
owner_of id version = record {
  build_id = id;
  game_version_id = version;
  game_id = codes "g1";
  publisher_user_id = codes "alice";
  visibility = visible;
  status = ready;
  version_published = true;
}

abbrev row_of : Bytes → Bytes → BuildRow
row_of id version = record {
  build_id = id;
  game_version_id = version;
  status = ready;
  name = codes "main";
  platform = windows;
  architecture = x64;
  manifest_sha256 = hash_b;
  total_size_bytes = pos 7;
  file_count = 1;
  entrypoint_relative_path = codes "bin/game.exe";
  default_launch_args = [];
  ready_at = some 1;
}

abbrev blob_of : Bytes → BlobRow
blob_of sha256 = record {
  sha256 = sha256;
  size_bytes = pos 7;
  storage_key = [];
  created_at = 1;
  uploaded_by_user_id = none;
}

abbrev file_of : Bytes → Bytes → Bytes → BuildFile
file_of id path sha256 = record {
  build_id = id;
  relative_path = path;
  blob_sha256 = sha256;
  is_executable = false;
}

abbrev db : Db
db = record {
  users = [];
  user_roles = [];
  roles = [];
  refresh_tokens = [];
  user_tokens = [];
  blobs = blob_of hash_a ∷ blob_of hash_b ∷ [];
  upload_sessions = [];
  builds = row_of old_id (codes "v1") ∷ row_of new_id (codes "v2") ∷ [];
  build_files =
      file_of old_id (codes "bin/game.exe") hash_a
      ∷ file_of new_id (codes "bin/game.exe") hash_b
      ∷ file_of new_id (codes "data/a.pak") hash_a
      ∷ [];
  download_events = [];
  games = game_with (codes "g1") (codes "alice") visible ∷ [];
  game_versions =
      version_with (codes "v1") (codes "g1") (some 1)
      ∷ version_with (codes "v2") (codes "g1") (some 1)
      ∷ [];
  user_games = [];
  account_deletion_requests = [];
  audit_log = [];
}

new_files-Distinct : Distinct (files_for db new_id)
unfolding files_for entries_of sort_by insert_by lt_bytes find_by_sha256 find_row eq_bytes find_path
new_files-Distinct = (refl, (refl, tt))

old_readable : downloadable_build player old_id db ≡ ok (owner_of old_id (codes "v1"))
unfolding downloadable_build can is_uuid is_hex_digit find_ownership find_by_id find_version
    find_game find_row eq_bytes may_read_build
old_readable = refl

abbrev made : DownloadPlan
made =
    download_plan env 5 (owner_of new_id (codes "v2")) (row_of new_id (codes "v2"))
      (choose_delta env (files_for db old_id) (files_for db new_id))

plan-succeeds : (plan env 5 player new_id old_id db).0 ≡ ok made
unfolding plan source_of downloadable_build can is_uuid is_hex_digit find_ownership find_by_id
    find_version find_game find_row eq_bytes may_read_build
plan-succeeds = refl

run-plan_example :
    ((p : Bytes)
      → run (plan_actions made) (content (files_for db old_id)) p ≡ content (files_for db new_id) p)
    × All (IsSigned env made.urls_expire_at) made.files
run-plan_example =
    run-plan env 5 player new_id old_id db (owner_of old_id (codes "v1")) made (plan_actions made)
      new_files-Distinct old_readable plan-succeeds (λ a. (λ h. h, λ h. h))

-- A damaged executable, a file that is not there, and a saved game.
abbrev installed : List InstalledFile
installed =
    record { relative_path = codes "bin/game.exe"; sha256 = hash_a }
    ∷ record { relative_path = codes "save/1"; sha256 = hash_a }
    ∷ []

abbrev report : IntegrityReport
report =
    integrity_report env 5 (owner_of new_id (codes "v2")) (row_of new_id (codes "v2"))
      (files_for db new_id) installed

verify-succeeds : verify_install env 5 player new_id installed db ≡ ok report
unfolding verify_install check_all_installed check_installed downloadable_build can is_uuid
    is_hex_digit find_ownership find_by_id find_version find_game find_row eq_bytes may_read_build
    is_sha256_hex is_lowercase_hex_digit
verify-succeeds = refl

verify_install_iff_example :
    (report.intact ≡ true) ↔ All (IsInstalled installed) (files_for db new_id)
verify_install_iff_example =
    verify_install_iff env 5 player new_id installed db report verify-succeeds

run-repair_example :
    run
      (map file_action (map delta_file report.repair))
      (observed_at installed)
      (codes "bin/game.exe")
    ≡ repaired installed (files_for db new_id) (codes "bin/game.exe")
run-repair_example =
    run-repair env 5 player new_id installed db report
      (map file_action (map delta_file report.repair)) new_files-Distinct verify-succeeds
      (λ a. (λ h. h, λ h. h)) (codes "bin/game.exe")

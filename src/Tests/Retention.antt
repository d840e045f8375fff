-- ===== src/Tests/Retention.antt =====
-- The theorem on src/services/RetentionService.cpp at a store with a blob in use and one that is not.
use custom_game_launcher_bac.Base.{
  refl, false, [], ◌∷◌, none, some, pos, Bytes, codes, eq_bytes, find_row,
}
use custom_game_launcher_bac.Domain.Manifest.{is_sha256_hex, is_lowercase_hex_digit}
use custom_game_launcher_bac.Database.{BlobRow, Db}
use custom_game_launcher_bac.Database.Blobs.{find_by_sha256}
use custom_game_launcher_bac.Upload.{World}
use custom_game_launcher_bac.Retention.{RetentionSettings, collect_unreferenced_blobs}
use custom_game_launcher_bac.Retention.Spares.{IsComplete, collect_unreferenced_blobs-IsComplete}
use custom_game_launcher_bac.Tests.Examples.{hash_a, hash_b}

abbrev blob_of : Bytes → BlobRow
blob_of sha256 = record {
  sha256 = sha256;
  size_bytes = pos 7;
  storage_key = [];
  created_at = 1;
  uploaded_by_user_id = some (codes "alice");
}

abbrev db : Db
db = record {
  users = [];
  user_roles = [];
  roles = [];
  refresh_tokens = [];
  user_tokens = [];
  blobs = blob_of hash_a ∷ blob_of hash_b ∷ [];
  upload_sessions = [];
  builds = [];
  build_files =
      record {
        build_id = codes "b1";
        relative_path = codes "bin/game.exe";
        blob_sha256 = hash_a;
        is_executable = false;
      }
      ∷ [];
  download_events = [];
  games = [];
  game_versions = [];
  user_games = [];
  account_deletion_requests = [];
  audit_log = [];
}

abbrev world : World
world = record { db = db; disk = record { staging = λ name. none; stored = λ name. some name } }

abbrev settings : RetentionSettings
settings = record { blob_grace_seconds = 60; batch_size = 10 }

world-IsComplete : IsComplete world
unfolding is_sha256_hex is_lowercase_hex_digit find_by_sha256 find_row eq_bytes
world-IsComplete = record { addresses = (refl, (refl, tt)); files = ((refl, refl, refl), tt) }

collect_unreferenced_blobs-IsComplete_example :
    IsComplete (collect_unreferenced_blobs 1000 settings world).1
collect_unreferenced_blobs-IsComplete_example =
    collect_unreferenced_blobs-IsComplete 1000 settings world world-IsComplete

-- ===== src/Tests/Owners.antt =====
-- Rows of games and versions for the theorems at concrete inputs.
use custom_game_launcher_bac.Base.{ℕ, Option, [], Bytes, codes}
use custom_game_launcher_bac.Domain.Catalog.{GameVisibility, beta}
use custom_game_launcher_bac.Database.{GameRow, VersionRow}

abbrev pub game_with : Bytes → Bytes → GameVisibility → GameRow
game_with id publisher visibility = record {
  id = id;
  slug = codes "maze";
  title = codes "Maze";
  summary = [];
  description = [];
  publisher_user_id = publisher;
  release_date = [];
  visibility = visibility;
  created_at = 1;
}

abbrev pub version_with : Bytes → Bytes → Option ℕ → VersionRow
version_with id game_id published_at = record {
  id = id;
  game_id = game_id;
  semver = codes "1.0.0";
  version_major = 1;
  version_minor = 0;
  version_patch = 0;
  stage = beta;
  release_notes = [];
  published_at = published_at;
  created_at = 2;
}

-- ===== src/Database/Builds.antt =====
-- src/repositories/postgres/PgCatalogRepositories.cpp: the builds and the files of each.
use custom_game_launcher_bac.Base.{
  ℕ, Bool, true, false, ◌&&◌, List, [], ◌∷◌, ◌++◌, map, Option, none, some, is_some, length,
  sort_by, ℤ, Bytes, eq_bytes, find_row, if◌then◌else◌, update_rows,
}
use custom_game_launcher_bac.Domain.Catalog.{BuildStatus, uploading, ready, BuildOwnership}
use custom_game_launcher_bac.Domain.Manifest.{ManifestEntry}
use custom_game_launcher_bac.Database.{GameRow, VersionRow, BuildRow, BuildFile, Db}
use custom_game_launcher_bac.Database.Games.{find_game}
use custom_game_launcher_bac.Database.Games.Versions.{find_version}
use custom_game_launcher_bac.Database.Blobs.{find_by_sha256}

abbrev pub is_uploading : BuildStatus → Bool
is_uploading uploading = true
is_uploading _ = false

abbrev pub is_ready : BuildStatus → Bool
is_ready ready = true
is_ready _ = false

abbrev pub has_id : Bytes → BuildRow → Bool
has_id id b = eq_bytes b.build_id id

unfoldable pub find_by_id : Db → Bytes → Option BuildRow
find_by_id db id = find_row (has_id id) db.builds

abbrev pub ownership_of : BuildRow → VersionRow → GameRow → BuildOwnership
ownership_of b v g = record {
  build_id = b.build_id;
  game_version_id = b.game_version_id;
  game_id = v.game_id;
  publisher_user_id = g.publisher_user_id;
  visibility = g.visibility;
  status = b.status;
  version_published = is_some v.published_at;
}

-- The join of a build with its version and its game.
unfoldable pub find_ownership : Db → Bytes → Option BuildOwnership
unfolding find_by_id find_version find_game
find_ownership db build_id = elim (find_by_id db build_id) [
  | none ↦ none
  | some b ↦ elim (find_version db b.game_version_id) [
    | none ↦ none
    | some v ↦ elim (find_game db v.game_id) [ none ↦ none | some g ↦ some (ownership_of b v g) ]
  ]
]

-- The join of the files with their blobs. The order is that of the bytes of the paths.
unfoldable pub entries_of : Db → Bytes → List BuildFile → List ManifestEntry
unfolding find_by_sha256
entries_of db build_id [] = []
entries_of db build_id (f ∷ fs) =
    let rest = entries_of db build_id fs in
    if eq_bytes f.build_id build_id
    then elim (find_by_sha256 db f.blob_sha256) [
      | none ↦ rest
      | some b ↦
          record {
            relative_path = f.relative_path;
            blob_sha256 = f.blob_sha256;
            size_bytes = b.size_bytes;
            is_executable = f.is_executable;
          }
          ∷ rest
    ]
    else rest

unfoldable pub files_for : Db → Bytes → List ManifestEntry
unfolding entries_of
files_for db build_id =
    sort_by (λ (e : ManifestEntry). e.relative_path) (entries_of db build_id db.build_files)

pub record FinalizedManifest : Type 0 where
  pub files : List ManifestEntry
  pub manifest_sha256 : Bytes
  pub total_size_bytes : ℤ
  pub entrypoint_relative_path : Bytes
  pub default_launch_args : Bytes

abbrev pub set_ready : ℕ → FinalizedManifest → BuildRow → BuildRow
set_ready now manifest b = record b {
  status = ready;
  manifest_sha256 = manifest.manifest_sha256;
  total_size_bytes = manifest.total_size_bytes;
  file_count = length manifest.files;
  entrypoint_relative_path = manifest.entrypoint_relative_path;
  default_launch_args = manifest.default_launch_args;
  ready_at = some now;
}

abbrev pub file_row : Bytes → ManifestEntry → BuildFile
file_row build_id e = record {
  build_id = build_id;
  relative_path = e.relative_path;
  blob_sha256 = e.blob_sha256;
  is_executable = e.is_executable;
}

-- WHERE id = $1 AND status = 'uploading'; the files are inserted where the update matched a row.
unfoldable pub finalize : ℕ → Bytes → FinalizedManifest → Db → Option BuildRow × Db
finalize now build_id manifest db =
    let may_finalize = λ (b : BuildRow). has_id build_id b && is_uploading b.status in
    elim (find_row may_finalize db.builds) [
      | none ↦ (none, db)
      | some b ↦ (
        some (set_ready now manifest b),
        record db {
          builds = update_rows may_finalize (set_ready now manifest) db.builds;
          build_files = map (file_row build_id) manifest.files ++ db.build_files;
        },
      )
    ]

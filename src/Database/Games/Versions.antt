-- ===== src/Database/Games/Versions.antt =====
-- src/repositories/postgres/PgCatalogRepositories.cpp: versions, and the creation of builds.
use package.text.Mathlib.Text.{◌==◌ as eq_text}
use custom_game_launcher_bac.Base.{
  ℕ, Bool, true, false, ◌&&◌, [], ◌∷◌, ◌++◌, Option, none, some, any, pos, if◌then◌else◌, Bytes,
  eq_bytes, Result, ok, failure, conflict, internal, lit, text, find_row, update_rows, delete_rows,
}
use custom_game_launcher_bac.Domain.Catalog.{
  BuildStage, BuildPlatform, BuildArchitecture, uploading,
}
use custom_game_launcher_bac.Domain.Catalog.Words.{platform_word, architecture_word}
use custom_game_launcher_bac.Domain.Semver.{Semver}
use custom_game_launcher_bac.Database.{VersionRow, BuildRow, DownloadEvent, Db}
use custom_game_launcher_bac.Database.Games.{find_game, coalesce, delete_builds}

abbrev pub is_version : Bytes → VersionRow → Bool
is_version id v = eq_bytes v.id id

unfoldable pub find_version : Db → Bytes → Option VersionRow
find_version db id = find_row (is_version id) db.game_versions

pub record NewGameVersion : Type 0 where
  pub game_id : Bytes
  pub version : Semver
  pub stage : BuildStage
  pub release_notes : Bytes
  pub publish : Bool

abbrev pub version_row : ℕ → Bytes → NewGameVersion → VersionRow
version_row now id v = record {
  id = id;
  game_id = v.game_id;
  semver = v.version.text;
  version_major = v.version.major;
  version_minor = v.version.minor;
  version_patch = v.version.patch;
  stage = v.stage;
  release_notes = v.release_notes;
  published_at = if v.publish then some now else none;
  created_at = now;
}

abbrev pub same_version : NewGameVersion → VersionRow → Bool
same_version v row = eq_bytes row.game_id v.game_id && eq_bytes row.semver v.version.text

-- ON CONFLICT (game_id, semver) DO NOTHING. A game that is gone by now is a violation of the foreign
-- key, which the caller sees as an internal error.
unfoldable pub create_version : ℕ → Bytes → NewGameVersion → Db → Result VersionRow × Db
unfolding find_game
create_version now id v db =
    if any (same_version v) db.game_versions
    then (failure conflict (lit "this game already has a version " ∷ text v.version.text ∷ []), db)
    else elim (find_game db v.game_id) [
      | none ↦ (failure internal [], db)
      | some g ↦ (
        ok (version_row now id v),
        record db { game_versions = db.game_versions ++ version_row now id v ∷ [] },
      )
    ]

pub record GameVersionUpdate : Type 0 where
  pub stage : Option BuildStage
  pub release_notes : Option Bytes
  pub published : Option Bool

-- Absent leaves the date alone, true keeps a date that is there, and false withdraws.
abbrev pub publication : ℕ → Option Bool → Option ℕ → Option ℕ
publication now none published_at = published_at
publication now (some true) none = some now
publication now (some true) (some date) = some date
publication now (some false) published_at = none

abbrev pub change_version : ℕ → GameVersionUpdate → VersionRow → VersionRow
change_version now changes v = record v {
  stage = coalesce changes.stage v.stage;
  release_notes = coalesce changes.release_notes v.release_notes;
  published_at = publication now changes.published v.published_at;
}

abbrev pub is_build_of_version : Bytes → BuildRow → Bool
is_build_of_version id b = eq_bytes b.game_version_id id

unfoldable pub update_version : ℕ → Bytes → GameVersionUpdate → Db → Option VersionRow × Db
unfolding find_version
update_version now id changes db = elim (find_version db id) [
  | none ↦ (none, db)
  | some v ↦ (
    some (change_version now changes v),
    record db {
      game_versions = update_rows (is_version id) (change_version now changes) db.game_versions;
    },
  )
]

abbrev pub lose_version : DownloadEvent → DownloadEvent
lose_version e = record e { from_version_id = [] }

unfoldable pub remove_version : Bytes → Db → Bool × Db
unfolding find_version
remove_version id db = elim (find_version db id) [
  | none ↦ (false, db)
  | some v ↦
      let rest = delete_builds (is_build_of_version id) db in
      (
        true,
        record rest {
          game_versions = delete_rows (is_version id) db.game_versions;
          download_events =
              update_rows (λ (e : DownloadEvent). eq_bytes e.from_version_id id) lose_version
                rest.download_events;
        },
      )
]

pub record NewBuild : Type 0 where
  pub game_version_id : Bytes
  pub name : Bytes
  pub platform : BuildPlatform
  pub architecture : BuildArchitecture

abbrev pub build_row : Bytes → NewBuild → BuildRow
build_row id build = record {
  build_id = id;
  game_version_id = build.game_version_id;
  status = uploading;
  name = build.name;
  platform = build.platform;
  architecture = build.architecture;
  manifest_sha256 = [];
  total_size_bytes = pos 0;
  file_count = 0;
  entrypoint_relative_path = [];
  default_launch_args = [];
  ready_at = none;
}

abbrev pub same_target : NewBuild → BuildRow → Bool
same_target build b =
    eq_bytes b.game_version_id build.game_version_id
    && (eq_text (platform_word b.platform) (platform_word build.platform)
        && eq_text (architecture_word b.architecture) (architecture_word build.architecture))

-- ON CONFLICT (game_version_id, platform, architecture) DO NOTHING. A version that is gone by now is a
-- violation of the foreign key, which the caller sees as an internal error.
unfoldable pub create_build : Bytes → NewBuild → Db → Result BuildRow × Db
unfolding find_version
create_build id build db =
    if any (same_target build) db.builds
    then (failure conflict (lit "this version already has a build for that platform" ∷ []), db)
    else elim (find_version db build.game_version_id) [
      | none ↦ (failure internal [], db)
      | some v ↦
          (ok (build_row id build), record db { builds = db.builds ++ build_row id build ∷ [] })
    ]

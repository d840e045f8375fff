-- ===== src/Catalog/Versions.antt =====
-- src/services/CatalogService.cpp: versions, and the builds that hang off them.
use custom_game_launcher_bac.Base.{
  ℕ, Bool, ◌&&◌, not, Option, none, some, is_some, if◌then◌else◌, Bytes, eq_bytes, Result,
  VoidResult, ok,
}
use custom_game_launcher_bac.Domain.Actor.{Actor, game_publish, build_upload}
use custom_game_launcher_bac.Domain.Validation.{trim, is_uuid}
use custom_game_launcher_bac.Domain.Semver.{parse_semver}
use custom_game_launcher_bac.Domain.Catalog.{
  BuildStage, BuildPlatform, BuildArchitecture, may_read_build, may_publish_build,
}
use custom_game_launcher_bac.Database.{GameRow, VersionRow, BuildRow, Db}
use custom_game_launcher_bac.Database.Builds.{find_ownership}
use custom_game_launcher_bac.Database.Games
use custom_game_launcher_bac.Database.Games.Versions as Stored
use custom_game_launcher_bac.Database.Games.Versions.{
  find_version, NewGameVersion, GameVersionUpdate, NewBuild,
}
use custom_game_launcher_bac.Catalog.{
  max_release_notes_length, max_build_name_length, no_such_version, no_such_build, not_yours,
  require, check_length, check_present, editable_game, with,
}
use custom_game_launcher_bac.Catalog.Games.{done_or}

pub record CreateVersionCommand : Type 0 where
  pub semver : Bytes
  pub stage : BuildStage
  pub release_notes : Bytes
  pub publish : Bool

pub record CreateBuildCommand : Type 0 where
  pub version_id : Bytes
  pub name : Bytes
  pub platform : BuildPlatform
  pub architecture : BuildArchitecture

-- A version of another game is reported missing.
unfoldable pub version_of_game : GameRow → Bytes → Db → Result VersionRow
unfolding find_version
version_of_game game version_id db =
    if not (is_uuid version_id) then no_such_version else elim (find_version db version_id) [
      | none ↦ no_such_version
      | some version ↦ if eq_bytes version.game_id game.id then ok version else no_such_version
    ]

abbrev pub check_notes : Bytes → VoidResult
check_notes notes =
    check_length notes max_release_notes_length "releaseNotes" "release_notes_too_long"

unfoldable pub create_version :
    ℕ → Bytes → Actor → Bytes → CreateVersionCommand → Db → Result VersionRow × Db
unfolding editable_game parse_semver check_length Stored.create_version
create_version now id actor game_id command db =
    with (require actor game_publish "you cannot publish games") db (λ _.
      with (editable_game actor game_id db) db (λ game.
        with (parse_semver command.semver) db (λ version.
          with (check_notes command.release_notes) db (λ _.
            Stored.create_version now id
              (record {
                game_id = game.id;
                version = version;
                stage = command.stage;
                release_notes = command.release_notes;
                publish = command.publish;
              })
              db))))

abbrev pub is_empty_update : GameVersionUpdate → Bool
is_empty_update changes =
    not (is_some changes.stage)
    && (not (is_some changes.release_notes) && not (is_some changes.published))

abbrev pub found_version {ℓ} : {A : Type ℓ} → Option A → Result A
found_version none = no_such_version
found_version (some a) = ok a

unfoldable pub update_version :
    ℕ → Actor → Bytes → Bytes → GameVersionUpdate → Db → Result VersionRow × Db
unfolding editable_game version_of_game check_length Stored.update_version
update_version now actor game_id version_id changes db =
    with (require actor game_publish "you cannot publish games") db (λ _.
      with (editable_game actor game_id db) db (λ game.
        with (version_of_game game version_id db) db (λ existing.
          if is_empty_update changes
          then (ok existing, db)
          else with (check_present check_notes changes.release_notes) db (λ _.
            let (updated, after) = Stored.update_version now version_id changes db in
            (found_version updated, after)))))

unfoldable pub delete_version : Actor → Bytes → Bytes → Db → VoidResult × Db
unfolding editable_game version_of_game Stored.remove_version
delete_version actor game_id version_id db = with (editable_game actor game_id db) db (λ game.
    with (version_of_game game version_id db) db
      (λ version. done_or no_such_version (Stored.remove_version version_id db)))

unfoldable pub create_build : Bytes → Actor → Bytes → CreateBuildCommand → Db → Result BuildRow × Db
unfolding editable_game version_of_game check_length Stored.create_build
create_build id actor game_id command db =
    with (require actor build_upload "you cannot upload builds") db (λ _.
      with (editable_game actor game_id db) db (λ game.
        with (version_of_game game command.version_id db) db (λ version.
          with (check_length (trim command.name) max_build_name_length "name" "build_name_too_long")
            db
            (λ _.
              Stored.create_build id
                (record {
                  game_version_id = version.id;
                  name = trim command.name;
                  platform = command.platform;
                  architecture = command.architecture;
                })
                db))))

unfoldable pub delete_build : Actor → Bytes → Db → VoidResult × Db
unfolding find_ownership may_read_build may_publish_build Games.remove_build
delete_build actor build_id db =
    if not (is_uuid build_id) then (no_such_build, db) else elim (find_ownership db build_id) [
      | none ↦ (no_such_build, db)
      | some ownership ↦
          if not (may_read_build ownership actor)
          then (no_such_build, db)
          else if not (may_publish_build ownership actor)
          then (not_yours, db)
          else done_or no_such_build (Games.remove_build build_id db)
    ]

-- ===== src/Tests/Catalog.antt =====
-- The theorems on src/services/CatalogService.cpp at two games of one publisher.
use custom_game_launcher_bac.Base.{
  ◌≡◌, refl, true, false, [], ◌∷◌, none, some, Bytes, codes, eq_bytes, success, ok, failure,
  internal, find_row, pos, forbidden, lit,
}
use custom_game_launcher_bac.Domain.Actor.{Actor, owns, can, manages_any_game}
use custom_game_launcher_bac.Domain.Validation.{is_uuid, is_hex_digit, trim, is_whitespace}
use custom_game_launcher_bac.Domain.Catalog.{BuildOwnership, visible, uploading, windows, x64}
use custom_game_launcher_bac.Database.{GameRow, VersionRow, BuildRow, Db}
use custom_game_launcher_bac.Database.Builds.{find_by_id, find_ownership}
use custom_game_launcher_bac.Database.Games.{GameUpdate, change_game, find_game}
use custom_game_launcher_bac.Database.Games.Owned.{AllOwned}
use custom_game_launcher_bac.Catalog.{with, may_edit_game, editable_game, find_by_id_or_slug}
use custom_game_launcher_bac.Catalog.Games.{update_game, trim_update, check_update}
use custom_game_launcher_bac.Catalog.Versions.{update_version, version_of_game}
use custom_game_launcher_bac.Database.Games.Versions as Stored
use custom_game_launcher_bac.Database.Games.Versions.{GameVersionUpdate}
use custom_game_launcher_bac.Catalog.History.{
  unedited, edited, updates_version, EditHistory-find_ownership,
}
use custom_game_launcher_bac.Catalog.Strangers.{
  deletes_game, perform, is_stranger, perform-stranger,
}
use custom_game_launcher_bac.Catalog.Games.Addressed.{update_game-by_slug}
use custom_game_launcher_bac.Tests.Owners.{game_with, version_with}
use custom_game_launcher_bac.Tests.Administration.{two_operators}

abbrev game_id : Bytes
game_id = codes "00000000-0000-0000-0000-0000000000a1"

abbrev version_id : Bytes
version_id = codes "00000000-0000-0000-0000-0000000000b1"

abbrev the_build : Bytes
the_build = codes "00000000-0000-0000-0000-0000000000c1"

abbrev publisher : Actor
publisher = record { user_id = codes "alice"; permissions = "game.publish" ∷ [] }

abbrev rival : Actor
rival = record { user_id = codes "mallory"; permissions = "game.publish" ∷ [] }

abbrev maze : GameRow
maze = game_with game_id (codes "alice") visible

abbrev first_version : VersionRow
first_version = version_with version_id game_id (some 5)

abbrev first_build : BuildRow
first_build = record {
  build_id = the_build;
  game_version_id = version_id;
  status = uploading;
  name = codes "main";
  platform = windows;
  architecture = x64;
  manifest_sha256 = [];
  total_size_bytes = pos 0;
  file_count = 0;
  entrypoint_relative_path = [];
  default_launch_args = [];
  ready_at = none;
}

abbrev published : Db
published = record two_operators {
  games = maze ∷ [];
  game_versions = first_version ∷ [];
  builds = first_build ∷ [];
}

abbrev new_title : GameUpdate
new_title = record {
  title = some (codes " Mazes ");
  summary = none;
  description = none;
  release_date = none;
  visibility = none;
}

published-AllOwned : AllOwned published
unfolding find_row eq_bytes
published-AllOwned = record {
  versions = (record { game = maze; found = refl }, tt);
  builds = (record { version = first_version; found = refl }, tt);
}

abbrev withdrawal : GameVersionUpdate
withdrawal = record { stage = none; release_notes = none; published = some false }

abbrev withdrawn : Db
withdrawn = (update_version 9 publisher game_id version_id withdrawal published).1

build-stays : find_by_id withdrawn the_build ≡ some first_build
unfolding update_version find_by_id find_row eq_bytes is_uuid is_hex_digit can owns with
    editable_game version_of_game Stored.update_version
build-stays = refl

EditHistory-find_ownership_example :
    (ownership : BuildOwnership) × (find_ownership withdrawn the_build ≡ some ownership)
EditHistory-find_ownership_example =
    EditHistory-find_ownership published withdrawn the_build first_build
      (edited unedited (updates_version 9 publisher game_id version_id withdrawal))
      published-AllOwned build-stays

rival-is_stranger : is_stranger rival (find_by_id_or_slug published game_id) ≡ true
unfolding is_stranger find_by_id_or_slug find_row eq_bytes is_uuid is_hex_digit may_edit_game owns
    manages_any_game can
rival-is_stranger = refl

perform-stranger_example : perform deletes_game rival game_id published ≡ (
  some (record {
    code = forbidden;
    detail = lit "this game belongs to another publisher" ∷ [];
    rule = "";
    rule_args = [];
  }),
  published,
)
unfolding find_by_id_or_slug find_row eq_bytes is_uuid is_hex_digit
perform-stranger_example = perform-stranger deletes_game rival game_id published rival-is_stranger

by_slug : editable_game publisher (codes "maze") published ≡ ok maze
unfolding editable_game find_row eq_bytes is_uuid is_hex_digit owns
by_slug = refl

by_id : editable_game publisher game_id published ≡ ok maze
unfolding editable_game find_row eq_bytes is_uuid is_hex_digit owns
by_id = refl

found : find_game published game_id ≡ some maze
unfolding find_game find_row eq_bytes
found = refl

slug-not_uuid : is_uuid (codes "maze") ≡ false
unfolding is_uuid
slug-not_uuid = refl

id-is_uuid : is_uuid game_id ≡ true
unfolding is_uuid is_hex_digit
id-is_uuid = refl

title-valid : check_update (trim_update new_title) ≡ success
unfolding check_update trim_update trim is_whitespace
title-valid = refl

update_game-by_slug_example :
    (update_game publisher (codes "maze") new_title published ≡ (failure internal [], published))
    × ((update_game publisher game_id new_title published).0
        ≡ ok (change_game (trim_update new_title) maze))
update_game-by_slug_example =
    update_game-by_slug publisher (codes "maze") new_title maze published by_slug by_id found
      slug-not_uuid id-is_uuid refl title-valid

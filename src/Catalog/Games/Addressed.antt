-- ===== src/Catalog/Games/Addressed.antt =====
-- src/services/CatalogService.cpp: updateGame, by the two names of a game.
use custom_game_launcher_bac.Base.{
  ◌≡◌, refl, true, false, [], some, Bytes, ok, success, failure, internal,
}
use custom_game_launcher_bac.Domain.Actor.{Actor}
use custom_game_launcher_bac.Domain.Validation.{is_uuid}
use custom_game_launcher_bac.Database.{GameRow, Db}
use custom_game_launcher_bac.Database.Games
use custom_game_launcher_bac.Database.Games.{GameUpdate, change_game, find_game}
use custom_game_launcher_bac.Catalog.{with, editable_game}
use custom_game_launcher_bac.Catalog.Games.{is_empty_update, trim_update, check_update, update_game}

-- A publisher edits a game with changes that pass the tests. Under the id of the game the answer is the
-- changed row; under its slug, which finds the same game, the answer is an internal error and nothing
-- is changed.
pub update_game-by_slug :
    (actor : Actor) (slug : Bytes) (changes : GameUpdate) (game : GameRow) (db : Db)
    → editable_game actor slug db ≡ ok game
    → editable_game actor game.id db ≡ ok game
    → find_game db game.id ≡ some game
    → is_uuid slug ≡ false
    → is_uuid game.id ≡ true
    → is_empty_update changes ≡ false
    → check_update (trim_update changes) ≡ success
    → (update_game actor slug changes db ≡ (failure internal [], db))
      × ((update_game actor game.id changes db).0 ≡ ok (change_game (trim_update changes) game))
unfolding update_game with Games.update_game
update_game-by_slug actor slug changes game db by_slug by_id found no_uuid uuid changed valid =
    (rw (by_slug, changed, valid, no_uuid) refl, rw (by_id, changed, valid, uuid, found) refl)

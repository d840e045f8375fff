-- ===== src/Catalog/Games.antt =====
-- src/services/CatalogService.cpp: createGame, updateGame, deleteGame and the library. The pictures of a
-- deleted game are not modelled.
pub mod Addressed
use custom_game_launcher_bac.Base.{
  ℕ, Bool, true, false, ◌&&◌, not, [], ◌∷◌, Option, none, some, is_some, is_empty, if◌then◌else◌,
  map, Bytes, Result, VoidResult, ok, err, success, failure, not_found, lit, ◌>>=◌, ◌>>◌,
}
use mathlib.Core.Option
use custom_game_launcher_bac.Domain.Actor.{
  Actor, can, game_publish, library_manage, game_read, library_read,
}
use custom_game_launcher_bac.Domain.Validation.{trim, is_uuid}
use custom_game_launcher_bac.Domain.Catalog.{GameVisibility, slugify, validate_slug}
use custom_game_launcher_bac.Database.{GameRow, Db}
use custom_game_launcher_bac.Database.Games
use custom_game_launcher_bac.Database.Games.Library.{library_add, library_remove}
use custom_game_launcher_bac.Database.Games.{NewGame, GameUpdate}
use custom_game_launcher_bac.Catalog.{
  max_summary_length, max_description_length, no_such_game, require, check_length, check_title,
  check_optional_date, check_present, visible_game, editable_game, with,
}

pub record CreateGameCommand : Type 0 where
  pub title : Bytes
  pub slug : Bytes
  pub summary : Bytes
  pub description : Bytes
  pub release_date : Bytes
  pub visibility : GameVisibility

-- The fields of the new game, trimmed, with a slug made of the title where none is given.
unfoldable pub new_game : Actor → CreateGameCommand → NewGame
new_game actor command = record {
  slug = if is_empty (trim command.slug) then slugify (trim command.title) else trim command.slug;
  title = trim command.title;
  summary = trim command.summary;
  description = command.description;
  publisher_user_id = actor.user_id;
  release_date = trim command.release_date;
  visibility = command.visibility;
}

unfoldable pub check_new_game : NewGame → VoidResult
unfolding check_title check_length check_optional_date validate_slug
check_new_game game =
    check_title game.title
    >> check_length game.summary max_summary_length "summary" "summary_too_long"
    >> check_length game.description max_description_length "description" "description_too_long"
    >> check_optional_date game.release_date
    >> validate_slug game.slug

unfoldable pub trim_update : GameUpdate → GameUpdate
trim_update changes = record changes {
  title = Option.map trim changes.title;
  release_date = Option.map trim changes.release_date;
}

abbrev pub is_empty_update : GameUpdate → Bool
is_empty_update changes =
    not (is_some changes.title)
    && (not (is_some changes.summary)
        && (not (is_some changes.description)
            && (not (is_some changes.release_date) && not (is_some changes.visibility))))

-- The tests of a trimmed update.
unfoldable pub check_update : GameUpdate → VoidResult
unfolding check_title check_length check_optional_date
check_update changes =
    check_present check_title changes.title
    >> check_present (λ s. check_length s max_summary_length "summary" "summary_too_long")
        changes.summary
    >> check_present
        (λ d. check_length d max_description_length "description" "description_too_long")
        changes.description
    >> check_present check_optional_date changes.release_date

abbrev pub found_game {ℓ} : {A : Type ℓ} → Option A → Result A
found_game none = no_such_game
found_game (some a) = ok a

abbrev pub done_or {ℓ} : {S : Type ℓ} → VoidResult → Bool × S → VoidResult × S
done_or refusal (done, after) = (if done then success else refusal, after)

unfoldable pub create_game : ℕ → Bytes → Actor → CreateGameCommand → Db → Result GameRow × Db
unfolding new_game check_new_game Games.create_game
create_game now id actor command db =
    with (require actor game_publish "you cannot publish games") db (λ _.
      with (check_new_game (new_game actor command)) db
        (λ _. Games.create_game now id (new_game actor command) db))

unfoldable pub update_game : Actor → Bytes → GameUpdate → Db → Result GameRow × Db
unfolding editable_game trim_update check_update Games.update_game
update_game actor game_id changes db = with (editable_game actor game_id db) db (λ existing.
    if is_empty_update changes
    then (ok existing, db)
    else with (check_update (trim_update changes)) db (λ _.
      let (updated, after) = Games.update_game game_id (trim_update changes) db in
      (updated >>= found_game, after)))

unfoldable pub delete_game : Actor → Bytes → Db → VoidResult × Db
unfolding editable_game Games.remove_game
delete_game actor id_or_slug db =
    with (editable_game actor id_or_slug db) db
      (λ game. done_or no_such_game (Games.remove_game game.id db))

unfoldable pub add_to_library : Actor → Bytes → Db → VoidResult × Db
unfolding visible_game library_add
add_to_library actor game_id db =
    with (require actor library_manage "you cannot change your library") db (λ _.
      with (visible_game actor game_id db) db
        (λ game. done_or no_such_game (library_add actor.user_id game.id db)))

abbrev pub not_in_library : VoidResult
not_in_library = failure not_found (lit "that game is not in your library" ∷ [])

unfoldable pub remove_from_library : Actor → Bytes → Db → VoidResult × Db
unfolding library_remove
remove_from_library actor game_id db =
    with (require actor library_manage "you cannot change your library") db (λ _.
      if not (is_uuid game_id)
      then (not_in_library, db)
      else done_or not_in_library (library_remove actor.user_id game_id db))

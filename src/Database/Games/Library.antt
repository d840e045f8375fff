-- ===== src/Database/Games/Library.antt =====
-- src/repositories/postgres/PgCatalogRepositories.cpp: the library of each account.
use custom_game_launcher_bac.Base.{
  Bool, true, false, ◌&&◌, ◌∷◌, any, is_some, if◌then◌else◌, Bytes, eq_bytes, delete_rows,
}
use custom_game_launcher_bac.Database.{Db}
use custom_game_launcher_bac.Database.Games.{find_game}

abbrev pub is_entry : Bytes → Bytes → Bytes × Bytes → Bool
is_entry user_id game_id (user, game) = eq_bytes user user_id && eq_bytes game game_id

unfoldable pub library_contains : Db → Bytes → Bytes → Bool
library_contains db user_id game_id = any (is_entry user_id game_id) db.user_games

-- The game has to exist, and an entry that is there already is left as it is.
unfoldable pub library_add : Bytes → Bytes → Db → Bool × Db
unfolding library_contains find_game
library_add user_id game_id db =
    if library_contains db user_id game_id
    then (true, db)
    else if is_some (find_game db game_id)
    then (true, record db { user_games = (user_id, game_id) ∷ db.user_games })
    else (false, db)

unfoldable pub library_remove : Bytes → Bytes → Db → Bool × Db
unfolding library_contains
library_remove user_id game_id db =
    if library_contains db user_id game_id
    then (true, record db { user_games = delete_rows (is_entry user_id game_id) db.user_games })
    else (false, db)

-- ===== src/Database/Games.antt =====
-- src/repositories/postgres/PgCatalogRepositories.cpp: games, and the removal of a build. Versions and
-- Library are modules of their own. The display name of a publisher, the artwork and the patch notes of
-- a game are not modelled.
pub mod Owned
pub mod Versions
pub mod Library
use package.text.Mathlib.Text.{◌==◌ as eq_text}
use custom_game_launcher_bac.Base.{
  ℕ, Bool, true, false, ◌&&◌, not, List, [], ◌∷◌, ◌++◌, Option, none, some, any, is_some, is_empty,
  pos, if◌then◌else◌, Bytes, eq_bytes, Result, ok, failure, conflict, internal, lit, text, find_row,
  update_rows, delete_rows, select_rows,
}
use custom_game_launcher_bac.Domain.Catalog.{
  GameVisibility, BuildStage, BuildPlatform, BuildArchitecture, uploading, BuildOwnership,
}
use custom_game_launcher_bac.Domain.Catalog.Words.{platform_word, architecture_word}
use custom_game_launcher_bac.Domain.Validation.{is_uuid}
use custom_game_launcher_bac.Domain.Semver.{Semver}
use custom_game_launcher_bac.Database.{
  GameRow, VersionRow, BuildRow, BuildFile, UploadSession, DownloadEvent, Db,
}

abbrev pub is_game : Bytes → GameRow → Bool
is_game id g = eq_bytes g.id id

unfoldable pub find_game : Db → Bytes → Option GameRow
find_game db id = find_row (is_game id) db.games

unfoldable pub find_game_by_slug : Db → Bytes → Option GameRow
find_game_by_slug db slug = find_row (λ g. eq_bytes g.slug slug) db.games

pub record NewGame : Type 0 where
  pub slug : Bytes
  pub title : Bytes
  pub summary : Bytes
  pub description : Bytes
  pub publisher_user_id : Bytes
  pub release_date : Bytes
  pub visibility : GameVisibility

abbrev pub game_row : ℕ → Bytes → NewGame → GameRow
game_row now id game = record {
  id = id;
  slug = game.slug;
  title = game.title;
  summary = game.summary;
  description = game.description;
  publisher_user_id = game.publisher_user_id;
  release_date = game.release_date;
  visibility = game.visibility;
  created_at = now;
}

-- ON CONFLICT (slug) DO NOTHING. `id` is the gen_random_uuid() of the row.
unfoldable pub create_game : ℕ → Bytes → NewGame → Db → Result GameRow × Db
unfolding find_game_by_slug
create_game now id game db = elim (find_game_by_slug db game.slug) [
  | some taken ↦ (failure conflict (lit "a game with that slug already exists" ∷ []), db)
  | none ↦ (ok (game_row now id game), record db { games = db.games ++ game_row now id game ∷ [] })
]

pub record GameUpdate : Type 0 where
  pub title : Option Bytes
  pub summary : Option Bytes
  pub description : Option Bytes
  pub release_date : Option Bytes
  pub visibility : Option GameVisibility

-- COALESCE(change, column).
abbrev pub coalesce {ℓ} : {A : Type ℓ} → Option A → A → A
coalesce none old = old
coalesce (some new) old = new

abbrev pub change_game : GameUpdate → GameRow → GameRow
change_game changes g = record g {
  title = coalesce changes.title g.title;
  summary = coalesce changes.summary g.summary;
  description = coalesce changes.description g.description;
  release_date = coalesce changes.release_date g.release_date;
  visibility = coalesce changes.visibility g.visibility;
}

-- A text that is no uuid fails the cast of `id = $1::uuid`, and the statement raises an error.
unfoldable pub update_game : Bytes → GameUpdate → Db → Result (Option GameRow) × Db
unfolding find_game
update_game id changes db =
    if not (is_uuid id) then (failure internal [], db) else elim (find_game db id) [
      | none ↦ (ok none, db)
      | some g ↦ (
        ok (some (change_game changes g)),
        record db { games = update_rows (is_game id) (change_game changes) db.games },
      )
    ]

-- The builds that go with the versions of a game.
abbrev pub is_build_of_game : Db → Bytes → BuildRow → Bool
is_build_of_game db id b =
    any (λ (v : VersionRow). eq_bytes v.id b.game_version_id && eq_bytes v.game_id id)
      db.game_versions

-- DELETE FROM builds, with the cascade to its files and upload sessions. A download event keeps its
-- row and loses the build; the empty text stands for null.
abbrev pub is_doomed : (BuildRow → Bool) → Db → Bytes → Bool
is_doomed p db build_id = any (λ b. p b && eq_bytes b.build_id build_id) db.builds

abbrev pub lose_build : DownloadEvent → DownloadEvent
lose_build e = record e { build_id = [] }

abbrev pub delete_builds : (BuildRow → Bool) → Db → Db
delete_builds p db = record db {
  builds = delete_rows p db.builds;
  build_files = delete_rows (λ (f : BuildFile). is_doomed p db f.build_id) db.build_files;
  upload_sessions =
      delete_rows (λ (s : UploadSession). is_doomed p db s.build_id) db.upload_sessions;
  download_events =
      update_rows (λ (e : DownloadEvent). is_doomed p db e.build_id) lose_build db.download_events;
}

unfoldable pub remove_build : Bytes → Db → Bool × Db
remove_build id db =
    let p = λ (b : BuildRow). eq_bytes b.build_id id in
    elim (find_row p db.builds) [ none ↦ (false, db) | some b ↦ (true, delete_builds p db) ]

unfoldable pub remove_game : Bytes → Db → Bool × Db
unfolding find_game
remove_game id db = elim (find_game db id) [
  | none ↦ (false, db)
  | some g ↦
      let rest = delete_builds (is_build_of_game db id) db in
      (
        true,
        record rest {
          games = delete_rows (is_game id) db.games;
          game_versions = delete_rows (λ (v : VersionRow). eq_bytes v.game_id id) db.game_versions;
          user_games = delete_rows (λ ((_, game) : Bytes × Bytes). eq_bytes game id) db.user_games;
          download_events =
              delete_rows (λ (e : DownloadEvent). eq_bytes e.game_id id) rest.download_events;
        },
      )
]

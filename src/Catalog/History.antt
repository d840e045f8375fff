-- ===== src/Catalog/History.antt =====
-- Calls of src/services/CatalogService.cpp in any order, between the statements with which the upload
-- service finalizes a build.
use custom_game_launcher_bac.Base.{some, ℕ, ◌≡◌, inl, inr, Bytes, Bool-cases, Option-cases, is_some}
use custom_game_launcher_bac.Domain.Validation.{is_uuid}
use custom_game_launcher_bac.Domain.Actor.{Actor}
use custom_game_launcher_bac.Domain.Catalog.{BuildOwnership, may_read_build, may_publish_build}
use custom_game_launcher_bac.Database.{BuildRow, Db}
use custom_game_launcher_bac.Database.Builds
use custom_game_launcher_bac.Database.Builds.{FinalizedManifest, find_by_id, find_ownership}
use custom_game_launcher_bac.Database.Games.{find_game, GameUpdate}
use custom_game_launcher_bac.Database.Games.Versions.{GameVersionUpdate}
use custom_game_launcher_bac.Database.Games.Library.{library_add, library_remove, library_contains}
use custom_game_launcher_bac.Database.Games.Owned.{AllOwned, find_ownership-owned}
use custom_game_launcher_bac.Database.Games.Owned.{
  create_game-AllOwned, update_game-AllOwned, remove_game-AllOwned, create_version-AllOwned,
  update_version-AllOwned, remove_version-AllOwned, create_build-AllOwned, remove_build-AllOwned,
  finalize-AllOwned,
}
use custom_game_launcher_bac.Catalog.{with-keeps}
use custom_game_launcher_bac.Catalog.Games
use custom_game_launcher_bac.Catalog.Versions
use custom_game_launcher_bac.Catalog.Games.{
  CreateGameCommand, create_game, update_game, delete_game, add_to_library, remove_from_library,
}
use custom_game_launcher_bac.Catalog.Versions.{
  CreateVersionCommand, CreateBuildCommand, create_version, update_version, delete_version,
  create_build, delete_build,
}

-- One call. `id` is the identifier that the database draws for a new row.
pub data Edit (db : Db) : Db → Type 0 where
  creates_game :
      (now : ℕ) (id : Bytes) (actor : Actor) (command : CreateGameCommand)
      → Edit db (create_game now id actor command db).1
  updates_game :
      (actor : Actor) (game_id : Bytes) (changes : GameUpdate)
      → Edit db (update_game actor game_id changes db).1
  deletes_game : (actor : Actor) (id_or_slug : Bytes) → Edit db (delete_game actor id_or_slug db).1
  adds_to_library : (actor : Actor) (game_id : Bytes) → Edit db (add_to_library actor game_id db).1
  removes_from_library :
      (actor : Actor) (game_id : Bytes) → Edit db (remove_from_library actor game_id db).1
  creates_version :
      (now : ℕ) (id : Bytes) (actor : Actor) (game_id : Bytes) (command : CreateVersionCommand)
      → Edit db (create_version now id actor game_id command db).1
  updates_version :
      (now : ℕ) (actor : Actor) (game_id version_id : Bytes) (changes : GameVersionUpdate)
      → Edit db (update_version now actor game_id version_id changes db).1
  deletes_version :
      (actor : Actor) (game_id version_id : Bytes)
      → Edit db (delete_version actor game_id version_id db).1
  creates_build :
      (id : Bytes) (actor : Actor) (game_id : Bytes) (command : CreateBuildCommand)
      → Edit db (create_build id actor game_id command db).1
  deletes_build : (actor : Actor) (build_id : Bytes) → Edit db (delete_build actor build_id db).1
  finalizes :
      (now : ℕ) (build_id : Bytes) (manifest : FinalizedManifest)
      → Edit db (Builds.finalize now build_id manifest db).1

pub data EditHistory (start : Db) : Db → Type 0 where
  unedited : EditHistory start start
  edited : {db after : Db} → EditHistory start db → Edit db after → EditHistory start after

module _ (db : Db) (owned : AllOwned db) where
  library_add-AllOwned : (user_id game_id : Bytes) → AllOwned (library_add user_id game_id db).1
  unfolding library_add
  library_add-AllOwned user_id game_id = elim (Bool-cases (library_contains db user_id game_id)) [
    | inl there ↦ rw (there, library_add) owned
    | inr absent ↦
        rw (absent, library_add)
          (elim (Bool-cases (is_some (find_game db game_id))) [
            | inl found ↦ rw found (record { versions = owned.versions; builds = owned.builds })
            | inr missing ↦ rw missing owned
          ])
  ]

  library_remove-AllOwned :
      (user_id game_id : Bytes) → AllOwned (library_remove user_id game_id db).1
  unfolding library_remove
  library_remove-AllOwned user_id game_id =
      elim (Bool-cases (library_contains db user_id game_id)) [
        | inl there ↦
            rw (there, library_remove) (record { versions = owned.versions; builds = owned.builds })
        | inr absent ↦ rw (absent, library_remove) owned
      ]

  delete_build-AllOwned :
      (actor : Actor) (build_id : Bytes) → AllOwned (delete_build actor build_id db).1
  unfolding delete_build
  delete_build-AllOwned actor build_id = elim (Bool-cases (is_uuid build_id)) [
    | inl uuid ↦
        rw (uuid, delete_build)
          (elim (Option-cases (find_ownership db build_id)) [
            | inl missing ↦ rw missing owned
            | inr (o, found) ↦ rw found (elim (Bool-cases (may_read_build o actor)) [
              | inl readable ↦ rw readable (elim (Bool-cases (may_publish_build o actor)) [
                | inl allowed ↦ rw allowed (remove_build-AllOwned db owned build_id)
                | inr denied ↦ rw denied owned
              ])
              | inr hidden ↦ rw hidden owned
            ])
          ])
    | inr malformed ↦ rw (malformed, delete_build) owned
  ]

Edit-AllOwned : {db after : Db} → Edit db after → AllOwned db → AllOwned after
unfolding create_game update_game delete_game create_version update_version delete_version
    create_build add_to_library remove_from_library
Edit-AllOwned {db} (creates_game now id actor command) owned =
    with-keeps AllOwned db _ _ owned
      (λ _. with-keeps AllOwned db _ _ owned (λ _. create_game-AllOwned db owned now id _))
Edit-AllOwned {db} (updates_game actor game_id changes) owned =
    with-keeps AllOwned db _ _ owned (λ game. elim (Bool-cases (Games.is_empty_update changes)) [
      | inl nothing ↦ rw nothing owned
      | inr something ↦ rw something (
          with-keeps AllOwned db _ _ owned
            (λ _. update_game-AllOwned db owned game_id (Games.trim_update changes)))
    ])
Edit-AllOwned {db} (deletes_game actor id_or_slug) owned =
    with-keeps AllOwned db _ _ owned (λ game. remove_game-AllOwned db owned game.id)
Edit-AllOwned {db} (adds_to_library actor game_id) owned = with-keeps AllOwned db _ _ owned (λ _.
    with-keeps AllOwned db _ _ owned (λ game. library_add-AllOwned db owned actor.user_id game.id))
Edit-AllOwned {db} (removes_from_library actor game_id) owned =
    with-keeps AllOwned db _ _ owned (λ _. elim (Bool-cases (is_uuid game_id)) [
      | inl uuid ↦ rw uuid (library_remove-AllOwned db owned actor.user_id game_id)
      | inr malformed ↦ rw malformed owned
    ])
Edit-AllOwned {db} (creates_version now id actor game_id command) owned =
    with-keeps AllOwned db _ _ owned (λ _. with-keeps AllOwned db _ _ owned (λ game.
      with-keeps AllOwned db _ _ owned (λ version.
        with-keeps AllOwned db _ _ owned (λ _. create_version-AllOwned db owned now id _))))
Edit-AllOwned {db} (updates_version now actor game_id version_id changes) owned =
    with-keeps AllOwned db _ _ owned (λ _. with-keeps AllOwned db _ _ owned (λ game.
      with-keeps AllOwned db _ _ owned (λ version.
        elim (Bool-cases (Versions.is_empty_update changes)) [
          | inl nothing ↦ rw nothing owned
          | inr something ↦ rw something (
              with-keeps AllOwned db _ _ owned
                (λ _. update_version-AllOwned db owned now version_id changes))
        ])))
Edit-AllOwned {db} (deletes_version actor game_id version_id) owned =
    with-keeps AllOwned db _ _ owned (λ game.
      with-keeps AllOwned db _ _ owned (λ version. remove_version-AllOwned db owned version_id))
Edit-AllOwned {db} (creates_build id actor game_id command) owned =
    with-keeps AllOwned db _ _ owned (λ _. with-keeps AllOwned db _ _ owned (λ game.
      with-keeps AllOwned db _ _ owned
        (λ version. with-keeps AllOwned db _ _ owned (λ _. create_build-AllOwned db owned id _))))
Edit-AllOwned {db} (deletes_build actor build_id) owned =
    delete_build-AllOwned db owned actor build_id
Edit-AllOwned {db} (finalizes now build_id manifest) owned =
    finalize-AllOwned db owned now build_id manifest

EditHistory-AllOwned :
    {start after : Db} → EditHistory start after → AllOwned start → AllOwned after
EditHistory-AllOwned unedited owned = owned
EditHistory-AllOwned (edited history edit) owned =
    Edit-AllOwned edit (EditHistory-AllOwned history owned)

-- After any calls on a database in which every build has a version and every version a game,
-- findOwnership finds the ownership of every build that is there: no call leaves a build behind whose
-- version or game it takes away.
pub EditHistory-find_ownership :
    (start after : Db) (build_id : Bytes) (build : BuildRow)
    → EditHistory start after
    → AllOwned start
    → find_by_id after build_id ≡ some build
    → (ownership : BuildOwnership) × (find_ownership after build_id ≡ some ownership)
EditHistory-find_ownership start after build_id build history owned =
    find_ownership-owned after build_id build (EditHistory-AllOwned history owned)

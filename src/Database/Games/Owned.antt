-- ===== src/Database/Games/Owned.antt =====
-- src/repositories/postgres/PgCatalogRepositories.cpp: each statement leaves every build with a version
-- and a game, as the foreign keys and their cascades have it.
use custom_game_launcher_bac.Base.{
  arith, ℕ, ◌≡◌, refl, inl, inr, false, List, [], ◌∷◌, some, Bytes, eq_bytes, eq_bytes_iff,
  Bool-cases, Option-cases, sym, subst, ◌&&◌, any, find_row, find_row_holds, All-delete_rows,
  find_row-append, find_row-delete_rows_spared, All-map, All-append, All-kept_rows, All-update_rows,
  All, find_row-any, find_row-All, find_row-update_rows, if◌then◌else◌,
}
use custom_game_launcher_bac.Domain.Catalog.{BuildOwnership}
use custom_game_launcher_bac.Domain.Validation.{is_uuid}
use custom_game_launcher_bac.Database.{GameRow, VersionRow, BuildRow, Db}
use custom_game_launcher_bac.Database.Builds
use custom_game_launcher_bac.Database.Builds.{
  find_by_id, find_ownership, ownership_of, FinalizedManifest, set_ready, is_uploading,
}
use custom_game_launcher_bac.Database.Games.{
  is_game, change_game, find_game, find_game_by_slug, NewGame, game_row, create_game, GameUpdate,
  is_build_of_game, update_game, remove_build, remove_game,
}
use custom_game_launcher_bac.Database.Games.Versions.{
  is_version, change_version, find_version, remove_version, NewGameVersion, version_row,
  create_version, GameVersionUpdate, is_build_of_version, update_version, NewBuild, same_version,
  same_target, create_build,
}

pub record HasGame (games : List GameRow) (v : VersionRow) : Type 0 where
  pub game : GameRow
  pub found : find_row (is_game v.game_id) games ≡ some game

pub record HasVersion (versions : List VersionRow) (b : BuildRow) : Type 0 where
  pub version : VersionRow
  pub found : find_row (is_version b.game_version_id) versions ≡ some version

-- Every build has a version, and every version a game.
pub record AllOwned (db : Db) : Type 0 where
  pub versions : All (HasGame db.games) db.game_versions
  pub builds : All (HasVersion db.game_versions) db.builds

pub find_ownership-owned :
    (db : Db) (build_id : Bytes) (b : BuildRow)
    → AllOwned db
    → find_by_id db build_id ≡ some b
    → (ownership : BuildOwnership) × (find_ownership db build_id ≡ some ownership)
unfolding find_ownership find_by_id find_version find_game
find_ownership-owned db build_id b owned found =
    let j = find_row-All (HasVersion db.game_versions) _ db.builds b owned.builds found in
    let k = find_row-All (HasGame db.games) _ db.game_versions j.version owned.versions j.found in
    (ownership_of b j.version k.game, rw (found, find_ownership, j.found, k.found) refl)

-- The version of a build that the deletion of a version spares is another one.
other_version :
    (versions : List VersionRow) (b : BuildRow) (j : HasVersion versions b) (id : Bytes)
    → is_build_of_version id b ≡ false
    → is_version id j.version ≡ false
other_version versions b j id miss =
    let same =
      (eq_bytes_iff j.version.id b.game_version_id).0
        (find_row_holds _ versions j.version j.found) in
    subst (λ v. eq_bytes v id ≡ false) (sym same) miss

-- The game of a version that the deletion of a game spares is another one, and so is the game of the
-- version of a build that it spares.
other_game :
    (games : List GameRow) (v : VersionRow) (j : HasGame games v) (id : Bytes)
    → eq_bytes v.game_id id ≡ false
    → is_game id j.game ≡ false
other_game games v j id miss =
    let same = (eq_bytes_iff j.game.id v.game_id).0 (find_row_holds _ games j.game j.found) in
    subst (λ g. eq_bytes g id ≡ false) (sym same) miss

other_version_of_game :
    (db : Db) (b : BuildRow) (j : HasVersion db.game_versions b) (id : Bytes)
    → is_build_of_game db id b ≡ false
    → eq_bytes j.version.game_id id ≡ false
other_version_of_game db b j id miss =
    let meets = find_row_holds _ db.game_versions j.version j.found in
    let apart = find_row-any _ _ db.game_versions j.version miss j.found in ground arith

module _ (db : Db) (owned : AllOwned db) where
  pub create_game-AllOwned :
      (now : ℕ) (id : Bytes) (game : NewGame) → AllOwned (create_game now id game db).1
  unfolding create_game
  create_game-AllOwned now id game = elim (Option-cases (find_game_by_slug db game.slug)) [
    | inl free ↦
        rw (free, create_game)
          (record {
            versions =
                All-map _ _ db.game_versions
                  (λ v j. record {
                    game = j.game;
                    found = find_row-append _ db.games (game_row now id game ∷ []) j.game j.found;
                  })
                  owned.versions;
            builds = owned.builds;
          })
    | inr (g, taken) ↦ rw (taken, create_game) owned
  ]

  pub update_game-AllOwned :
      (id : Bytes) (changes : GameUpdate) → AllOwned (update_game id changes db).1
  unfolding update_game
  update_game-AllOwned id changes = elim (Bool-cases (is_uuid id)) [
    | inl uuid ↦
        rw (uuid, update_game)
          (elim (Option-cases (find_game db id)) [
            | inl missing ↦ rw missing owned
            | inr (g, found) ↦ rw found (record {
              versions =
                  All-map _ _ db.game_versions
                    (λ v j. record {
                      game = if is_game id j.game then change_game changes j.game else j.game;
                      found =
                          find_row-update_rows (is_game v.game_id) (is_game id)
                            (change_game changes) db.games j.game (λ g. refl) j.found;
                    })
                    owned.versions;
              builds = owned.builds;
            })
          ])
    | inr malformed ↦ rw (malformed, update_game) owned
  ]

  pub remove_game-AllOwned : (id : Bytes) → AllOwned (remove_game id db).1
  unfolding remove_game
  remove_game-AllOwned id = elim (Option-cases (find_game db id)) [
    | inl missing ↦ rw (missing, remove_game) owned
    | inr (g, found) ↦
        let of_game = λ (v : VersionRow). eq_bytes v.game_id id in
        rw (found, remove_game)
          (record {
            versions =
                All-map _ _ _
                  (λ v (miss, j). record {
                    game = j.game;
                    found =
                        find_row-delete_rows_spared _ (is_game id) db.games j.game
                          (other_game db.games v j id miss) j.found;
                  })
                  (All-kept_rows (HasGame db.games) of_game db.game_versions owned.versions);
            builds =
                All-map _ _ _
                  (λ b (miss, j). record {
                    version = j.version;
                    found =
                        find_row-delete_rows_spared _ of_game db.game_versions j.version
                          (other_version_of_game db b j id miss) j.found;
                  })
                  (All-kept_rows (HasVersion db.game_versions) (is_build_of_game db id) db.builds
                    owned.builds);
          })
  ]

  pub create_version-AllOwned :
      (now : ℕ) (id : Bytes) (v : NewGameVersion) → AllOwned (create_version now id v db).1
  unfolding create_version find_game
  create_version-AllOwned now id v = elim (Bool-cases (any (same_version v) db.game_versions)) [
    | inl taken ↦ rw (taken, create_version) owned
    | inr free ↦
        rw (free, create_version)
          (elim (Option-cases (find_game db v.game_id)) [
            | inl missing ↦ rw missing owned
            | inr (g, found) ↦ rw found (record {
              versions =
                  All-append _ db.game_versions _ owned.versions
                    (record { game = g; found = found }, tt);
              builds =
                  All-map _ _ db.builds
                    (λ b j. record {
                      version = j.version;
                      found =
                          find_row-append _ db.game_versions (version_row now id v ∷ []) j.version
                            j.found;
                    })
                    owned.builds;
            })
          ])
  ]

  pub update_version-AllOwned :
      (now : ℕ) (id : Bytes) (changes : GameVersionUpdate)
      → AllOwned (update_version now id changes db).1
  unfolding update_version
  update_version-AllOwned now id changes = elim (Option-cases (find_version db id)) [
    | inl missing ↦ rw (missing, update_version) owned
    | inr (v, found) ↦
        rw (found, update_version)
          (record {
            versions =
                All-update_rows (HasGame db.games) (is_version id) (change_version now changes)
                  db.game_versions (λ v hit j. record { game = j.game; found = j.found })
                  owned.versions;
            builds =
                All-map _ _ db.builds
                  (λ b j. record {
                    version =
                        if is_version id j.version
                        then change_version now changes j.version
                        else j.version;
                    found =
                        find_row-update_rows (is_version b.game_version_id) (is_version id)
                          (change_version now changes) db.game_versions j.version (λ v. refl)
                          j.found;
                  })
                  owned.builds;
          })
  ]

  pub remove_version-AllOwned : (id : Bytes) → AllOwned (remove_version id db).1
  unfolding remove_version
  remove_version-AllOwned id = elim (Option-cases (find_version db id)) [
    | inl missing ↦ rw (missing, remove_version) owned
    | inr (v, found) ↦
        rw (found, remove_version)
          (record {
            versions = All-delete_rows _ _ db.game_versions owned.versions;
            builds =
                All-map _ _ _
                  (λ b (miss, j). record {
                    version = j.version;
                    found =
                        find_row-delete_rows_spared _ (is_version id) db.game_versions j.version
                          (other_version db.game_versions b j id miss) j.found;
                  })
                  (All-kept_rows (HasVersion db.game_versions) (is_build_of_version id) db.builds
                    owned.builds);
          })
  ]

  pub create_build-AllOwned :
      (id : Bytes) (build : NewBuild) → AllOwned (create_build id build db).1
  unfolding create_build find_version
  create_build-AllOwned id build = elim (Bool-cases (any (same_target build) db.builds)) [
    | inl taken ↦ rw (taken, create_build) owned
    | inr free ↦
        rw (free, create_build)
          (elim (Option-cases (find_version db build.game_version_id)) [
            | inl missing ↦ rw missing owned
            | inr (v, found) ↦ rw found (record {
              versions = owned.versions;
              builds =
                  All-append _ db.builds _ owned.builds (record { version = v; found = found }, tt);
            })
          ])
  ]

  pub remove_build-AllOwned : (id : Bytes) → AllOwned (remove_build id db).1
  unfolding remove_build
  remove_build-AllOwned id =
      elim (Option-cases (find_row (λ (b : BuildRow). eq_bytes b.build_id id) db.builds)) [
        | inl missing ↦ rw (missing, remove_build) owned
        | inr (b, found) ↦
            rw (found, remove_build)
              (record {
                versions = owned.versions;
                builds = All-delete_rows _ _ db.builds owned.builds;
              })
      ]

  pub finalize-AllOwned :
      (now : ℕ) (id : Bytes) (manifest : FinalizedManifest)
      → AllOwned (Builds.finalize now id manifest db).1
  unfolding Builds.finalize
  finalize-AllOwned now id manifest =
      elim (Option-cases
        (find_row (λ (b : BuildRow). Builds.has_id id b && is_uploading b.status) db.builds)) [
          | inl missing ↦ rw (missing, Builds.finalize) owned
          | inr (b, found) ↦
              rw (found, Builds.finalize)
                (record {
                  versions = owned.versions;
                  builds =
                      All-update_rows (HasVersion db.game_versions) _ (set_ready now manifest)
                        db.builds (λ b hit j. record { version = j.version; found = j.found })
                        owned.builds;
                })
        ]

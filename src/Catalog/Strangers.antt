-- ===== src/Catalog/Strangers.antt =====
-- src/services/CatalogService.cpp: editableGame, in front of what changes a game.
use custom_game_launcher_bac.Base.{
  ℕ, ◌≡◌, refl, inl, inr, Bool, true, false, not, [], ◌∷◌, Option, none, some, Bytes, Error, Result,
  ok, err, success, VoidResult, forbidden, not_found, lit, arith, Bool-cases, Option-cases,
  if◌then◌else◌,
}
use custom_game_launcher_bac.Domain.Actor.{Actor, game_publish, build_upload}
use custom_game_launcher_bac.Domain.Catalog.{is_draft}
use custom_game_launcher_bac.Database.{GameRow, Db}
use custom_game_launcher_bac.Database.Games.{GameUpdate}
use custom_game_launcher_bac.Database.Games.Versions.{GameVersionUpdate}
use custom_game_launcher_bac.Catalog.{
  with, require, may_edit_game, may_view_game, find_by_id_or_slug, visible_game, editable_game,
}
use custom_game_launcher_bac.Catalog.Games.{update_game, delete_game}
use custom_game_launcher_bac.Catalog.Versions.{
  CreateVersionCommand, CreateBuildCommand, create_version, update_version, delete_version,
  create_build,
}

-- The calls that change a game, its versions or its builds, and that name the game.
pub data GameCall : Type 0 where
  updates_game : (changes : GameUpdate) → GameCall
  deletes_game : GameCall
  creates_version : (now : ℕ) (id : Bytes) (command : CreateVersionCommand) → GameCall
  updates_version : (now : ℕ) (version_id : Bytes) (changes : GameVersionUpdate) → GameCall
  deletes_version : (version_id : Bytes) → GameCall
  creates_build : (id : Bytes) (command : CreateBuildCommand) → GameCall

-- The error of an answer.
abbrev pub error_of {ℓ} : {A : Type ℓ} → Result A → Option Error
error_of (err e) = some e
error_of (ok a) = none

-- The error of an answer, and the state behind it.
abbrev pub outcome {ℓ} : {A : Type ℓ} → Result A × Db → Option Error × Db
outcome (answer, after) = (error_of answer, after)

unfoldable pub perform : GameCall → Actor → Bytes → Db → Option Error × Db
perform (updates_game changes) actor game db = outcome (update_game actor game changes db)
perform deletes_game actor game db = outcome (delete_game actor game db)
perform (creates_version now id command) actor game db =
    outcome (create_version now id actor game command db)
perform (updates_version now version_id changes) actor game db =
    outcome (update_version now actor game version_id changes db)
perform (deletes_version version_id) actor game db =
    outcome (delete_version actor game version_id db)
perform (creates_build id command) actor game db = outcome (create_build id actor game command db)

-- The permission that a call asks for before it looks at the game.
abbrev pub permission_for : GameCall → Actor → VoidResult
permission_for (updates_game changes) actor = success
permission_for deletes_game actor = success
permission_for (creates_version now id command) actor =
    require actor game_publish "you cannot publish games"
permission_for (updates_version now version_id changes) actor =
    require actor game_publish "you cannot publish games"
permission_for (deletes_version version_id) actor = success
permission_for (creates_build id command) actor =
    require actor build_upload "you cannot upload builds"

-- What is said of a game that the actor may not edit. A draft answers like a game that is not there.
abbrev pub denied : Option GameRow → Error
denied none = record {
  code = not_found;
  detail = lit "no such game" ∷ [];
  rule = "";
  rule_args = [];
}
denied (some game) =
    if is_draft game.visibility
    then record { code = not_found; detail = lit "no such game" ∷ []; rule = ""; rule_args = [] }
    else record {
      code = forbidden;
      detail = lit "this game belongs to another publisher" ∷ [];
      rule = "";
      rule_args = [];
    }

abbrev pub answer_to_stranger : VoidResult → Option GameRow → Error
answer_to_stranger (err e) found = e
answer_to_stranger (ok u) found = denied found

unfoldable pub is_stranger : Actor → Option GameRow → Bool
is_stranger actor none = true
is_stranger actor (some game) = not (may_edit_game game actor)

module _ (actor : Actor) (game_ref : Bytes) (db : Db) where
  editable_game-denied :
      is_stranger actor (find_by_id_or_slug db game_ref) ≡ true
      → editable_game actor game_ref db ≡ err (denied (find_by_id_or_slug db game_ref))
  unfolding is_stranger editable_game visible_game may_view_game
  editable_game-denied stranger = elim (Option-cases (find_by_id_or_slug db game_ref)) [
    | inl missing ↦ rw (missing, editable_game, visible_game) refl
    | inr (g, found) ↦
        let foreign : may_edit_game g actor ≡ false = ground arith in
        elim (Bool-cases (is_draft g.visibility)) [
          | inl hidden ↦ rw (found, editable_game, visible_game, foreign, hidden) refl
          | inr shown ↦ rw (found, editable_game, visible_game, foreign, shown, foreign) refl
        ]
  ]

  -- The two tests in front of each call.
  with-denied {ℓ} :
      {B : Type ℓ} (permission : VoidResult) (step : GameRow → Result B × Db)
      → is_stranger actor (find_by_id_or_slug db game_ref) ≡ true
      → outcome (with permission db (λ _. with (editable_game actor game_ref db) db step))
        ≡ (some (answer_to_stranger permission (find_by_id_or_slug db game_ref)), db)
  unfolding with
  with-denied (err e) step stranger = refl
  with-denied (ok u) step stranger = rw (editable_game-denied stranger) refl

-- A call on a game that the actor may not edit, or on none, changes nothing. It answers with the
-- permission that is missing, and otherwise that there is no such game, where there is none or it is a
-- draft, or that the game belongs to another publisher.
pub perform-stranger :
    (call : GameCall) (actor : Actor) (game_ref : Bytes) (db : Db)
    → is_stranger actor (find_by_id_or_slug db game_ref) ≡ true
    → perform call actor game_ref db
      ≡ (some (answer_to_stranger (permission_for call actor) (find_by_id_or_slug db game_ref)), db)
unfolding perform with update_game delete_game create_version update_version delete_version
    create_build
perform-stranger (updates_game changes) actor game_ref db stranger =
    with-denied actor game_ref db success _ stranger
perform-stranger deletes_game actor game_ref db stranger =
    with-denied actor game_ref db success _ stranger
perform-stranger (creates_version now id command) actor game_ref db stranger =
    with-denied actor game_ref db _ _ stranger
perform-stranger (updates_version now version_id changes) actor game_ref db stranger =
    with-denied actor game_ref db _ _ stranger
perform-stranger (deletes_version version_id) actor game_ref db stranger =
    with-denied actor game_ref db success _ stranger
perform-stranger (creates_build id command) actor game_ref db stranger =
    with-denied actor game_ref db _ _ stranger

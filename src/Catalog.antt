-- ===== src/Catalog.antt =====
-- src/services/CatalogService.cpp: games, versions and builds as their publishers edit them, and the
-- library of a player.
pub mod Games
pub mod Versions
pub mod History
pub mod Strangers
use custom_game_launcher_bac.Base.{
  ℕ, String, Bool, true, false, ◌&&◌, ◌||◌, not, [], ◌∷◌, Option, none, some, ltb, if◌then◌else◌,
  length, is_empty, Bytes, Part, Result, VoidResult, ok, err, success, failure, broken_rule,
  forbidden, not_found, refuse_if, checked, lit, num, ◌>>=◌, ◌>>◌,
}
use custom_game_launcher_bac.Domain.Actor.{Actor, can, owns, manages_any_game}
use custom_game_launcher_bac.Domain.Validation.{is_uuid}
use custom_game_launcher_bac.Domain.Catalog.{is_draft}
use custom_game_launcher_bac.Domain.Catalog.Dates.{validate_release_date}
use custom_game_launcher_bac.Database.{GameRow, Db}
use custom_game_launcher_bac.Database.Games.{find_game, find_game_by_slug}

abbrev pub max_title_length : ℕ
max_title_length = 200

abbrev pub max_summary_length : ℕ
max_summary_length = 500

abbrev pub max_description_length : ℕ
max_description_length = 20000

abbrev pub max_release_notes_length : ℕ
max_release_notes_length = 20000

abbrev pub max_build_name_length : ℕ
max_build_name_length = 100

abbrev pub no_such_game {ℓ} : {A : Type ℓ} → Result A
no_such_game = failure not_found (lit "no such game" ∷ [])

abbrev pub no_such_version {ℓ} : {A : Type ℓ} → Result A
no_such_version = failure not_found (lit "no such version" ∷ [])

abbrev pub no_such_build {ℓ} : {A : Type ℓ} → Result A
no_such_build = failure not_found (lit "no such build" ∷ [])

abbrev pub not_yours {ℓ} : {A : Type ℓ} → Result A
not_yours = failure forbidden (lit "this game belongs to another publisher" ∷ [])

abbrev pub require : Actor → String → String → VoidResult
require actor permission detail = refuse_if (not (can actor permission)) forbidden (lit detail ∷ [])

unfoldable pub may_edit_game : GameRow → Actor → Bool
may_edit_game game actor = owns actor game.publisher_user_id || manages_any_game actor

unfoldable pub may_view_game : GameRow → Actor → Bool
unfolding may_edit_game
may_view_game game actor = not (is_draft game.visibility) || may_edit_game game actor

unfoldable pub check_length : Bytes → ℕ → String → String → VoidResult
check_length value limit field rule =
    if ltb limit (length value)
    then broken_rule (lit field ∷ lit " must be at most " ∷ num limit ∷ lit " characters" ∷ []) rule
        (num limit ∷ [])
    else success

unfoldable pub check_title : Bytes → VoidResult
unfolding check_length
check_title title =
    if is_empty title
    then broken_rule (lit "title must not be empty" ∷ []) "title_required" []
    else check_length title max_title_length "title" "title_too_long"

unfoldable pub check_optional_date : Bytes → VoidResult
unfolding validate_release_date
check_optional_date date = if is_empty date then success else validate_release_date date

-- `if (field.has_value()) { check }`.
abbrev pub check_present : (Bytes → VoidResult) → Option Bytes → VoidResult
check_present check none = success
check_present check (some value) = check value

-- A uuid and a slug are told apart by shape.
unfoldable pub find_by_id_or_slug : Db → Bytes → Option GameRow
unfolding find_game find_game_by_slug
find_by_id_or_slug db id_or_slug =
    if is_uuid id_or_slug then find_game db id_or_slug else find_game_by_slug db id_or_slug

unfoldable pub visible_game : Actor → Bytes → Db → Result GameRow
unfolding find_by_id_or_slug may_view_game
visible_game actor id_or_slug db = elim (find_by_id_or_slug db id_or_slug) [
  | none ↦ no_such_game
  | some game ↦ if may_view_game game actor then ok game else no_such_game
]

unfoldable pub editable_game : Actor → Bytes → Db → Result GameRow
unfolding visible_game may_edit_game
editable_game actor game_id db = elim (visible_game actor game_id db) [
  | err e ↦ err e
  | ok game ↦ if may_edit_game game actor then ok game else not_yours
]

-- `if (!x.ok()) return x.error();` or `if (auto error = check) return *error;` before a step on the state.
unfoldable pub with {ℓ κ} :
    {A : Type ℓ} {B : Type κ} → Result A → Db → (A → Result B × Db) → Result B × Db
with (err e) db step = (err e, db)
with (ok a) db step = step a

-- What holds before a step and after it holds whatever stands in front of it.
pub with-keeps {ℓ κ τ} :
    {A : Type ℓ} {B : Type κ} (P : Db → Type τ) (db : Db) (r : Result A) (step : A → Result B × Db)
    → P db
    → ((a : A) → P (step a).1)
    → P (with r db step).1
unfolding with
with-keeps P db (err e) step before after = before
with-keeps P db (ok a) step before after = after a

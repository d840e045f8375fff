-- ===== src/Domain/Catalog.antt =====
-- src/domain/Catalog.cpp and Catalog.h: the words of the catalog, slugs, and who may act.
pub mod Slugs
pub mod Dates
pub mod Words
use custom_game_launcher_bac.Base.{
  ℕ, ◌-◌, Bool, true, false, ◌&&◌, ◌||◌, not, [], ◌∷◌, reverse, ltb, leb, ◌==◌, if◌then◌else◌,
  length, drop, is_empty, Bytes, VoidResult, success, broken_rule, lit, num,
}
use custom_game_launcher_bac.Domain.Actor.{Actor, owns, manages_any_game}
use custom_game_launcher_bac.Domain.Validation.{to_lower}

pub data GameVisibility : Type 0 where
  draft unlisted visible : GameVisibility

pub data BuildStatus : Type 0 where
  uploading ready failed : BuildStatus

pub data BuildStage : Type 0 where
  demo alpha beta release : BuildStage

pub data BuildPlatform : Type 0 where
  windows linux macos : BuildPlatform

pub data BuildArchitecture : Type 0 where
  x64 arm64 : BuildArchitecture

pub record BuildOwnership : Type 0 where
  pub build_id : Bytes
  pub game_version_id : Bytes
  pub game_id : Bytes
  pub publisher_user_id : Bytes
  pub visibility : GameVisibility
  pub status : BuildStatus
  pub version_published : Bool

abbrev pub is_draft : GameVisibility → Bool
is_draft draft = true
is_draft _ = false

unfoldable pub may_publish_build : BuildOwnership → Actor → Bool
may_publish_build ownership actor = owns actor ownership.publisher_user_id || manages_any_game actor

unfoldable pub may_read_build : BuildOwnership → Actor → Bool
unfolding may_publish_build
may_read_build ownership actor =
    (not (is_draft ownership.visibility) && ownership.version_published)
    || may_publish_build ownership actor

abbrev pub max_slug_length : ℕ
max_slug_length = 80

unfoldable pub is_slug_character : ℕ → Bool
is_slug_character c = (leb b'a' c && leb c b'z') || (leb b'0' c && leb c b'9')

-- The loop of validateSlug, with `previousWasHyphen`, and the test behind it.
unfoldable pub check_slug : Bool → Bytes → VoidResult
check_slug previous_was_hyphen [] =
    if previous_was_hyphen
    then broken_rule (lit "slug must not end with a hyphen" ∷ []) "slug_invalid" []
    else success
check_slug previous_was_hyphen (c ∷ cs) =
    let after_alphanumeric = check_slug false cs in
    let after_hyphen = check_slug true cs in
    if is_slug_character c
    then after_alphanumeric
    else if c == b'-' && not previous_was_hyphen
    then after_hyphen
    else broken_rule
        (lit "slug must be lowercase letters, digits and single hyphens, e.g. my-great-game" ∷ [])
        "slug_invalid" []

unfoldable pub validate_slug : Bytes → VoidResult
validate_slug slug =
    if is_empty slug
    then broken_rule (lit "slug must not be empty" ∷ []) "slug_required" []
    else if ltb max_slug_length (length slug)
    then broken_rule (lit "slug must be at most " ∷ num max_slug_length ∷ lit " characters" ∷ [])
        "slug_too_long" (num max_slug_length ∷ [])
    else check_slug true slug

-- std::isalnum in the C locale.
unfoldable pub is_alphanumeric : ℕ → Bool
is_alphanumeric c =
    (leb b'a' c && leb c b'z') || ((leb b'A' c && leb c b'Z') || (leb b'0' c && leb c b'9'))

-- The slug under construction is kept with its last byte first: `slug.back()` is its head.
abbrev pub ends_with_hyphen : Bytes → Bool
ends_with_hyphen [] = false
ends_with_hyphen (c ∷ cs) = c == b'-'

unfoldable pub append_character : ℕ → Bytes → Bytes
unfolding is_alphanumeric to_lower
append_character c slug =
    if is_alphanumeric c
    then to_lower c ∷ slug
    else if not (is_empty slug) && not (ends_with_hyphen slug)
    then b'-' ∷ slug
    else slug

unfoldable pub slug_loop : Bytes → Bytes → Bytes
unfolding append_character
slug_loop slug [] = slug
slug_loop slug (c ∷ cs) = slug_loop (append_character c slug) cs

-- `while (!slug.empty() && slug.back() == '-') slug.pop_back();`
unfoldable pub drop_hyphens : Bytes → Bytes
drop_hyphens [] = []
drop_hyphens (c ∷ cs) = if c == b'-' then drop_hyphens cs else c ∷ cs

-- `slug.resize(MAX_SLUG_LENGTH)` drops the last bytes, and the loop runs again.
unfoldable pub shorten : Bytes → Bytes
unfolding drop_hyphens
shorten slug =
    if ltb max_slug_length (length slug)
    then drop_hyphens (drop (length slug - max_slug_length) slug)
    else slug

unfoldable pub slugify : Bytes → Bytes
unfolding slug_loop drop_hyphens shorten
slugify title = reverse (shorten (drop_hyphens (slug_loop [] title)))

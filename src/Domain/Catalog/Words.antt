-- ===== src/Domain/Catalog/Words.antt =====
-- src/domain/Catalog.cpp: the words of the enumerations.
use text.Mathlib.Text.{◌==◌ as eq_text}
use custom_game_launcher_bac.Base.{String, ◌≡◌, refl, Option, none, some, if◌then◌else◌}
use custom_game_launcher_bac.Domain.Catalog.{
  GameVisibility, draft, unlisted, visible, BuildStatus, uploading, ready, failed, BuildStage, demo,
  alpha, beta, release, BuildPlatform, windows, linux, macos, BuildArchitecture, x64, arm64,
}

unfoldable pub visibility_word : GameVisibility → String
visibility_word unlisted = "unlisted"
visibility_word visible = "public"
visibility_word draft = "draft"

unfoldable pub stage_word : BuildStage → String
stage_word demo = "demo"
stage_word alpha = "alpha"
stage_word beta = "beta"
stage_word release = "release"

unfoldable pub platform_word : BuildPlatform → String
platform_word linux = "linux"
platform_word macos = "macos"
platform_word windows = "windows"

unfoldable pub architecture_word : BuildArchitecture → String
architecture_word arm64 = "arm64"
architecture_word x64 = "x64"

unfoldable pub status_word : BuildStatus → String
status_word ready = "ready"
status_word failed = "failed"
status_word uploading = "uploading"

unfoldable pub parse_game_visibility : String → Option GameVisibility
parse_game_visibility value =
    if eq_text value "draft"
    then some draft
    else if eq_text value "unlisted"
    then some unlisted
    else if eq_text value "public"
    then some visible
    else none

unfoldable pub parse_build_stage : String → Option BuildStage
parse_build_stage value =
    if eq_text value "demo"
    then some demo
    else if eq_text value "alpha"
    then some alpha
    else if eq_text value "beta"
    then some beta
    else if eq_text value "release"
    then some release
    else none

unfoldable pub parse_build_platform : String → Option BuildPlatform
parse_build_platform value =
    if eq_text value "windows"
    then some windows
    else if eq_text value "linux"
    then some linux
    else if eq_text value "macos"
    then some macos
    else none

unfoldable pub parse_build_architecture : String → Option BuildArchitecture
parse_build_architecture value =
    if eq_text value "x64" then some x64 else if eq_text value "arm64" then some arm64 else none

unfoldable pub parse_build_status : String → Option BuildStatus
parse_build_status value =
    if eq_text value "uploading"
    then some uploading
    else if eq_text value "ready"
    then some ready
    else if eq_text value "failed"
    then some failed
    else none

-- The words that the repositories write are read back as what they were written for.
words_read_back :
    ((v : GameVisibility) → parse_game_visibility (visibility_word v) ≡ some v)
    × ((s : BuildStage) → parse_build_stage (stage_word s) ≡ some s)
    × ((p : BuildPlatform) → parse_build_platform (platform_word p) ≡ some p)
    × ((a : BuildArchitecture) → parse_build_architecture (architecture_word a) ≡ some a)
    × ((s : BuildStatus) → parse_build_status (status_word s) ≡ some s)
unfolding parse_game_visibility visibility_word parse_build_stage stage_word parse_build_platform
    platform_word parse_build_architecture architecture_word parse_build_status status_word
words_read_back = (visibilities, stages, platforms, architectures, statuses)
  where
    visibilities : (v : GameVisibility) → parse_game_visibility (visibility_word v) ≡ some v
    visibilities draft = refl
    visibilities unlisted = refl
    visibilities visible = refl

    stages : (s : BuildStage) → parse_build_stage (stage_word s) ≡ some s
    stages demo = refl
    stages alpha = refl
    stages beta = refl
    stages release = refl

    platforms : (p : BuildPlatform) → parse_build_platform (platform_word p) ≡ some p
    platforms windows = refl
    platforms linux = refl
    platforms macos = refl

    architectures :
        (a : BuildArchitecture) → parse_build_architecture (architecture_word a) ≡ some a
    architectures x64 = refl
    architectures arm64 = refl

    statuses : (s : BuildStatus) → parse_build_status (status_word s) ≡ some s
    statuses uploading = refl
    statuses ready = refl
    statuses failed = refl

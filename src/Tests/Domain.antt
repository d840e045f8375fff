-- ===== src/Tests/Domain.antt =====
-- The theorems on src/domain at concrete builds and paths.
use mathlib.Core.List.{Perm}
use mathlib.Core.List.Perm
use custom_game_launcher_bac.Domain.Catalog.{slugify, validate_slug}
use custom_game_launcher_bac.Domain.Catalog.Slugs.{slugify_lem}
use custom_game_launcher_bac.Domain.Semver.{parse_component, max_version_component}
use custom_game_launcher_bac.Domain.Semver.Components.{parse_component_inj}
use custom_game_launcher_bac.Base.{
  ◌≡◌, ◌⊎◌, ok, ◌≤◌, ◌↔◌, refl, [], ◌∷◌, ◌++◌, reverse, none, some, All, arith, pos, ◌≤ℤ◌, codes,
  eq_bytes, find_byte, success,
}
use custom_game_launcher_bac.Domain.Manifest.{
  split, cons_head, validate_manifest, validate_relative_path, check_segments, check_segment,
  is_alpha, has_drive_prefix, starts_with_slash, canonical_manifest_document,
}
use custom_game_launcher_bac.Domain.Manifest.Paths.{
  walk, walk-validate_relative_path, walk-injective,
}
use custom_game_launcher_bac.Domain.Manifest.Accepts.{ManifestIsValid, validate_manifest_iff}
use custom_game_launcher_bac.Domain.Manifest.Order.{canonical_manifest_document-perm}
use custom_game_launcher_bac.Domain.Delta.{find_path, compute_delta, full_download}
use custom_game_launcher_bac.Domain.Delta.Facts.{content, Distinct}
use custom_game_launcher_bac.Domain.Delta.Apply.{run, actions}
use custom_game_launcher_bac.Domain.Delta.Plans.{run-compute_delta, run-full_download}
use custom_game_launcher_bac.Domain.Delta.Cost.{
  entries_of, download_bytes-le-total_bytes, compute_delta-perm, compute_delta_self,
}
use custom_game_launcher_bac.Domain.CanonicalJson.{append_canonical_json_string}
use custom_game_launcher_bac.Domain.CanonicalJson.RoundTrip.{
  plain, drop_quote, read_string, read_string-append_canonical_json_string,
}
use custom_game_launcher_bac.Tests.Examples.{
  data_pak, moved_pak, patched_exe, first_build, second_build,
}

second_build-Distinct : Distinct second_build
unfolding find_path eq_bytes
second_build-Distinct = (refl, (refl, (refl, tt)))

run-compute_delta_example :
    run
      (actions (compute_delta first_build second_build))
      (content first_build)
      (codes "data/b.pak")
    ≡ content second_build (codes "data/b.pak")
run-compute_delta_example =
    run-compute_delta first_build second_build (actions (compute_delta first_build second_build))
      second_build-Distinct (λ a. (λ h. h, λ h. h)) (codes "data/b.pak")

run-full_download_example :
    run
      (actions (full_download first_build second_build))
      (content first_build)
      (codes "data/b.pak")
    ≡ content second_build (codes "data/b.pak")
run-full_download_example =
    run-full_download first_build second_build (actions (full_download first_build second_build))
      second_build-Distinct (λ a. (λ h. h, λ h. h)) (codes "data/b.pak")

download_bytes-le-total_bytes_example :
    ((compute_delta first_build second_build).download_bytes
      ≤ℤ (compute_delta first_build second_build).total_bytes)
    × ((full_download first_build second_build).download_bytes
        ≤ℤ (full_download first_build second_build).total_bytes)
    × ((compute_delta first_build second_build).total_bytes
        ≡ (full_download first_build second_build).total_bytes)
download_bytes-le-total_bytes_example =
    download_bytes-le-total_bytes first_build second_build
      (omega arith, (omega arith, (omega arith, tt)))

compute_delta-perm_example :
    Perm
      (entries_of (compute_delta first_build second_build).fetch
        ++ (compute_delta first_build second_build).unchanged)
      second_build
    × All (λ p. find_path p second_build ≡ none) (compute_delta first_build second_build).remove
compute_delta-perm_example = compute_delta-perm first_build second_build

compute_delta_self_example :
    ((compute_delta second_build second_build).fetch ≡ [])
    × ((compute_delta second_build second_build).remove ≡ [])
    × ((compute_delta second_build second_build).download_bytes ≡ pos 0)
compute_delta_self_example = compute_delta_self second_build second_build-Distinct

validate_manifest_iff_example :
    (validate_manifest first_build (codes "bin/game.exe") ≡ success)
    ↔ ManifestIsValid first_build (codes "bin/game.exe")
validate_manifest_iff_example = validate_manifest_iff first_build (codes "bin/game.exe")

canonical_manifest_document-perm_example :
    canonical_manifest_document second_build (codes "bin/game.exe") []
    ≡ canonical_manifest_document
        (moved_pak ∷ data_pak ∷ patched_exe ∷ [])
        (codes "bin/game.exe")
        []
canonical_manifest_document-perm_example =
    canonical_manifest_document-perm second_build (moved_pak ∷ data_pak ∷ patched_exe ∷ [])
      (codes "bin/game.exe") [] second_build-Distinct
      (Perm.swap moved_pak data_pak (patched_exe ∷ []))

game_path-accepted : validate_relative_path (codes "bin/game.exe") ≡ success
unfolding validate_relative_path check_segments check_segment split cons_head has_drive_prefix
    starts_with_slash is_alpha eq_bytes find_byte
game_path-accepted = refl

walk-validate_relative_path_example :
    walk (codes "games" ∷ []) (split b'/' (codes "bin/game.exe"))
    ≡ reverse (split b'/' (codes "bin/game.exe")) ++ (codes "games" ∷ [])
walk-validate_relative_path_example =
    walk-validate_relative_path (codes "bin/game.exe") (codes "games" ∷ []) game_path-accepted

walk-injective_example : codes "bin/game.exe" ≡ codes "bin/game.exe"
walk-injective_example =
    walk-injective (codes "bin/game.exe") (codes "bin/game.exe") [] game_path-accepted
      game_path-accepted refl

read_string-append_canonical_json_string_example :
    read_string plain
      (drop_quote (append_canonical_json_string [] (codes "say \"hi\"") ++ codes ",\"size\":"))
    ≡ some (codes "say \"hi\"", codes ",\"size\":")
read_string-append_canonical_json_string_example =
    read_string-append_canonical_json_string (codes "say \"hi\"") (codes ",\"size\":")

slugify_lem_example :
    ((slugify (codes "My Game!") ≡ []) ⊎ (validate_slug (slugify (codes "My Game!")) ≡ success))
    × (validate_slug (codes "My Game!") ≡ success → slugify (codes "My Game!") ≡ codes "My Game!")
slugify_lem_example = slugify_lem (codes "My Game!")

my_game : slugify (codes "My Game!") ≡ codes "my-game"
unfolding slugify
my_game = refl

twelve : parse_component (codes "12") ≡ ok 12
unfolding parse_component
twelve = refl

parse_component_inj_example : (codes "12" ≡ codes "12") × (12 ≤ max_version_component)
parse_component_inj_example = parse_component_inj (codes "12") (codes "12") 12 twelve twelve

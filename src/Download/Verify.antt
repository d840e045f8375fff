-- ===== src/Download/Verify.antt =====
-- src/services/DownloadService.cpp: the check of an install.
use custom_game_launcher_bac.Base.{
  ℕ, Bool, false, ◌&&◌, ◌||◌, not, List, [], ◌∷◌, Option, none, some, if◌then◌else◌, is_empty,
  is_some, any, ltb, length, pos, Bytes, eq_bytes, sort_by, Result, VoidResult, ok, err, failure,
  success, refuse_if, ◌>>◌, conflict, invalid_input, lit, num, text, find_row,
}
use custom_game_launcher_bac.Domain.Actor.{Actor}
use custom_game_launcher_bac.Domain.Catalog.{BuildOwnership}
use custom_game_launcher_bac.Domain.Manifest.{
  ManifestEntry, max_manifest_entries, max_relative_path_length, is_sha256_hex,
}
use custom_game_launcher_bac.Domain.Delta.{DeltaFile, find_path}
use custom_game_launcher_bac.Database.{BuildRow, Db}
use custom_game_launcher_bac.Database.Builds.{find_by_id, files_for}
use custom_game_launcher_bac.Storage.DownloadUrlSigner.{expiry_for}
use custom_game_launcher_bac.Download.{DownloadEnv, InstalledFile, IntegrityReport}
use custom_game_launcher_bac.Download.Plan.{
  no_such_build, downloadable_build, sign_all, distinct_blob_bytes,
}

abbrev pub is_at : Bytes → InstalledFile → Bool
is_at path f = eq_bytes f.relative_path path

-- The tests of one reported file, with the files before it, which are the map `observed`.
unfoldable pub check_installed : List InstalledFile → InstalledFile → VoidResult
check_installed observed file =
    refuse_if
      (is_empty file.relative_path || ltb max_relative_path_length (length file.relative_path))
      invalid_input
      (lit "each reported file needs a path of at most "
        ∷ num max_relative_path_length
        ∷ lit " characters"
        ∷ [])
    >> refuse_if (not (is_sha256_hex file.sha256)) invalid_input
        (lit "sha256 must be 64 lowercase hex characters, for " ∷ text file.relative_path ∷ [])
    >> refuse_if (any (is_at file.relative_path) observed) conflict
        (lit "you reported " ∷ text file.relative_path ∷ lit " twice" ∷ [])

unfoldable pub check_all_installed : List InstalledFile → List InstalledFile → VoidResult
unfolding check_installed
check_all_installed observed [] = success
check_all_installed observed (f ∷ fs) =
    check_installed observed f >> check_all_installed (f ∷ observed) fs

-- What the client reports at a path.
unfoldable pub observed_at : List InstalledFile → Bytes → Option Bytes
observed_at installed path = elim (find_row (is_at path) installed) [
  | none ↦ none
  | some f ↦ some f.sha256
]

-- The tests of the loop over `expected`: the path is not reported, or with another content.
unfoldable pub is_missing : List InstalledFile → ManifestEntry → Bool
unfolding observed_at
is_missing installed e = not (is_some (observed_at installed e.relative_path))

unfoldable pub is_corrupt : List InstalledFile → ManifestEntry → Bool
unfolding observed_at
is_corrupt installed e = elim (observed_at installed e.relative_path) [
  | none ↦ false
  | some sha256 ↦ not (eq_bytes sha256 e.blob_sha256)
]

-- The paths that the loop collects, with either test, and the entries that it repairs.
unfoldable pub paths_that : (ManifestEntry → Bool) → List ManifestEntry → List Bytes
paths_that p [] = []
paths_that p (e ∷ es) = let rest = paths_that p es in if p e then e.relative_path ∷ rest else rest

unfoldable pub damaged_files : List InstalledFile → List ManifestEntry → List DeltaFile
unfolding is_missing is_corrupt
damaged_files installed [] = []
damaged_files installed (e ∷ es) =
    let rest = damaged_files installed es in
    if is_missing installed e || is_corrupt installed e
    then record { entry = e; copy_from_relative_path = [] } ∷ rest
    else rest

unfoldable pub unexpected_paths : List ManifestEntry → List InstalledFile → List Bytes
unexpected_paths expected [] = []
unexpected_paths expected (f ∷ fs) =
    let rest = unexpected_paths expected fs in
    if is_some (find_path f.relative_path expected) then rest else f.relative_path ∷ rest

module _ (env : DownloadEnv) where
  unfoldable pub integrity_report :
      ℕ → BuildOwnership → BuildRow → List ManifestEntry → List InstalledFile → IntegrityReport
  unfolding paths_that damaged_files unexpected_paths
  integrity_report now ownership build expected installed =
      let missing = paths_that (is_missing installed) expected in
      let corrupt = paths_that (is_corrupt installed) expected in
      let expires_at = expiry_for env.md5 env.signing now in
      let repair = sign_all env expires_at [] (damaged_files installed expected) in
      record {
        build_id = ownership.build_id;
        manifest_sha256 = build.manifest_sha256;
        intact = is_empty missing && is_empty corrupt;
        missing = missing;
        corrupt = corrupt;
        unexpected = sort_by (λ p. p) (unexpected_paths expected installed);
        repair = repair;
        repair_bytes = distinct_blob_bytes [] repair (pos 0);
        urls_expire_at = expires_at;
      }

  unfoldable pub verify_install :
      ℕ → Actor → Bytes → List InstalledFile → Db → Result IntegrityReport
  unfolding check_all_installed integrity_report
  verify_install now actor build_id installed db = elim (downloadable_build actor build_id db) [
    | err e ↦ err e
    | ok ownership ↦
        if ltb max_manifest_entries (length installed)
        then failure invalid_input
            (lit "an install may contain at most " ∷ num max_manifest_entries ∷ lit " files" ∷ [])
        else elim (check_all_installed [] installed) [
          | err e ↦ err e
          | ok _ ↦ elim (find_by_id db build_id) [
            | none ↦ no_such_build
            | some build ↦
                ok (integrity_report now ownership build (files_for db build_id) installed)
          ]
        ]
  ]

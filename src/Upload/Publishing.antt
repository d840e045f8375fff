-- ===== src/Upload/Publishing.antt =====
-- src/services/UploadService.cpp: the manifest of a build, as it is finalized and as it is served.
use custom_game_launcher_bac.Base.{
  ℕ, suc, not, List, [], ◌∷◌, Option, none, some, if◌then◌else◌, ltb, ◌==◌, is_some, any, length, ℤ,
  pos, ◌+ℤ◌, Bytes, text, Part, eq_bytes, Result, VoidResult, ok, err, failure, invalid_input,
  conflict, forbidden, not_found, lit, num, refuse_if, ◌>>◌, find_row,
}
use custom_game_launcher_bac.Domain.Actor.{Actor, can, game_download}
use custom_game_launcher_bac.Domain.Validation.{trim, is_uuid}
use custom_game_launcher_bac.Domain.Catalog.{may_read_build}
use custom_game_launcher_bac.Domain.Manifest.{
  ManifestEntry, validate_manifest, canonical_manifest_document,
}
use custom_game_launcher_bac.Database.{BlobRow, BuildRow, Db}
use custom_game_launcher_bac.Database.Blobs.{find_many, has_sha256}
use custom_game_launcher_bac.Database.Builds.{
  FinalizedManifest, find_by_id, find_ownership, files_for, finalize, is_ready,
}
use custom_game_launcher_bac.Upload.{UploadEnv, Moment}
use custom_game_launcher_bac.Upload.Transfer.{no_such_build, writable_build}

abbrev pub max_reported_missing : ℕ
max_reported_missing = 20

abbrev pub max_launch_args_length : ℕ
max_launch_args_length = 1000

pub record FinalizeBuildCommand : Type 0 where
  pub files : List ManifestEntry
  pub entrypoint_relative_path : Bytes
  pub default_launch_args : Bytes

pub record ManifestDocument : Type 0 where
  pub sha256 : Bytes
  pub json : Bytes

-- The loop that collects the distinct hashes of the files.
unfoldable pub distinct_hashes : List Bytes → List ManifestEntry → List Bytes
distinct_hashes seen [] = []
distinct_hashes seen (e ∷ es) =
    let repeated = distinct_hashes seen es in
    let rest = distinct_hashes (e.blob_sha256 ∷ seen) es in
    if any (λ s. eq_bytes s e.blob_sha256) seen then repeated else e.blob_sha256 ∷ rest

-- The map `sizes`, from which the first record of a hash is read, and its number of keys.
unfoldable pub size_of : List BlobRow → Bytes → Option ℤ
size_of records sha256 = elim (find_row (has_sha256 sha256) records) [
  | none ↦ none
  | some b ↦ some b.size_bytes
]

unfoldable pub count_sizes : List BlobRow → ℕ
count_sizes [] = 0
count_sizes (b ∷ bs) =
    let rest = count_sizes bs in
    if any (λ (c : BlobRow). eq_bytes c.sha256 b.sha256) bs then rest else suc rest

-- The detail of the refusal: the first hashes that the store lacks.
unfoldable pub report_missing : List BlobRow → ℕ → List Bytes → List Part
unfolding size_of
report_missing records reported [] = []
report_missing records reported (s ∷ ss) =
    let skipped = report_missing records reported ss in
    let rest = report_missing records (suc reported) ss in
    if is_some (size_of records s)
    then skipped
    else if reported == max_reported_missing
    then lit " and more" ∷ []
    else lit " " ∷ text s ∷ rest

-- The loop that puts the size of the store on each file; `sizes.at` has an entry for every hash.
unfoldable pub with_sizes : List BlobRow → List ManifestEntry → List ManifestEntry
unfolding size_of
with_sizes records [] = []
with_sizes records (e ∷ es) = elim (size_of records e.blob_sha256) [
  | none ↦ with_sizes records es
  | some size ↦ record e { size_bytes = size } ∷ with_sizes records es
]

unfoldable pub total_size : List ManifestEntry → ℤ
total_size [] = pos 0
total_size (e ∷ es) = e.size_bytes +ℤ total_size es

unfoldable pub finalized_manifest :
    (sha256_hex : Bytes → Bytes) → List BlobRow → FinalizeBuildCommand → FinalizedManifest
unfolding with_sizes total_size
finalized_manifest sha256_hex records command =
    let entrypoint = trim command.entrypoint_relative_path in
    let files = with_sizes records command.files in
    record {
      files = files;
      manifest_sha256 =
          sha256_hex (canonical_manifest_document files entrypoint command.default_launch_args);
      total_size_bytes = total_size files;
      entrypoint_relative_path = entrypoint;
      default_launch_args = command.default_launch_args;
    }

-- The tests of finalizeBuild behind writableBuild.
unfoldable pub check_command : List BlobRow → List Bytes → FinalizeBuildCommand → VoidResult
unfolding count_sizes report_missing
check_command records hashes command =
    refuse_if (ltb max_launch_args_length (length command.default_launch_args)) invalid_input
      (lit "launchArgs must be at most " ∷ num max_launch_args_length ∷ lit " characters" ∷ [])
    >> validate_manifest command.files (trim command.entrypoint_relative_path)
    >> refuse_if (not (count_sizes records == length hashes)) invalid_input
        (lit "upload these blobs before finalizing the build:" ∷ report_missing records 0 hashes)

unfoldable pub finalize_build :
    (env : UploadEnv) → Moment → Actor → Bytes → FinalizeBuildCommand → Db → Result BuildRow × Db
unfolding distinct_hashes check_command finalized_manifest
finalize_build env moment actor build_id command db = elim (writable_build actor build_id db) [
  | err e ↦ (err e, db)
  | ok build ↦
      let hashes = distinct_hashes [] command.files in
      let records = find_many db hashes in
      elim (check_command records hashes command) [
        | err e ↦ (err e, db)
        | ok _ ↦
            let (finalized, after) =
              finalize moment.now build.build_id (finalized_manifest env.sha256_hex records command)
                db in
            elim finalized [
              | none ↦ (failure conflict (lit "this build has already been finalized" ∷ []), after)
              | some b ↦ (ok b, after)
            ]
      ]
]

-- The part of manifest behind the tests.
unfoldable pub manifest_document : Db → Bytes → BuildRow → ManifestDocument
manifest_document db build_id build = record {
  sha256 = build.manifest_sha256;
  json =
      canonical_manifest_document (files_for db build_id) build.entrypoint_relative_path
        build.default_launch_args;
}

unfoldable pub manifest : Actor → Bytes → Db → Result ManifestDocument
unfolding manifest_document
manifest actor build_id db =
    if not (can actor game_download)
    then failure forbidden (lit "you cannot download builds" ∷ [])
    else if not (is_uuid build_id)
    then no_such_build
    else elim (find_ownership db build_id) [
      | none ↦ no_such_build
      | some ownership ↦
          if not (may_read_build ownership actor)
          then no_such_build
          else if not (is_ready ownership.status)
          then failure not_found (lit "this build is not downloadable yet" ∷ [])
          else elim (find_by_id db build_id) [
            | none ↦ no_such_build
            | some build ↦ ok (manifest_document db build_id build)
          ]
    ]

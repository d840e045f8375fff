-- ===== src/Download/Plan.antt =====
-- src/services/DownloadService.cpp: the plan of a download.
use custom_game_launcher_bac.Base.{
  ℕ, Bool, true, false, ◌&&◌, not, List, [], ◌∷◌, none, some, if◌then◌else◌, is_empty, any, ℤ, ◌+ℤ◌,
  Bytes, eq_bytes, Result, ok, err, failure, forbidden, not_found, invalid_input, lit, find_row,
}
use custom_game_launcher_bac.Domain.Actor.{Actor, can, game_download}
use custom_game_launcher_bac.Domain.Validation.{is_uuid}
use custom_game_launcher_bac.Domain.Catalog.{BuildOwnership, may_read_build}
use custom_game_launcher_bac.Domain.Manifest.{ManifestEntry}
use custom_game_launcher_bac.Domain.Delta.{
  DownloadKind, full, delta, DeltaFile, BuildDelta, compute_delta, full_download,
}
use custom_game_launcher_bac.Database.{BuildRow, Db}
use custom_game_launcher_bac.Database.Builds.{find_by_id, find_ownership, files_for, is_ready}
use custom_game_launcher_bac.Database.Downloads.{record_event}
use custom_game_launcher_bac.Storage.BlobStore.{storage_key_for}
use custom_game_launcher_bac.Storage.DownloadUrlSigner.{sign, expiry_for}
use custom_game_launcher_bac.Download.{DownloadEnv, DownloadFile, DownloadPlan}

abbrev pub no_such_build {ℓ} : {A : Type ℓ} → Result A
no_such_build = failure not_found (lit "no such build" ∷ [])

unfoldable pub downloadable_build : Actor → Bytes → Db → Result BuildOwnership
downloadable_build actor build_id db =
    if not (can actor game_download)
    then failure forbidden (lit "you cannot download builds" ∷ [])
    else if not (is_uuid build_id)
    then no_such_build
    else elim (find_ownership db build_id) [
      | none ↦ no_such_build
      | some ownership ↦
          if not (may_read_build ownership actor)
          then no_such_build
          else if not (is_ready ownership.status)
          then failure not_found (lit "this build is not downloadable yet" ∷ [])
          else ok ownership
    ]

-- The loop of distinctBlobBytes.
unfoldable pub distinct_blob_bytes : List Bytes → List DownloadFile → ℤ → ℤ
distinct_blob_bytes counted [] bytes = bytes
distinct_blob_bytes counted (f ∷ fs) bytes =
    let skip = distinct_blob_bytes counted fs bytes in
    let count =
      distinct_blob_bytes (f.entry.blob_sha256 ∷ counted) fs (bytes +ℤ f.entry.size_bytes) in
    if any (λ s. eq_bytes s f.entry.blob_sha256) counted then skip else count

abbrev pub download_file : DeltaFile → Bytes → DownloadFile
download_file f url = record {
  entry = f.entry;
  copy_from_relative_path = f.copy_from_relative_path;
  url = url;
}

abbrev pub is_url_of : Bytes → Bytes × Bytes → Bool
is_url_of sha256 (s, url) = eq_bytes s sha256

-- What follows fromBuildId: the files that are installed, and the version that they are of. A source
-- that the caller may not read counts as nothing installed.
unfoldable pub source_of : Actor → Bytes → BuildOwnership → Db → Result (List ManifestEntry × Bytes)
unfolding downloadable_build
source_of actor from_build_id target db =
    if is_empty from_build_id
    then ok ([], [])
    else elim (downloadable_build actor from_build_id db) [
      | err e ↦ ok ([], [])
      | ok source ↦
          if not (eq_bytes source.game_id target.game_id)
          then failure invalid_input
              (lit "the build you are updating from belongs to a different game" ∷ [])
          else ok (files_for db from_build_id, source.game_version_id)
    ]

abbrev pub is_delta : DownloadKind → Bool
is_delta delta = true
is_delta full = false

module _ (env : DownloadEnv) where
  -- The loop of signAll, with the map `urls`.
  unfoldable pub sign_all : ℤ → List (Bytes × Bytes) → List DeltaFile → List DownloadFile
  sign_all expires_at urls [] = []
  sign_all expires_at urls (f ∷ fs) = elim (find_row (is_url_of f.entry.blob_sha256) urls) [
    | some (s, url) ↦ download_file f url ∷ sign_all expires_at urls fs
    | none ↦
        let url = sign env.md5 env.signing (storage_key_for f.entry.blob_sha256) expires_at in
        download_file f url ∷ sign_all expires_at ((f.entry.blob_sha256, url) ∷ urls) fs
  ]

  unfoldable pub choose_delta : List ManifestEntry → List ManifestEntry → BuildDelta
  choose_delta installed files =
      let planned =
        if is_empty installed
        then full_download installed files
        else compute_delta installed files in
      if is_delta planned.kind && env.exceeds_threshold planned.download_bytes planned.total_bytes
      then full_download installed files
      else planned

  unfoldable pub download_plan : ℕ → BuildOwnership → BuildRow → BuildDelta → DownloadPlan
  unfolding sign_all
  download_plan now target build planned =
      let expires_at = expiry_for env.md5 env.signing now in
      record {
        build_id = target.build_id;
        game_id = target.game_id;
        game_version_id = target.game_version_id;
        kind = planned.kind;
        manifest_sha256 = build.manifest_sha256;
        entrypoint_relative_path = build.entrypoint_relative_path;
        default_launch_args = build.default_launch_args;
        files = sign_all expires_at [] planned.fetch;
        unchanged = planned.unchanged;
        remove = planned.remove;
        download_bytes = planned.download_bytes;
        total_bytes = planned.total_bytes;
        urls_expire_at = expires_at;
      }

  -- The event of a plan that has files to fetch.
  unfoldable pub record_plan : Actor → Bytes → DownloadPlan → Db → Db
  record_plan actor from_version_id plan db =
      if is_empty plan.files
      then db
      else (record_event
          (record {
            game_id = plan.game_id;
            build_id = plan.build_id;
            user_id = some actor.user_id;
            from_version_id = from_version_id;
            kind = plan.kind;
            bytes_planned = plan.download_bytes;
          })
          db).1

  unfoldable pub plan : ℕ → Actor → Bytes → Bytes → Db → Result DownloadPlan × Db
  unfolding downloadable_build source_of choose_delta download_plan record_plan
  plan now actor build_id from_build_id db = elim (downloadable_build actor build_id db) [
    | err e ↦ (err e, db)
    | ok target ↦ elim (source_of actor from_build_id target db) [
      | err e ↦ (err e, db)
      | ok source ↦ elim (find_by_id db build_id) [
        | none ↦ (no_such_build, db)
        | some build ↦
            let made =
              download_plan now target build (choose_delta source.0 (files_for db build_id)) in
            (ok made, record_plan actor source.1 made db)
      ]
    ]
  ]

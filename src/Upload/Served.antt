-- ===== src/Upload/Served.antt =====
-- src/services/UploadService.cpp: manifest and filesFor, on a build that finalizeBuild has finished.
use mathlib.Core.List.{Perm}
use mathlib.Core.List.Perm
use custom_game_launcher_bac.Base.{
  ◌≡◌, refl, sym, subst, ◌∙◌, ap, true, false, List, [], ◌∷◌, map, some, All, Bytes, eq_bytes, ok,
  sort_by, sort_by-perm,
}
use custom_game_launcher_bac.Domain.Actor.{Actor, can, game_download}
use custom_game_launcher_bac.Domain.Validation.{is_uuid, trim}
use custom_game_launcher_bac.Domain.Catalog.{BuildOwnership, may_read_build}
use custom_game_launcher_bac.Domain.Manifest.{ManifestEntry, canonical_manifest_document}
use custom_game_launcher_bac.Domain.Manifest.Order.{canonical_manifest_document-perm}
use custom_game_launcher_bac.Domain.Delta.Facts.{Distinct}
use custom_game_launcher_bac.Database.{BuildRow, BuildFile, Db}
use custom_game_launcher_bac.Database.Builds.{
  is_ready, find_by_id, find_ownership, entries_of, files_for, set_ready,
}
use custom_game_launcher_bac.Upload.{UploadEnv, Moment}
use custom_game_launcher_bac.Upload.Publishing.{
  FinalizeBuildCommand, ManifestDocument, distinct_hashes, total_size, finalized_manifest,
  finalize_build, manifest_document, manifest,
}
use custom_game_launcher_bac.Upload.Sizes.{Sized, with_sizes-Sized, Distinct-with_sizes}
use custom_game_launcher_bac.Upload.Complete.{content_of, finalized-contents}
use custom_game_launcher_bac.Upload.Finalized.{
  records, sent, finalized_db, finalize_build-eq-ok, checked, entries_finalized,
  find_by_id-finalized, ownership_id,
}

module _ (env : UploadEnv) (moment : Moment) (actor : Actor) (build_id : Bytes)
    (command : FinalizeBuildCommand) (db : Db) where
  document_finalized :
      (was : BuildRow)
      → Distinct command.files
      → entries_of db build_id db.build_files ≡ []
      → env.sha256_hex
          (manifest_document
            (finalized_db moment.now build_id (sent env moment actor build_id command db) db)
            build_id
            (set_ready moment.now (sent env moment actor build_id command db) was)).json
        ≡ (sent env moment actor build_id command db).manifest_sha256
  unfolding manifest_document finalized_manifest
  document_finalized was distinct fresh =
      let sent = sent env moment actor build_id command db in
      let records = records env moment actor build_id command db in
      let sorted = sort_by (λ (e : ManifestEntry). e.relative_path) sent.files in
      let args = command.default_launch_args in
      let entrypoint = trim command.entrypoint_relative_path in
      ap (λ files. env.sha256_hex (canonical_manifest_document files entrypoint args))
        (entries_finalized env moment actor build_id command db fresh)
      ∙ ap env.sha256_hex (
          sym (
            canonical_manifest_document-perm sent.files sorted entrypoint args
              (Distinct-with_sizes records command.files distinct)
              (Perm.symm (sort_by-perm (λ (e : ManifestEntry). e.relative_path) sent.files))))

manifest-eq-ok :
    (reader : Actor) (build_id : Bytes) (db : Db) (b : BuildRow) (o : BuildOwnership)
    → can reader game_download ≡ true
    → is_uuid build_id ≡ true
    → find_by_id db build_id ≡ some b
    → find_ownership db build_id ≡ some o
    → may_read_build o reader ≡ true
    → is_ready b.status ≡ true
    → manifest reader build_id db ≡ ok (manifest_document db build_id b)
unfolding manifest
manifest-eq-ok reader build_id db b o may uuid found owned readable done =
    let status = (ownership_id build_id db b o found owned).1 in
    let finished : is_ready o.status ≡ true = rw status done in
    rw (may, uuid, owned, readable, finished, found, manifest) refl

no_entries :
    (db : Db) (build_id : Bytes) (fs : List BuildFile)
    → All (λ (f : BuildFile). eq_bytes f.build_id build_id ≡ false) fs
    → entries_of db build_id fs ≡ []
unfolding entries_of
no_entries db build_id [] h = refl
no_entries db build_id (f ∷ fs) h = rw (h.0, entries_of) (no_entries db build_id fs h.1)

-- When finalizeBuild succeeds on a build that has no files yet, whoever may download the build gets
-- a manifest whose bytes hash to the address that was recorded for the build.
pub manifest-finalize_build :
    (env : UploadEnv) (moment : Moment) (actor reader : Actor) (build_id : Bytes)
    (command : FinalizeBuildCommand) (db after : Db) (build : BuildRow) (o : BuildOwnership)
    → All (λ (f : BuildFile). eq_bytes f.build_id build_id ≡ false) db.build_files
    → finalize_build env moment actor build_id command db ≡ (ok build, after)
    → can reader game_download ≡ true
    → find_ownership after build_id ≡ some o
    → may_read_build o reader ≡ true
    → (document : ManifestDocument) × (manifest reader build_id after ≡ ok document)
      × (document.sha256 ≡ build.manifest_sha256)
      × (env.sha256_hex document.json ≡ document.sha256)
unfolding manifest_document finalized_manifest
manifest-finalize_build env moment actor reader build_id command db after build o fresh h may owned
      readable =
    let (was, w, passed, same, left) =
      finalize_build-eq-ok env moment actor build_id command db build after h in
    let m = sent env moment actor build_id command db in
    let now_ready = set_ready moment.now m was in
    let stored = finalized_db moment.now build_id m db in
    let served =
      manifest-eq-ok reader build_id stored now_ready o may w.uuid
        (find_by_id-finalized moment.now build_id m db was w)
        (subst (λ d. find_ownership d build_id ≡ some o) left owned) readable refl in
    (
      manifest_document stored build_id now_ready,
      subst (λ d. manifest reader build_id d ≡ ok (manifest_document stored build_id now_ready))
          (sym left) served,
      ap (λ (b : BuildRow). b.manifest_sha256) (sym same),
      document_finalized env moment actor build_id command db was
          (checked env moment actor build_id command db passed).0
          (no_entries db build_id db.build_files fresh),
    )

-- When finalizeBuild succeeds on a build that has no files yet, the files of the build are those of
-- the command, each with the size that the store has for its blob, whatever size the command
-- claimed, and the size of the build is the sum of these.
pub files-finalize_build :
    (env : UploadEnv) (moment : Moment) (actor : Actor) (build_id : Bytes)
    (command : FinalizeBuildCommand) (db after : Db) (build : BuildRow)
    → All (λ (f : BuildFile). eq_bytes f.build_id build_id ≡ false) db.build_files
    → finalize_build env moment actor build_id command db ≡ (ok build, after)
    → (files : List ManifestEntry) × Perm (files_for after build_id) files
      × (map content_of files ≡ map content_of command.files)
      × All (Sized db) files
      × (build.total_size_bytes ≡ total_size files)
unfolding finalized_manifest
files-finalize_build env moment actor build_id command db after build fresh h =
    let (was, w, passed, same, left) =
      finalize_build-eq-ok env moment actor build_id command db build after h in
    let files = (sent env moment actor build_id command db).files in
    let joined =
      ap (λ d. files_for d build_id) left
      ∙ entries_finalized env moment actor build_id command db
          (no_entries db build_id db.build_files fresh) in
    (
      files,
      subst (λ fs. Perm fs files) (sym joined)
          (sort_by-perm (λ (e : ManifestEntry). e.relative_path) files),
      finalized-contents db command.files (checked env moment actor build_id command db passed).1,
      with_sizes-Sized db (distinct_hashes [] command.files) command.files,
      ap (λ (b : BuildRow). b.total_size_bytes) same,
    )

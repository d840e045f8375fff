-- ===== src/Upload/Finalized.antt =====
-- src/services/UploadService.cpp: what finalizeBuild leaves where it succeeds.
use custom_game_launcher_bac.Base.{
  ℕ, ◌≡◌, refl, sym, ◌∙◌, ap, inl, inr, true, ◌&&◌, List, [], ◌++◌, map, none, some, arith, ◌==◌,
  ==_iff, length, Bytes, eq_bytes_iff, ok, success, find_row_holds, find_row_narrow, update_rows,
  find_row-update_rows, sort_by, Option-cases, Result-cases,
}
use custom_game_launcher_bac.Domain.Actor.{Actor}
use custom_game_launcher_bac.Domain.Validation.{is_uuid, trim}
use custom_game_launcher_bac.Domain.Catalog.{BuildOwnership}
use custom_game_launcher_bac.Domain.Manifest.{ManifestEntry, validate_manifest}
use custom_game_launcher_bac.Domain.Manifest.Accepts.{validate_manifest_iff}
use custom_game_launcher_bac.Domain.Delta.Facts.{Distinct}
use custom_game_launcher_bac.Database.{BlobRow, BuildRow, Db}
use custom_game_launcher_bac.Database.Blobs.{find_many}
use custom_game_launcher_bac.Database.Builds.{
  FinalizedManifest, has_id, is_uploading, find_by_id, find_ownership, ownership_of, entries_of,
  files_for, file_row, set_ready, finalize,
}
use custom_game_launcher_bac.Database.Games.{find_game}
use custom_game_launcher_bac.Database.Games.Versions.{find_version}
use custom_game_launcher_bac.Upload.{UploadEnv, Moment}
use custom_game_launcher_bac.Upload.Transfer.{writable_build}
use custom_game_launcher_bac.Upload.Publishing.{
  FinalizeBuildCommand, distinct_hashes, count_sizes, with_sizes, finalized_manifest, check_command,
  finalize_build,
}
use custom_game_launcher_bac.Upload.Sizes.{with_sizes-Sized, entries_of-file_rows}

-- The build is the row of the id, and takes files.
pub record IsWritable (db : Db) (build_id : Bytes) (was : BuildRow) : Type 0 where
  pub found : find_by_id db build_id ≡ some was
  pub uploading : is_uploading was.status ≡ true
  pub id : was.build_id ≡ build_id
  pub uuid : is_uuid build_id ≡ true

found_id :
    (build_id : Bytes) (db : Db) (was : BuildRow)
    → find_by_id db build_id ≡ some was
    → was.build_id ≡ build_id
unfolding find_by_id
found_id build_id db was found =
    (eq_bytes_iff was.build_id build_id).0 (find_row_holds (has_id build_id) db.builds was found)

pub ownership_id :
    (build_id : Bytes) (db : Db) (was : BuildRow) (o : BuildOwnership)
    → find_by_id db build_id ≡ some was
    → find_ownership db build_id ≡ some o
    → (o.build_id ≡ was.build_id) × (o.status ≡ was.status)
unfolding find_ownership find_version find_game
ownership_id build_id db was o found owned =
    elim (Option-cases (find_version db was.game_version_id)) [
      | inl missing ↦ ground arith
      | inr (v, version) ↦ elim (Option-cases (find_game db v.game_id)) [
        | inl missing ↦ ground arith
        | inr (g, game) ↦
            let same : ownership_of was v g ≡ o = ground arith in
            (
              ap (λ (p : BuildOwnership). p.build_id) (sym same),
              ap (λ (p : BuildOwnership). p.status) (sym same),
            )
      ]
    ]

writable_build-eq-ok :
    (actor : Actor) (build_id : Bytes) (db : Db) (o : BuildOwnership)
    → writable_build actor build_id db ≡ ok o
    → (was : BuildRow) × (o.build_id ≡ was.build_id) × IsWritable db build_id was
unfolding writable_build find_ownership
writable_build-eq-ok actor build_id db o h = elim (Option-cases (find_by_id db build_id)) [
  | inl missing ↦
      let unowned : find_ownership db build_id ≡ none = rw (missing, find_ownership) refl in
      ground arith
  | inr (was, found) ↦
      let owned : find_ownership db build_id ≡ some o = ground arith in
      let (id, status) = ownership_id build_id db was o found owned in
      let open_build : is_uploading o.status ≡ true = ground arith in
      let uuid : is_uuid build_id ≡ true = ground arith in
      (
        was,
        id,
        record {
          found = found;
          uploading = rw (← status) open_build;
          id = found_id build_id db was found;
          uuid = uuid;
        },
      )
]

-- What finalize leaves.
abbrev pub finalized_db : ℕ → Bytes → FinalizedManifest → Db → Db
finalized_db now build_id m db = record db {
  builds =
      update_rows (λ (b : BuildRow). has_id build_id b && is_uploading b.status) (set_ready now m)
        db.builds;
  build_files = map (file_row build_id) m.files ++ db.build_files;
}

finalize-eq :
    (now : ℕ) (build_id : Bytes) (m : FinalizedManifest) (db : Db) (was : BuildRow)
    → IsWritable db build_id was
    → finalize now build_id m db ≡ (some (set_ready now m was), finalized_db now build_id m db)
unfolding finalize find_by_id
finalize-eq now build_id m db was w =
    let meets : (has_id build_id was && is_uploading was.status) ≡ true =
      rw (find_row_holds (has_id build_id) db.builds was w.found, w.uploading) refl in
    let same =
      find_row_narrow (has_id build_id)
        (λ (b : BuildRow). has_id build_id b && is_uploading b.status) db.builds was
        (λ b h. ground arith) meets w.found in
    rw (same, finalize) refl

pub find_by_id-finalized :
    (now : ℕ) (build_id : Bytes) (m : FinalizedManifest) (db : Db) (was : BuildRow)
    → IsWritable db build_id was
    → find_by_id (finalized_db now build_id m db) build_id ≡ some (set_ready now m was)
unfolding find_by_id
find_by_id-finalized now build_id m db was w =
    let meets : (has_id build_id was && is_uploading was.status) ≡ true =
      rw (find_row_holds (has_id build_id) db.builds was w.found, w.uploading) refl in
    find_row-update_rows (has_id build_id)
      (λ (b : BuildRow). has_id build_id b && is_uploading b.status) (set_ready now m) db.builds was
      (λ b. refl) w.found
    ∙ rw meets refl

ok_inj : {A : Type 0} {a b : A} → ok a ≡ ok b → a ≡ b
ok_inj h = cc

module _ (env : UploadEnv) (moment : Moment) (actor : Actor) (build_id : Bytes)
    (command : FinalizeBuildCommand) (db : Db) where
  abbrev pub records : List BlobRow
  records = find_many db (distinct_hashes [] command.files)

  abbrev pub sent : FinalizedManifest
  sent = finalized_manifest env.sha256_hex records command

  -- What a finalize that succeeds has done.
  abbrev pub Finalized : BuildRow → Db → Type 0
  Finalized build after =
      (was : BuildRow) × IsWritable db build_id was
      × (check_command records (distinct_hashes [] command.files) command ≡ success)
      × (build ≡ set_ready moment.now sent was)
      × (after ≡ finalized_db moment.now build_id sent db)

  finalize_build-passed :
      (o : BuildOwnership) (build : BuildRow) (after : Db)
      → writable_build actor build_id db ≡ ok o
      → check_command records (distinct_hashes [] command.files) command ≡ success
      → finalize moment.now o.build_id sent db ≡ (some build, after)
      → finalize_build env moment actor build_id command db ≡ (ok build, after)
  unfolding finalize_build
  finalize_build-passed o build after writable passed done =
      rw (writable, passed, done, finalize_build) (ap (λ d. (ok build, d)) (ap (λ r. r.1) done))

  pub finalize_build-eq-ok :
      (build : BuildRow) (after : Db)
      → finalize_build env moment actor build_id command db ≡ (ok build, after)
      → Finalized build after
  unfolding finalize_build
  finalize_build-eq-ok build after h = elim (Result-cases (writable_build actor build_id db)) [
    | inr (e, refused) ↦ ground arith
    | inl (o, writable) ↦
        elim (Result-cases (check_command records (distinct_hashes [] command.files) command)) [
          | inr (e, refused) ↦ ground arith
          | inl (_, passed) ↦
              let (was, same, w) = writable_build-eq-ok actor build_id db o writable in
              let id : o.build_id ≡ build_id = same ∙ w.id in
              let done = finalize-eq moment.now build_id sent db was w in
              let result =
                finalize_build-passed o (set_ready moment.now sent was)
                  (finalized_db moment.now build_id sent db) writable passed (rw id done) in
              let both = sym h ∙ result in
              (was, w, passed, ok_inj (ap (λ r. r.0) both), ap (λ r. r.1) both)
        ]
  ]

  pub checked :
      check_command records (distinct_hashes [] command.files) command ≡ success
      → Distinct command.files × (count_sizes records ≡ length (distinct_hashes [] command.files))
  unfolding check_command
  checked h =
      let accepted : validate_manifest command.files (trim command.entrypoint_relative_path)
          ≡ success =
        ground arith in
      let same : (count_sizes records == length (distinct_hashes [] command.files)) ≡ true =
        ground arith in
      (
        ((validate_manifest_iff command.files (trim command.entrypoint_relative_path)).0
            accepted).distinct,
        (==_iff (count_sizes records) (length (distinct_hashes [] command.files))).0 same,
      )

  -- The rows of the build, joined with their blobs, are the files that were hashed.
  pub entries_finalized :
      entries_of db build_id db.build_files ≡ []
      → files_for (finalized_db moment.now build_id sent db) build_id
        ≡ sort_by (λ (e : ManifestEntry). e.relative_path) sent.files
  unfolding files_for finalized_manifest entries_of
  entries_finalized fresh = ap (sort_by (λ (e : ManifestEntry). e.relative_path)) (
      entries_of-file_rows db build_id (with_sizes records command.files) db.build_files
        (with_sizes-Sized db (distinct_hashes [] command.files) command.files) fresh)

-- ===== src/Download/Repaired.antt =====
-- src/services/DownloadService.cpp: what the report on an install tells, and what repairs it.
use mathlib.Core.List.{mem-cons_self, mem-cons, mem-map_of_mem}
use mathlib.Core.Logic.Or
use custom_game_launcher_bac.Base.{
  ℕ, ◌≡◌, refl, sym, subst, ap, ◌∙◌, ◌↔◌, inl, inr, true, false, ◌&&◌, ◌||◌, List, [], ◌∷◌, map,
  Mem, none, some, arith, is_empty, ltb, length, All, Bytes, eq_bytes, eq_bytes_iff, ok,
  Option-cases, Bool-cases, Result-cases,
}
use custom_game_launcher_bac.Domain.Actor.{Actor}
use custom_game_launcher_bac.Domain.Catalog.{BuildOwnership}
use custom_game_launcher_bac.Domain.Manifest.{ManifestEntry, max_manifest_entries}
use custom_game_launcher_bac.Domain.Delta.{find_path}
use custom_game_launcher_bac.Domain.Delta.Facts.{
  Distinct, Found, All-Found, relative_path-find_path,
}
use custom_game_launcher_bac.Domain.Delta.Apply.{
  Tree, Action, run, file_action, Aims, Covers, run_plan,
}
use custom_game_launcher_bac.Database.{BuildRow, Db}
use custom_game_launcher_bac.Database.Builds.{find_by_id, files_for}
use custom_game_launcher_bac.Storage.DownloadUrlSigner.{expiry_for}
use custom_game_launcher_bac.Download.{DownloadEnv, InstalledFile, IntegrityReport}
use custom_game_launcher_bac.Download.Plan.{downloadable_build}
use custom_game_launcher_bac.Download.Signed.{delta_file, delta_file-sign_all}
use custom_game_launcher_bac.Download.Verify.{
  check_all_installed, observed_at, is_missing, is_corrupt, paths_that, damaged_files,
  integrity_report, verify_install,
}

-- The install has the content of the entry at its path.
abbrev pub IsInstalled : List InstalledFile → ManifestEntry → Type 0
IsInstalled installed e = observed_at installed e.relative_path ≡ some e.blob_sha256

sound_iff :
    (installed : List InstalledFile) (e : ManifestEntry)
    → (is_missing installed e || is_corrupt installed e) ≡ false ↔ IsInstalled installed e
unfolding is_missing is_corrupt
sound_iff installed e = elim (Option-cases (observed_at installed e.relative_path)) [
  | inl lost ↦ (λ h. ground arith, λ h. ground arith)
  | inr (s, found) ↦ (
    λ h. ground (arith, eq_bytes_iff s e.blob_sha256),
    λ h. ground (arith, eq_bytes_iff s e.blob_sha256),
  )
]

All-IsInstalled_iff :
    (installed : List InstalledFile) (es : List ManifestEntry)
    → ((is_empty (paths_that (is_missing installed) es)
          && is_empty (paths_that (is_corrupt installed) es))
        ≡ true)
      ↔ All (IsInstalled installed) es
unfolding paths_that
All-IsInstalled_iff installed [] = (λ h. tt, λ h. refl)
All-IsInstalled_iff installed (e ∷ es) =
    let rest = All-IsInstalled_iff installed es in
    let here = sound_iff installed e in
    (
      λ h. (here.0 (ground arith), rest.0 (ground arith)),
      λ (k, ks). let clean = here.1 k in let others = rest.1 ks in ground arith,
    )

-- The install after the repair: the content of the build at its paths, what was there elsewhere.
abbrev pub repaired : List InstalledFile → List ManifestEntry → Tree
repaired installed expected path = elim (find_path path expected) [
  | none ↦ observed_at installed path
  | some e ↦ some e.blob_sha256
]

module _ (installed : List InstalledFile) (expected : List ManifestEntry) where
  damaged-Aims :
      (es : List ManifestEntry)
      → All (Found expected) es
      → All
          (Aims (observed_at installed) (repaired installed expected))
          (map file_action (damaged_files installed es))
  unfolding damaged_files
  damaged-Aims [] h = tt
  damaged-Aims (e ∷ es) h =
      let rest = damaged-Aims es h.1 in
      elim (Bool-cases (is_missing installed e || is_corrupt installed e)) [
        | inr fine ↦ rw (fine, damaged_files) rest
        | inl damaged ↦ rw (damaged, damaged_files, All) (rw (h.0, repaired) refl, rest)
      ]

  mem-damaged_files :
      (es : List ManifestEntry) (p : Bytes) (e : ManifestEntry)
      → find_path p es ≡ some e
      → (is_missing installed e || is_corrupt installed e) ≡ true
      → Mem (record { entry = e; copy_from_relative_path = [] }) (damaged_files installed es)
  unfolding damaged_files find_path
  mem-damaged_files [] p e found damaged = cc
  mem-damaged_files (x ∷ es) p e found damaged = elim (Bool-cases (eq_bytes x.relative_path p)) [
    | inl hit ↦
        let same : x ≡ e = ground arith in rw same (rw (damaged, damaged_files) mem-cons_self)
    | inr miss ↦
        let later = mem-damaged_files es p e (ground arith) damaged in
        elim (Bool-cases (is_missing installed x || is_corrupt installed x)) [
          | inr fine ↦ rw (fine, damaged_files) later
          | inl broken ↦ rw (broken, damaged_files) (mem-cons.1 (Or.inr later))
        ]
  ]

  damaged-Covers :
      Covers
        (observed_at installed)
        (repaired installed expected)
        (map file_action (damaged_files installed expected))
  damaged-Covers p = elim (Option-cases (find_path p expected)) [
    | inl other ↦ inl (rw (other, repaired) refl)
    | inr (e, found) ↦
        let path = relative_path-find_path p expected e found in
        elim (Bool-cases (is_missing installed e || is_corrupt installed e)) [
          | inr fine ↦ inl (
              ap (observed_at installed) (sym path)
              ∙ (sound_iff installed e).0 fine
              ∙ rw (found, repaired) refl)
          | inl damaged ↦ inr (
            file_action (record { entry = e; copy_from_relative_path = [] }),
            mem-map_of_mem file_action (mem-damaged_files expected p e found damaged),
            path,
          )
        ]
  ]

module _ (env : DownloadEnv) (now : ℕ) (actor : Actor) (build_id : Bytes)
    (installed : List InstalledFile) (db : Db) where
  verify_install-report :
      (report : IntegrityReport)
      → verify_install env now actor build_id installed db ≡ ok report
      → (ownership : BuildOwnership) × (build : BuildRow) × (report
          ≡ integrity_report env now ownership build (files_for db build_id) installed)
  unfolding verify_install
  verify_install-report report h = elim (Result-cases (downloadable_build actor build_id db)) [
    | inr (e, refused) ↦ ground arith
    | inl (ownership, readable) ↦ elim (Bool-cases (ltb max_manifest_entries (length installed))) [
      | inl many ↦ ground arith
      | inr few ↦ elim (Result-cases (check_all_installed [] installed)) [
        | inr (e, refused) ↦ ground arith
        | inl (_, passed) ↦ elim (Option-cases (find_by_id db build_id)) [
          | inl lost ↦ ground arith
          | inr (build, there) ↦ (ownership, build, ground arith)
        ]
      ]
    ]
  ]

  -- The report calls an install intact exactly when it has the content of each file of the build, so
  -- that other files do not count.
  pub verify_install_iff :
      (report : IntegrityReport)
      → verify_install env now actor build_id installed db ≡ ok report
      → (report.intact ≡ true) ↔ All (IsInstalled installed) (files_for db build_id)
  unfolding integrity_report
  verify_install_iff report h =
      let (ownership, build, is) = verify_install-report report h in
      subst
        (λ (r : IntegrityReport).
          (r.intact ≡ true) ↔ All (IsInstalled installed) (files_for db build_id))
        (sym is) (All-IsInstalled_iff installed (files_for db build_id))

  -- Fetching the files of the repair, in any order and with repeats, gives the install the content of
  -- the build at each path of the build, and leaves every other path as it was, where no path of the
  -- build is listed twice.
  pub run-repair :
      (report : IntegrityReport) (steps : List Action)
      → Distinct (files_for db build_id)
      → verify_install env now actor build_id installed db ≡ ok report
      → ((a : Action) → Mem a steps ↔ Mem a (map file_action (map delta_file report.repair)))
      → (p : Bytes)
      → run steps (observed_at installed) p ≡ repaired installed (files_for db build_id) p
  unfolding integrity_report
  run-repair report steps distinct h same =
      let (ownership, build, is) = verify_install-report report h in
      let expected = files_for db build_id in
      let steps_of =
        ap (λ (r : IntegrityReport). map file_action (map delta_file r.repair)) is
        ∙ ap (map file_action) (
            delta_file-sign_all env (expiry_for env.md5 env.signing now) []
              (damaged_files installed expected)) in
      run_plan (observed_at installed) (repaired installed expected)
        (map file_action (damaged_files installed expected)) steps
        (damaged-Aims installed expected expected (All-Found expected distinct))
        (damaged-Covers installed expected)
        (λ a. subst (λ acts. Mem a steps ↔ Mem a acts) steps_of (same a))

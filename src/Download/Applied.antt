-- ===== src/Download/Applied.antt =====
-- src/services/DownloadService.cpp: a plan, carried out by the client that asked for it.
use custom_game_launcher_bac.Base.{
  ℕ, ◌≡◌, refl, sym, subst, ap, ◌∙◌, ◌↔◌, ◌⊎◌, inl, inr, true, ◌&&◌, List, [], ◌∷◌, ◌++◌, map, Mem,
  arith, if◌then◌else◌, is_empty, All, Bytes, eq_bytes, ok, Option-cases, Bool-cases, Result-cases,
}
use custom_game_launcher_bac.Domain.Actor.{Actor}
use custom_game_launcher_bac.Domain.Validation.{is_uuid}
use custom_game_launcher_bac.Domain.Catalog.{BuildOwnership}
use custom_game_launcher_bac.Domain.Manifest.{ManifestEntry}
use custom_game_launcher_bac.Domain.Delta.{BuildDelta, full_download, compute_delta}
use custom_game_launcher_bac.Domain.Delta.Facts.{content, Distinct}
use custom_game_launcher_bac.Domain.Delta.Apply.{Action, delete, run, actions, file_action}
use custom_game_launcher_bac.Domain.Delta.Plans.{run-compute_delta, run-full_download}
use custom_game_launcher_bac.Database.{BuildRow, Db}
use custom_game_launcher_bac.Database.Builds.{find_by_id, files_for}
use custom_game_launcher_bac.Storage.DownloadUrlSigner.{expiry_for}
use custom_game_launcher_bac.Download.{DownloadEnv, DownloadPlan}
use custom_game_launcher_bac.Download.Plan.{
  downloadable_build, source_of, choose_delta, is_delta, download_plan, plan,
}
use custom_game_launcher_bac.Download.Signed.{
  delta_file, delta_file-sign_all, IsSigned, All-IsSigned,
}

-- The steps of a plan as the client reads them.
abbrev pub plan_actions : DownloadPlan → List Action
plan_actions made = map file_action (map delta_file made.files) ++ map delete made.remove

choose_delta-cases :
    (env : DownloadEnv) (installed target : List ManifestEntry)
    → (choose_delta env installed target ≡ full_download installed target)
      ⊎ (choose_delta env installed target ≡ compute_delta installed target)
unfolding choose_delta
choose_delta-cases env installed target =
    let planned =
      if is_empty installed
      then full_download installed target
      else compute_delta installed target in
    elim (Bool-cases
      (is_delta planned.kind && env.exceeds_threshold planned.download_bytes planned.total_bytes)) [
        | inl costly ↦ inl (rw (costly, choose_delta) refl)
        | inr cheap ↦ elim (Bool-cases (is_empty installed)) [
          | inl first ↦ inl (rw (cheap, choose_delta) (rw first refl))
          | inr update ↦ inr (rw (cheap, choose_delta) (rw update refl))
        ]
      ]

run-choose_delta :
    (env : DownloadEnv) (installed target : List ManifestEntry) (steps : List Action)
    → Distinct target
    → ((a : Action) → Mem a steps ↔ Mem a (actions (choose_delta env installed target)))
    → (p : Bytes) → run steps (content installed) p ≡ content target p
run-choose_delta env installed target steps d same =
    elim (choose_delta-cases env installed target) [
      | inl whole ↦
          run-full_download installed target steps d
            (λ a. subst (λ chosen. Mem a steps ↔ Mem a (actions chosen)) whole (same a))
      | inr part ↦
          run-compute_delta installed target steps d
            (λ a. subst (λ chosen. Mem a steps ↔ Mem a (actions chosen)) part (same a))
    ]

module _ (env : DownloadEnv) (now : ℕ) (actor : Actor) (build_id from_build_id : Bytes)
    (db : Db) where
  -- What a plan that is made has looked up.
  Made : DownloadPlan → Type 0
  Made made =
      (target : BuildOwnership) × (source : List ManifestEntry × Bytes) × (build : BuildRow)
      × (downloadable_build actor build_id db ≡ ok target)
      × (source_of actor from_build_id target db ≡ ok source)
      × (made
          ≡ download_plan env now target build (choose_delta env source.0 (files_for db build_id)))

  plan-Made :
      (made : DownloadPlan) → (plan env now actor build_id from_build_id db).0 ≡ ok made → Made made
  unfolding plan Made
  plan-Made made h = elim (Result-cases (downloadable_build actor build_id db)) [
    | inr (e, refused) ↦ ground arith
    | inl (target, readable) ↦ elim (Result-cases (source_of actor from_build_id target db)) [
      | inr (e, refused) ↦ ground arith
      | inl (source, found) ↦ elim (Option-cases (find_by_id db build_id)) [
        | inl lost ↦ ground arith
        | inr (build, there) ↦ (target, source, build, readable, found, ground arith)
      ]
    ]
  ]

  plan_actions-download_plan :
      (target : BuildOwnership) (build : BuildRow) (planned : BuildDelta)
      → plan_actions (download_plan env now target build planned) ≡ actions planned
  unfolding download_plan
  plan_actions-download_plan target build planned =
      ap (λ fs. map file_action fs ++ map delete planned.remove)
        (delta_file-sign_all env (expiry_for env.md5 env.signing now) [] planned.fetch)

  empty_refused :
      (id : Bytes) (source : BuildOwnership)
      → is_empty id ≡ true
      → downloadable_build actor id db ≡ ok source
      → ⊥
  unfolding downloadable_build is_uuid
  empty_refused [] source first readable = ground arith
  empty_refused (c ∷ cs) source first readable = ground arith

  source_of-readable :
      (target source : BuildOwnership) (found : List ManifestEntry × Bytes)
      → downloadable_build actor from_build_id db ≡ ok source
      → source_of actor from_build_id target db ≡ ok found
      → found.0 ≡ files_for db from_build_id
  unfolding source_of
  source_of-readable target source found readable h = elim (Bool-cases (is_empty from_build_id)) [
    | inl first ↦ absurd (empty_refused from_build_id source first readable)
    | inr update ↦ elim (Bool-cases (eq_bytes source.game_id target.game_id)) [
      | inr other ↦ ground arith
      | inl same ↦ ground arith
    ]
  ]

  -- A plan from a build that the caller may read, carried out on an install of that build in any
  -- order and with repeats, gives the content of the requested build at every path, where no path of
  -- that build is listed twice; and the address of each file is the one for its blob.
  pub run-plan :
      (source : BuildOwnership) (made : DownloadPlan) (steps : List Action)
      → Distinct (files_for db build_id)
      → downloadable_build actor from_build_id db ≡ ok source
      → (plan env now actor build_id from_build_id db).0 ≡ ok made
      → ((a : Action) → Mem a steps ↔ Mem a (plan_actions made))
      → ((p : Bytes)
          → run steps (content (files_for db from_build_id)) p ≡ content (files_for db build_id) p)
        × All (IsSigned env made.urls_expire_at) made.files
  unfolding Made download_plan
  run-plan source made steps distinct readable h same =
      let (target, found, build, _, looked_up, is) = plan-Made made h in
      let planned = choose_delta env found.0 (files_for db build_id) in
      let steps_of = ap plan_actions is ∙ plan_actions-download_plan target build planned in
      let installed = source_of-readable target source found readable looked_up in
      (
        λ p.
            ap (λ files. run steps (content files) p) (sym installed)
            ∙ run-choose_delta env found.0 (files_for db build_id) steps distinct
                (λ a. subst (λ acts. Mem a steps ↔ Mem a acts) steps_of (same a)) p,
        subst (λ (d : DownloadPlan). All (IsSigned env d.urls_expire_at) d.files) (sym is)
            (All-IsSigned env (expiry_for env.md5 env.signing now) [] planned.fetch tt),
      )

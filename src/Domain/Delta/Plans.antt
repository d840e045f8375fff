-- ===== src/Domain/Delta/Plans.antt =====
-- The plans of computeDelta and fullDownload, carried out by a client.
use mathlib.Core.List.{mem-cons_self, mem-cons, mem-append, mem-map_of_mem}
use mathlib.Core.Logic.Or
use custom_game_launcher_bac.Base.{
  ◌≡◌, refl, sym, ◌∙◌, ap, ◌↔◌, ◌⊎◌, inl, inr, List, [], ◌∷◌, ◌++◌, map, Mem, none, some, arith,
  is_empty, if◌then◌else◌, All, All-map, All-append, All-sort_by, Bytes, eq_bytes, sort_by,
  mem-sort_by, Bool-cases, Option-cases,
}
use custom_game_launcher_bac.Domain.Manifest.{ManifestEntry}
use custom_game_launcher_bac.Domain.Delta.{
  DeltaFile, find_path, same_content, surviving_content, copy_source, paths_to_remove, fetch_of,
  fetch_whole, compute_delta, full_download,
}
use custom_game_launcher_bac.Domain.Delta.Facts.{
  content, Distinct, Found, All-Found, relative_path-find_path, content-same_content,
  surviving_content_sound, All-fetch_of, mem-fetch_of, All-paths_to_remove, mem-paths_to_remove,
}
use custom_game_launcher_bac.Domain.Delta.Apply.{
  Action, store, copy, delete, run, actions, file_action, Aims, target_path, Covers, run_plan,
}

-- The file that the loop of computeDelta, or of fullDownload, puts into the plan for an entry.
abbrev changed_file : List ManifestEntry → List ManifestEntry → ManifestEntry → DeltaFile
changed_file installed target e = record {
  entry = e;
  copy_from_relative_path = copy_source installed target e;
}

abbrev whole_file : ManifestEntry → DeltaFile
whole_file e = record { entry = e; copy_from_relative_path = [] }

-- A file of a plan as `run_plan` wants it.
abbrev FileAims : List ManifestEntry → List ManifestEntry → DeltaFile → Type 0
FileAims installed target f = Aims (content installed) (content target) (file_action f)

Found-content :
    (target : List ManifestEntry) (e : ManifestEntry)
    → Found target e
    → content target e.relative_path ≡ some e.blob_sha256
Found-content target e h = rw h

copy_source_aims :
    (installed target : List ManifestEntry) (e : ManifestEntry) (q : Bytes)
    → Distinct target
    → Found target e
    → surviving_content installed target e.blob_sha256 ≡ some q
    → (content installed q ≡ content target q) × (content target e.relative_path ≡ content target q)
copy_source_aims installed target e q d found h =
    let (kept, at, same, blob, path) =
      surviving_content_sound installed (Found target) target e.blob_sha256 q (All-Found target d)
        h in
    let old = content-same_content installed kept same in
    let new = Found-content target kept at in
    (
      ap (content installed) (sym path) ∙ old ∙ sym new ∙ ap (content target) path,
      Found-content target e found
          ∙ ap (λ (s : Bytes). some s) (sym blob)
          ∙ sym new
          ∙ ap (content target) path,
    )

fetch_aims :
    (installed target : List ManifestEntry)
    → Distinct target
    → (f : DeltaFile)
    → Found target f.entry × (f.copy_from_relative_path ≡ copy_source installed target f.entry)
    → FileAims installed target f
unfolding copy_source
fetch_aims installed target d f (found, source) =
    elim (Option-cases (surviving_content installed target f.entry.blob_sha256)) [
      | inl lost ↦
          let empty : f.copy_from_relative_path ≡ [] = source ∙ rw (lost, copy_source) in
          rw empty (Found-content target f.entry found)
      | inr (q, kept) ↦
          let from : f.copy_from_relative_path ≡ q = source ∙ rw (kept, copy_source) in
          rw from (by_source q (copy_source_aims installed target f.entry q d found kept))
    ]
  where
    by_source :
        (q : Bytes)
        → (content installed q ≡ content target q)
          × (content target f.entry.relative_path ≡ content target q)
        → Aims (content installed) (content target) (
            if is_empty q
            then store f.entry.relative_path f.entry.blob_sha256
            else copy f.entry.relative_path q)
    by_source [] h = Found-content target f.entry found
    by_source (c ∷ q) h = h

whole_aims :
    (installed target es : List ManifestEntry)
    → All (Found target) es
    → All (FileAims installed target) (fetch_whole es)
whole_aims installed target [] h = tt
whole_aims installed target (e ∷ es) h =
    (Found-content target e h.0, whole_aims installed target es h.1)

mem-fetch_whole :
    (es : List ManifestEntry) (p : Bytes) (e : ManifestEntry)
    → find_path p es ≡ some e
    → Mem (record { entry = e; copy_from_relative_path = [] }) (fetch_whole es)
unfolding find_path
mem-fetch_whole [] p e h = cc
mem-fetch_whole (x ∷ es) p e h = elim (Bool-cases (eq_bytes x.relative_path p)) [
  | inl hit ↦ let same : x ≡ e = ground arith in rw same mem-cons_self
  | inr miss ↦ mem-cons.1 (Or.inr (mem-fetch_whole es p e (ground arith)))
]

target_path-file_action : (f : DeltaFile) → target_path (file_action f) ≡ f.entry.relative_path
target_path-file_action f = ground arith

-- The actions of the sorted lists of a plan.
abbrev steps_of : List DeltaFile → List Bytes → List Action
steps_of fetch remove =
    map file_action (sort_by (λ f. f.entry.relative_path) fetch)
    ++ map delete (sort_by (λ p. p) remove)

All-mapped {ℓ κ} :
    {A B : Type ℓ} (P : B → Type κ) (f : A → B) (xs : List A)
    → All (λ a. P (f a)) xs
    → All P (map f xs)
All-mapped P f [] h = tt
All-mapped P f (x ∷ xs) h = (h.0, All-mapped P f xs h.1)

module _ (installed target : List ManifestEntry) (fetch : List DeltaFile)
    (remove : List Bytes) where
  steps_aim :
      All (FileAims installed target) fetch
      → All (λ p. content target p ≡ none) remove
      → All (Aims (content installed) (content target)) (steps_of fetch remove)
  steps_aim files gone =
      All-append _ _ _ (All-mapped _ file_action _ (All-sort_by _ _ fetch files))
        (All-mapped _ delete _ (All-sort_by _ _ remove gone))

  mem-fetch-steps_of : (f : DeltaFile) → Mem f fetch → Mem (file_action f) (steps_of fetch remove)
  mem-fetch-steps_of f m = mem-append.1 (Or.inl (mem-map_of_mem _ ((mem-sort_by _ f fetch).1 m)))

  mem-remove-steps_of : (p : Bytes) → Mem p remove → Mem (delete p) (steps_of fetch remove)
  mem-remove-steps_of p m = mem-append.1 (Or.inr (mem-map_of_mem _ ((mem-sort_by _ p remove).1 m)))

removed_or_same :
    (installed target : List ManifestEntry) (p : Bytes)
    → find_path p target ≡ none
    → (content installed p ≡ content target p) ⊎ Mem p (paths_to_remove installed target)
removed_or_same installed target p gone = elim (Option-cases (find_path p installed)) [
  | inl never ↦ inl (rw (gone, never))
  | inr (e, at) ↦ inr (mem-paths_to_remove installed target p e at gone)
]

-- Where no path of the target build is listed twice, carrying out the plan of computeDelta on an
-- install gives the content of the target at every path, in whatever order its steps are made, and also where steps are made again: copies
-- read a file that no step changes, and nothing else of the install is left over.
pub run-compute_delta :
    (installed target : List ManifestEntry) (steps : List Action)
    → Distinct target
    → ((a : Action) → Mem a steps ↔ Mem a (actions (compute_delta installed target)))
    → (p : Bytes) → run steps (content installed) p ≡ content target p
unfolding compute_delta
run-compute_delta installed target steps d same =
    run_plan _ _ (steps_of fetch remove) steps (steps_aim installed target fetch remove files gone)
      covers same
  where
    fetch : List DeltaFile
    fetch = fetch_of installed target target

    remove : List Bytes
    remove = paths_to_remove installed target

    files : All (FileAims installed target) fetch
    files =
        All-map _ _ fetch (fetch_aims installed target d)
          (All-fetch_of installed (Found target) target target (All-Found target d))

    gone : All (λ p. content target p ≡ none) remove
    gone = All-paths_to_remove installed target

    covers : Covers (content installed) (content target) (steps_of fetch remove)
    covers p = elim (Option-cases (find_path p target)) [
      | inl lost ↦ elim (removed_or_same installed target p lost) [
        | inl right ↦ inl right
        | inr m ↦ inr (delete p, mem-remove-steps_of installed target fetch remove p m, refl)
      ]
      | inr (e, at) ↦
          let path = relative_path-find_path p target e at in
          elim (Bool-cases (same_content installed e)) [
            | inl kept ↦
                inl (
                  ap (content installed) (sym path) ∙ content-same_content installed e kept ∙ rw at)
            | inr changed ↦ inr (
              file_action (changed_file installed target e),
              mem-fetch-steps_of installed target fetch remove (changed_file installed target e)
                  (mem-fetch_of installed target target p e at changed),
              target_path-file_action (changed_file installed target e) ∙ path,
            )
          ]
    ]

-- Where no path of the target build is listed twice, carrying out the plan of fullDownload on an
-- install gives the content of the target at every path too, in any order and with repeats.
pub run-full_download :
    (installed target : List ManifestEntry) (steps : List Action)
    → Distinct target
    → ((a : Action) → Mem a steps ↔ Mem a (actions (full_download installed target)))
    → (p : Bytes) → run steps (content installed) p ≡ content target p
unfolding full_download
run-full_download installed target steps d same =
    run_plan _ _ (steps_of fetch remove) steps
      (steps_aim installed target fetch remove
        (whole_aims installed target target (All-Found target d))
        (All-paths_to_remove installed target))
      covers same
  where
    fetch : List DeltaFile
    fetch = fetch_whole target

    remove : List Bytes
    remove = paths_to_remove installed target

    covers : Covers (content installed) (content target) (steps_of fetch remove)
    covers p = elim (Option-cases (find_path p target)) [
      | inl lost ↦ elim (removed_or_same installed target p lost) [
        | inl right ↦ inl right
        | inr m ↦ inr (delete p, mem-remove-steps_of installed target fetch remove p m, refl)
      ]
      | inr (e, at) ↦ inr (
        file_action (whole_file e),
        mem-fetch-steps_of installed target fetch remove (whole_file e)
            (mem-fetch_whole target p e at),
        target_path-file_action (whole_file e) ∙ relative_path-find_path p target e at,
      )
    ]

-- ===== src/Domain/Delta/Facts.antt =====
-- What the parts of a plan hold: lemmas on the loops of src/domain/Delta.cpp.
use mathlib.Core.Option
use mathlib.Core.List.{mem-cons_self, mem-cons}
use mathlib.Core.Logic.Or
use custom_game_launcher_bac.Base.{
  ◌≡◌, refl, ap, inl, inr, true, false, List, [], ◌∷◌, Mem, Option, none, some, arith, All, All-map,
  Bytes, eq_bytes, eq_bytes_iff, eq_bytes_refl, Bool-cases, Option-cases,
}
use custom_game_launcher_bac.Domain.Manifest.{ManifestEntry}
use custom_game_launcher_bac.Domain.Delta.{
  DeltaFile, find_path, same_content, surviving_content, paths_to_remove, copy_source, fetch_of,
}

-- The content that a list of files puts at a path.
abbrev pub content : List ManifestEntry → Bytes → Option Bytes
content entries path = Option.map (λ (e : ManifestEntry). e.blob_sha256) (find_path path entries)

-- No path is listed twice.
abbrev pub Distinct : List ManifestEntry → Type 0
Distinct [] = Unit {0}
Distinct (e ∷ es) = (find_path e.relative_path es ≡ none) × Distinct es

-- Each entry is what its path finds.
abbrev pub Found : List ManifestEntry → ManifestEntry → Type 0
Found entries e = find_path e.relative_path entries ≡ some e

pub relative_path-find_path :
    (p : Bytes) (es : List ManifestEntry) (e : ManifestEntry)
    → find_path p es ≡ some e
    → e.relative_path ≡ p
unfolding find_path
relative_path-find_path p [] e h = cc
relative_path-find_path p (x ∷ es) e h =
    ground (arith, eq_bytes_iff x.relative_path p, relative_path-find_path p es e)

Found-cons :
    (x : ManifestEntry) (es : List ManifestEntry)
    → find_path x.relative_path es ≡ none
    → (e : ManifestEntry) → Found es e
    → Found (x ∷ es) e
unfolding find_path
Found-cons x es new e h = elim (Bool-cases (eq_bytes x.relative_path e.relative_path)) [
  | inl hit ↦
      let same : x.relative_path ≡ e.relative_path = (eq_bytes_iff _ _).0 hit in
      cc (new, h, ap (λ p. find_path p es) same)
  | inr miss ↦ rw miss h
]

pub All-Found : (es : List ManifestEntry) → Distinct es → All (Found es) es
unfolding find_path
All-Found [] d = tt
All-Found (x ∷ es) d =
    (rw (eq_bytes_refl x.relative_path), All-map _ _ es (Found-cons x es d.0) (All-Found es d.1))

pub content-same_content :
    (installed : List ManifestEntry) (e : ManifestEntry)
    → same_content installed e ≡ true
    → content installed e.relative_path ≡ some e.blob_sha256
unfolding same_content
content-same_content installed e h = elim (Option-cases (find_path e.relative_path installed)) [
  | inl lost ↦ ground arith
  | inr (found, at) ↦ ground (arith, eq_bytes_iff found.blob_sha256 e.blob_sha256)
]

module _ (installed : List ManifestEntry) (P : ManifestEntry → Type 0) where
  -- A path to copy from is one that the target keeps, and it holds the blob.
  pub surviving_content_sound :
      (es : List ManifestEntry) (sha256 q : Bytes)
      → All P es
      → surviving_content installed es sha256 ≡ some q
      → (e : ManifestEntry) × P e
        × (same_content installed e ≡ true)
        × (e.blob_sha256 ≡ sha256)
        × (e.relative_path ≡ q)
  unfolding surviving_content
  surviving_content_sound [] sha256 q all h = cc
  surviving_content_sound (x ∷ es) sha256 q all h = elim (Bool-cases (same_content installed x)) [
    | inr lost ↦ surviving_content_sound es sha256 q all.1 (ground arith)
    | inl kept ↦ elim (Bool-cases (eq_bytes x.blob_sha256 sha256)) [
      | inl hit ↦ (x, all.0, kept, (eq_bytes_iff _ _).0 hit, ground arith)
      | inr miss ↦ surviving_content_sound es sha256 q all.1 (ground arith)
    ]
  ]

  pub All-fetch_of :
      (target es : List ManifestEntry)
      → All P es
      → All
          (λ (f : DeltaFile).
            P f.entry × (f.copy_from_relative_path ≡ copy_source installed target f.entry))
          (fetch_of installed target es)
  unfolding fetch_of
  All-fetch_of target [] all = tt
  All-fetch_of target (x ∷ es) all = elim (Bool-cases (same_content installed x)) [
    | inl kept ↦ rw kept (All-fetch_of target es all.1)
    | inr changed ↦ rw changed ((all.0, refl), All-fetch_of target es all.1)
  ]

-- Every entry that changed is fetched.
pub mem-fetch_of :
    (installed target es : List ManifestEntry) (p : Bytes) (e : ManifestEntry)
    → find_path p es ≡ some e
    → same_content installed e ≡ false
    → Mem
        (record { entry = e; copy_from_relative_path = copy_source installed target e })
        (fetch_of installed target es)
unfolding fetch_of find_path
mem-fetch_of installed target [] p e h k = cc
mem-fetch_of installed target (x ∷ es) p e h k = elim (Bool-cases (eq_bytes x.relative_path p)) [
  | inl hit ↦ let same : x ≡ e = ground arith in rw same (rw k mem-cons_self)
  | inr miss ↦
      let later = mem-fetch_of installed target es p e (ground arith) k in
      elim (Bool-cases (same_content installed x)) [
        | inl kept ↦ rw kept later
        | inr changed ↦ rw changed (mem-cons.1 (Or.inr later))
      ]
]

pub All-paths_to_remove :
    (installed target : List ManifestEntry)
    → All (λ p. content target p ≡ none) (paths_to_remove installed target)
unfolding paths_to_remove
All-paths_to_remove [] target = tt
All-paths_to_remove (x ∷ es) target = elim (Option-cases (find_path x.relative_path target)) [
  | inl gone ↦ rw gone (rw gone, All-paths_to_remove es target)
  | inr (e, at) ↦ rw at (All-paths_to_remove es target)
]

-- Every installed path that the target lacks is removed.
pub mem-paths_to_remove :
    (installed target : List ManifestEntry) (p : Bytes) (e : ManifestEntry)
    → find_path p installed ≡ some e
    → find_path p target ≡ none
    → Mem p (paths_to_remove installed target)
unfolding paths_to_remove find_path
mem-paths_to_remove [] target p e h k = cc
mem-paths_to_remove (x ∷ es) target p e h k = elim (Bool-cases (eq_bytes x.relative_path p)) [
  | inl hit ↦
      let same : x.relative_path ≡ p = (eq_bytes_iff _ _).0 hit in rw same (rw k mem-cons_self)
  | inr miss ↦
      let later = mem-paths_to_remove es target p e (ground arith) k in
      elim (Option-cases (find_path x.relative_path target)) [
        | inl gone ↦ rw gone (mem-cons.1 (Or.inr later))
        | inr (f, at) ↦ rw at later
      ]
]

-- ===== src/Domain/Delta/Cost.antt =====
-- What a plan costs, and how it divides the target build.
use mathlib.Core.List.Perm
use mathlib.Core.List.{perm_middle}
use custom_game_launcher_bac.Base.{
  ◌≡◌, refl, ap, inl, inr, true, List, [], ◌∷◌, ◌++◌, map, Perm, none, arith, is_empty, any, All,
  All-map, All-sort_by, ℤ, pos, ◌+ℤ◌, ◌≤ℤ◌, int_laws, Bytes, eq_bytes, eq_bytes_refl, sort_by,
  sort_by-perm, Bool-cases,
}
use custom_game_launcher_bac.Domain.Manifest.{ManifestEntry}
use custom_game_launcher_bac.Domain.Delta.{
  DeltaFile, find_path, same_content, paths_to_remove, copy_source, unchanged_of, fetch_of,
  fetch_whole, transfer_loop, transfer_bytes, installed_size_loop, installed_size, compute_delta,
  full_download,
}
use custom_game_launcher_bac.Domain.Delta.Facts.{
  content, Distinct, Found, All-Found, All-paths_to_remove,
}

-- No entry has a negative size.
abbrev pub Sized : List ManifestEntry → Type 0
Sized = All (λ (e : ManifestEntry). pos 0 ≤ℤ e.size_bytes)

size_mono :
    (es : List ManifestEntry) (a b : ℤ)
    → a ≤ℤ b
    → installed_size_loop es a ≤ℤ installed_size_loop es b
unfolding installed_size_loop
size_mono [] a b h = h
size_mono (e ∷ es) a b h = size_mono es (a +ℤ e.size_bytes) (b +ℤ e.size_bytes) (omega int_laws)

size_grows :
    (es : List ManifestEntry) (e : ManifestEntry) (a b : ℤ)
    → pos 0 ≤ℤ e.size_bytes
    → b ≤ℤ installed_size_loop es a
    → b ≤ℤ installed_size_loop es (a +ℤ e.size_bytes)
size_grows es e a b h k = omega (arith, size_mono es a (a +ℤ e.size_bytes) (omega int_laws))

fetch_of_cost :
    (installed target es : List ManifestEntry) (counted : List Bytes) (bytes : ℤ)
    → Sized es
    → transfer_loop counted (fetch_of installed target es) bytes ≤ℤ installed_size_loop es bytes
unfolding fetch_of transfer_loop installed_size_loop
fetch_of_cost installed target [] counted bytes h = omega arith
fetch_of_cost installed target (e ∷ es) counted bytes h =
    let skip = fetch_of_cost installed target es counted bytes h.1 in
    elim (Bool-cases (same_content installed e)) [
      | inl kept ↦ rw kept (size_grows es e bytes _ h.0 skip)
      | inr changed ↦ rw changed (elim (Bool-cases (is_empty (copy_source installed target e))) [
        | inr copied ↦ rw copied (size_grows es e bytes _ h.0 skip)
        | inl travels ↦
            rw travels (elim (Bool-cases (any (λ s. eq_bytes s e.blob_sha256) counted)) [
              | inl paid ↦ rw paid (size_grows es e bytes _ h.0 skip)
              | inr new ↦ rw new (
                  fetch_of_cost installed target es (e.blob_sha256 ∷ counted)
                    (bytes +ℤ e.size_bytes) h.1)
            ])
      ])
    ]

whole_cost :
    (es : List ManifestEntry) (counted : List Bytes) (bytes : ℤ)
    → Sized es
    → transfer_loop counted (fetch_whole es) bytes ≤ℤ installed_size_loop es bytes
unfolding transfer_loop installed_size_loop
whole_cost [] counted bytes h = omega arith
whole_cost (e ∷ es) counted bytes h =
    elim (Bool-cases (any (λ s. eq_bytes s e.blob_sha256) counted)) [
      | inl paid ↦ rw paid (size_grows es e bytes _ h.0 (whole_cost es counted bytes h.1))
      | inr new ↦ rw new (whole_cost es (e.blob_sha256 ∷ counted) (bytes +ℤ e.size_bytes) h.1)
    ]

-- Where no entry of the target has a negative size, neither the delta nor the full download is
-- expected to transfer more than the size of the target, and both report that same size.
pub download_bytes-le-total_bytes :
    (installed target : List ManifestEntry)
    → Sized target
    → ((compute_delta installed target).download_bytes
        ≤ℤ (compute_delta installed target).total_bytes)
      × ((full_download installed target).download_bytes
          ≤ℤ (full_download installed target).total_bytes)
      × ((compute_delta installed target).total_bytes
          ≡ (full_download installed target).total_bytes)
unfolding compute_delta full_download transfer_bytes installed_size
download_bytes-le-total_bytes installed target h =
    (fetch_of_cost installed target target [] (pos 0) h, whole_cost target [] (pos 0) h, refl)

abbrev pub entries_of : List DeltaFile → List ManifestEntry
entries_of = map (λ f. f.entry)

fetch_unchanged-perm :
    (installed target es : List ManifestEntry)
    → Perm (entries_of (fetch_of installed target es) ++ unchanged_of installed es) es
unfolding fetch_of unchanged_of
fetch_unchanged-perm installed target [] = Perm.refl []
fetch_unchanged-perm installed target (e ∷ es) =
    let rest = Perm.cons e (fetch_unchanged-perm installed target es) in
    elim (Bool-cases (same_content installed e)) [
      | inl kept ↦ rw kept (Perm.trans (perm_middle _ _) rest)
      | inr changed ↦ rw changed rest
    ]

not_found :
    (target : List ManifestEntry) (p : Bytes) → content target p ≡ none → find_path p target ≡ none
not_found target p h = ground arith

-- The delta fetches or leaves alone each entry of the target exactly once, and removes only paths
-- that the target does not have.
pub compute_delta-perm :
    (installed target : List ManifestEntry)
    → Perm
        (entries_of (compute_delta installed target).fetch
          ++ (compute_delta installed target).unchanged)
        target
      × All (λ p. find_path p target ≡ none) (compute_delta installed target).remove
unfolding compute_delta
compute_delta-perm installed target = (
  Perm.trans
      (Perm.append (Perm.map _ (sort_by-perm _ (fetch_of installed target target)))
        (sort_by-perm _ (unchanged_of installed target)))
      (fetch_unchanged-perm installed target target),
  All-sort_by _ _ (paths_to_remove installed target) (
      All-map _ _ (paths_to_remove installed target) (not_found target)
        (All-paths_to_remove installed target)),
)

same_content_self :
    (installed : List ManifestEntry) (e : ManifestEntry)
    → Found installed e
    → same_content installed e ≡ true
unfolding same_content
same_content_self installed e h = rw (h, same_content) (eq_bytes_refl e.blob_sha256)

fetch_of_self :
    (installed target es : List ManifestEntry)
    → All (Found installed) es
    → fetch_of installed target es ≡ []
unfolding fetch_of
fetch_of_self installed target [] h = refl
fetch_of_self installed target (e ∷ es) h =
    rw (same_content_self installed e h.0) (fetch_of_self installed target es h.1)

paths_to_remove_self :
    (target es : List ManifestEntry) → All (Found target) es → paths_to_remove es target ≡ []
unfolding paths_to_remove
paths_to_remove_self target [] h = refl
paths_to_remove_self target (e ∷ es) h = rw h.0 (paths_to_remove_self target es h.1)

-- The delta from a build to itself, where no path is listed twice, has nothing to fetch, nothing to
-- remove and nothing to transfer.
pub compute_delta_self :
    (target : List ManifestEntry)
    → Distinct target
    → ((compute_delta target target).fetch ≡ [])
      × ((compute_delta target target).remove ≡ [])
      × ((compute_delta target target).download_bytes ≡ pos 0)
unfolding compute_delta transfer_bytes sort_by
compute_delta_self target d =
    let found = All-Found target d in
    let empty = fetch_of_self target target target found in
    (
      ap (sort_by (λ f. f.entry.relative_path)) empty,
      ap (sort_by (λ p. p)) (paths_to_remove_self target target found),
      ap transfer_bytes empty,
    )

-- ===== src/Domain/Manifest/Accepts.antt =====
-- What validateManifest accepts: the loop with its set of seen paths, against plain conditions.
use custom_game_launcher_bac.Base.{
  ◌≤◌, ◌≡◌, refl, ◌↔◌, true, false, ◌||◌, List, [], ◌∷◌, none, arith, is_some, length, All, pos,
  ◌≤ℤ◌, Bytes, eq_bytes_iff, ok, success,
}
use custom_game_launcher_bac.Domain.Manifest.{
  ManifestEntry, max_manifest_entries, is_sha256_hex, validate_relative_path, is_seen, check_entry,
  check_entries, validate_manifest,
}
use custom_game_launcher_bac.Domain.Delta.{find_path}
use custom_game_launcher_bac.Domain.Delta.Facts.{Distinct}

-- What is asked of each entry alone.
pub record EntryIsValid (e : ManifestEntry) : Type 0 where
  pub path : validate_relative_path e.relative_path ≡ success
  pub sha256 : is_sha256_hex e.blob_sha256 ≡ true
  pub size : pos 0 ≤ℤ e.size_bytes

-- What is asked of the manifest.
pub record ManifestIsValid (entries : List ManifestEntry) (entrypoint : Bytes) : Type 0 where
  pub nonempty : 1 ≤ length entries
  pub bounded : length entries ≤ max_manifest_entries
  pub entrypoint_path : validate_relative_path entrypoint ≡ success
  pub valid : All EntryIsValid entries
  pub distinct : Distinct entries
  pub entrypoint_listed : is_some (find_path entrypoint entries) ≡ true

abbrev Unseen : List Bytes → ManifestEntry → Type 0
Unseen seen e = is_seen e.relative_path seen ≡ false

check_entry_iff :
    (seen : List Bytes) (e : ManifestEntry)
    → (check_entry seen e ≡ success) ↔ (EntryIsValid e × Unseen seen e)
unfolding check_entry
check_entry_iff seen e = (λ h. (ground arith, ground arith), λ h. ground arith)

-- The set that the loop ends with has the paths it started with and those of the entries.
is_seen-check_entries :
    (seen after : List Bytes) (es : List ManifestEntry) (p : Bytes)
    → check_entries seen es ≡ ok after
    → is_seen p after ≡ (is_some (find_path p es) || is_seen p seen)
unfolding check_entries find_path
is_seen-check_entries seen after [] p h = ground arith
is_seen-check_entries seen after (e ∷ es) p h =
    ground (arith, is_seen-check_entries (e.relative_path ∷ seen) after es p)

Unseen-apart :
    (p : Bytes) (seen : List Bytes) (es : List ManifestEntry)
    → All (Unseen (p ∷ seen)) es
    → (find_path p es ≡ none) × All (Unseen seen) es
unfolding find_path
Unseen-apart p seen [] h = (refl, tt)
Unseen-apart p seen (e ∷ es) h = ground (
  arith,
  Unseen-apart p seen es h.1,
  eq_bytes_iff p e.relative_path,
  eq_bytes_iff e.relative_path p,
)

apart-Unseen :
    (p : Bytes) (seen : List Bytes) (es : List ManifestEntry)
    → find_path p es ≡ none
    → All (Unseen seen) es
    → All (Unseen (p ∷ seen)) es
unfolding find_path
apart-Unseen p seen [] h k = tt
apart-Unseen p seen (e ∷ es) h k =
    ground (
      arith,
      apart-Unseen p seen es,
      eq_bytes_iff p e.relative_path,
      eq_bytes_iff e.relative_path p,
    )

check_entries_sound :
    (seen after : List Bytes) (es : List ManifestEntry)
    → check_entries seen es ≡ ok after
    → All EntryIsValid es × Distinct es × All (Unseen seen) es
unfolding check_entries
check_entries_sound seen after [] h = (tt, tt, tt)
check_entries_sound seen after (e ∷ es) h =
    let first : check_entry seen e ≡ success = ground arith in
    let rest : check_entries (e.relative_path ∷ seen) es ≡ ok after = ground arith in
    let (valid, new) = (check_entry_iff seen e).0 first in
    let (valids, distinct, unseen) = check_entries_sound (e.relative_path ∷ seen) after es rest in
    let (apart, news) = Unseen-apart e.relative_path seen es unseen in
    ((valid, valids), (apart, distinct), (new, news))

check_entries_complete :
    (seen : List Bytes) (es : List ManifestEntry)
    → All EntryIsValid es
    → Distinct es
    → All (Unseen seen) es
    → (after : List Bytes) × (check_entries seen es ≡ ok after)
unfolding check_entries
check_entries_complete seen [] v d u = (seen, refl)
check_entries_complete seen (e ∷ es) v d u =
    let (after, rest) =
      check_entries_complete (e.relative_path ∷ seen) es v.1 d.1
        (apart-Unseen e.relative_path seen es d.0 u.1) in
    (after, rw ((check_entry_iff seen e).1 (v.0, u.0)) rest)

All-Unseen : (es : List ManifestEntry) → All (Unseen []) es
All-Unseen [] = tt
All-Unseen (e ∷ es) = (refl, All-Unseen es)

scanned :
    (entries : List ManifestEntry) (entrypoint : Bytes)
    → validate_manifest entries entrypoint ≡ success
    → (after : List Bytes) × (check_entries [] entries ≡ ok after)
      × (is_seen entrypoint after ≡ true)
unfolding validate_manifest
scanned entries entrypoint h = ground arith

counted :
    (entries : List ManifestEntry) (entrypoint : Bytes)
    → validate_manifest entries entrypoint ≡ success
    → (1 ≤ length entries)
      × (length entries ≤ max_manifest_entries)
      × (validate_relative_path entrypoint ≡ success)
unfolding validate_manifest
counted [] entrypoint h = cc
counted (e ∷ es) entrypoint h = (omega arith, ground arith, ground arith)

accepted :
    (entries : List ManifestEntry) (entrypoint : Bytes) (after : List Bytes)
    → 1 ≤ length entries
    → length entries ≤ max_manifest_entries
    → validate_relative_path entrypoint ≡ success
    → check_entries [] entries ≡ ok after
    → is_seen entrypoint after ≡ true
    → validate_manifest entries entrypoint ≡ success
unfolding validate_manifest
accepted [] entrypoint after few many path scan listed = absurd (omega arith)
accepted (e ∷ es) entrypoint after few many path scan listed = ground arith

-- The manifest is accepted exactly when it has between 1 and 200000 entries, the entrypoint and the
-- path of each entry are accepted, each hash is 64 lowercase hexadecimal digits, no size is negative,
-- no path is listed twice, and the entrypoint is the path of some entry.
pub validate_manifest_iff :
    (entries : List ManifestEntry) (entrypoint : Bytes)
    → (validate_manifest entries entrypoint ≡ success) ↔ ManifestIsValid entries entrypoint
validate_manifest_iff entries entrypoint = (sound, complete)
  where
    sound : validate_manifest entries entrypoint ≡ success → ManifestIsValid entries entrypoint
    sound h =
        let (after, scan, listed) = scanned entries entrypoint h in
        let (few, many, path) = counted entries entrypoint h in
        let (valid, distinct, _) = check_entries_sound [] after entries scan in
        record {
          nonempty = few;
          bounded = many;
          entrypoint_path = path;
          valid = valid;
          distinct = distinct;
          entrypoint_listed =
              ground (arith, is_seen-check_entries [] after entries entrypoint scan);
        }

    complete : ManifestIsValid entries entrypoint → validate_manifest entries entrypoint ≡ success
    complete v =
        let (after, scan) =
          check_entries_complete [] entries v.valid v.distinct (All-Unseen entries) in
        accepted entries entrypoint after v.nonempty v.bounded v.entrypoint_path scan
          (ground (arith, is_seen-check_entries [] after entries entrypoint scan))

-- ===== src/Storage/BlobStore/Addressed.antt =====
-- src/storage/BlobStore.cpp: commit, and the addresses of the stored files.
use custom_game_launcher_bac.Base.{
  ◌≡◌, ◌⊎◌, refl, sym, subst, ◌∙◌, ap, inl, inr, true, [], ◌∷◌, some, arith, is_some, drop, ℤ,
  Bytes, eq_bytes, eq_bytes_iff, eq_bytes_refl, VoidResult, success, Bool-cases, Option-cases,
  Result-cases,
}
use custom_game_launcher_bac.Domain.Manifest.{is_sha256_hex}
use custom_game_launcher_bac.Storage.BlobStore.{
  Disk, FileCalls, storage_key_for, write_into, write_at, discard, move_file, move_to_store,
  sha256_file, commit,
}

drop-storage_key_for : (s : Bytes) → is_sha256_hex s ≡ true → drop 6 (storage_key_for s) ≡ s
unfolding storage_key_for is_sha256_hex
drop-storage_key_for (a ∷ b ∷ c ∷ d ∷ s) h = rw (h, storage_key_for) refl
drop-storage_key_for [] h = cc
drop-storage_key_for (a ∷ []) h = cc
drop-storage_key_for (a ∷ b ∷ []) h = cc
drop-storage_key_for (a ∷ b ∷ c ∷ []) h = cc

-- Two addresses have different places.
pub storage_key_for-injective :
    (s t : Bytes)
    → is_sha256_hex s ≡ true
    → is_sha256_hex t ≡ true
    → storage_key_for s ≡ storage_key_for t
    → s ≡ t
storage_key_for-injective s t hs ht same =
    sym (drop-storage_key_for s hs) ∙ ap (drop 6) same ∙ drop-storage_key_for t ht

-- What is stored at the place of an address hashes to it.
abbrev pub Addressed : (Bytes → Bytes) → Disk → Type 0
Addressed sha256_hex disk =
    (s content : Bytes)
    → is_sha256_hex s ≡ true
    → disk.stored (storage_key_for s) ≡ some content
    → sha256_hex content ≡ s

-- Every stored file is still there.
abbrev pub Keeps : Disk → Disk → Type 0
Keeps before after =
    (name : Bytes) → is_some (before.stored name) ≡ true → is_some (after.stored name) ≡ true

pub stored-write_at :
    (calls : FileCalls) (id : Bytes) (offset : ℤ) (chunk : Bytes) (disk : Disk)
    → (write_at calls id offset chunk disk).1.stored ≡ disk.stored
unfolding write_at write_into
stored-write_at calls id offset chunk disk = ground arith

module _ (sha256_hex : Bytes → Bytes) (calls : FileCalls) (id sha256 : Bytes) (disk : Disk) where
  -- What is stored where the staging file is moved to its place.
  abbrev Moved : Disk → Type 0
  Moved after =
      (content : Bytes) × (disk.staging id ≡ some content)
      × (is_sha256_hex sha256 ≡ true)
      × (sha256_hex content ≡ sha256)
      × (after.stored ≡ move_file (some content) (storage_key_for sha256) disk.stored)

  abbrev Ends : Disk → Type 0
  Ends after = (after.stored ≡ disk.stored) ⊎ Moved after

  move_to_store-Ends :
      (content : Bytes)
      → disk.staging id ≡ some content
      → is_sha256_hex sha256 ≡ true
      → sha256_hex content ≡ sha256
      → Ends (move_to_store calls id sha256 disk).1
  unfolding move_to_store discard
  move_to_store-Ends content staged hex same = elim (Bool-cases calls.directory_made) [
    | inr stuck ↦ rw (stuck, move_to_store) (inl refl)
    | inl made ↦ elim (Bool-cases (is_some (disk.stored (storage_key_for sha256)))) [
      | inl there ↦ rw (made, there, move_to_store) (inl refl)
      | inr absent ↦ elim (Bool-cases calls.moved) [
        | inr stuck ↦ rw (made, absent, stuck, move_to_store) (inl refl)
        | inl done ↦
            rw (made, absent, done, move_to_store)
              (inr (
                content,
                staged,
                hex,
                same,
                ap (λ c. move_file c (storage_key_for sha256) disk.stored) staged,
              ))
      ]
    ]
  ]

  commit-Ends : Ends (commit sha256_hex calls id sha256 disk).1
  unfolding commit sha256_file discard
  commit-Ends = elim (Bool-cases (is_sha256_hex sha256)) [
    | inr bad ↦ rw (bad, commit) (inl refl)
    | inl hex ↦ elim (Result-cases (sha256_file sha256_hex calls id disk)) [
      | inr (e, failed) ↦ rw (hex, failed, commit) (inl refl)
      | inl (actual, read) ↦ elim (Bool-cases (eq_bytes actual sha256)) [
        | inr differs ↦ rw (hex, read, differs, commit) (inl refl)
        | inl same ↦ elim (Option-cases (disk.staging id)) [
          | inl missing ↦ ground arith
          | inr (content, staged) ↦
              let digest : sha256_hex content ≡ actual = ground arith in
              let reached : commit sha256_hex calls id sha256 disk
                  ≡ move_to_store calls id sha256 disk =
                rw (hex, read, same, commit) refl in
              subst (λ (r : VoidResult × Disk). Ends r.1) (sym reached)
                (move_to_store-Ends content staged hex
                  (digest ∙ (eq_bytes_iff actual sha256).0 same))
        ]
      ]
    ]
  ]

  pub commit-Addressed :
      Addressed sha256_hex disk → Addressed sha256_hex (commit sha256_hex calls id sha256 disk).1
  commit-Addressed h s content hex found = elim commit-Ends [
    | inl same ↦ h s content hex (sym (ap (λ f. f (storage_key_for s)) same) ∙ found)
    | inr (moved, staged, good, digest, after) ↦
        let here = sym (ap (λ f. f (storage_key_for s)) after) ∙ found in
        elim (Bool-cases (eq_bytes (storage_key_for s) (storage_key_for sha256))) [
          | inl hit ↦
              let address =
                storage_key_for-injective s sha256 hex good
                  ((eq_bytes_iff (storage_key_for s) (storage_key_for sha256)).0 hit) in
              let same : moved ≡ content = ground arith in
              ap sha256_hex (sym same) ∙ digest ∙ sym address
          | inr miss ↦ h s content hex (ground arith)
        ]
  ]

  pub commit-Keeps : Keeps disk (commit sha256_hex calls id sha256 disk).1
  commit-Keeps name h = elim commit-Ends [
    | inl same ↦ ap (λ f. is_some (f name)) same ∙ h
    | inr (moved, staged, good, digest, after) ↦ ap (λ f. is_some (f name)) after ∙ ground arith
  ]

  -- A commit that succeeds has a file at the place of the address.
  pub commit-stores :
      (commit sha256_hex calls id sha256 disk).0 ≡ success
      → (is_sha256_hex sha256 ≡ true)
        × (is_some ((commit sha256_hex calls id sha256 disk).1.stored (storage_key_for sha256))
            ≡ true)
  unfolding commit sha256_file move_to_store discard
  commit-stores h = ground (arith, eq_bytes_refl (storage_key_for sha256))

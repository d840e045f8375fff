-- ===== src/Storage/BlobStore.antt =====
-- src/storage/BlobStore.cpp. A directory is a function from names to contents; a staging file is
-- named by its session and a stored one by its storage key. Whether a call of the file system
-- succeeds is an argument of the operation that makes the call.
pub mod Addressed
use custom_game_launcher_bac.Base.{
  ℕ, zero, suc, ◌+◌, ◌-◌, Bool, ◌&&◌, not, [], ◌∷◌, ◌++◌, Option, none, some, if◌then◌else◌,
  is_some, take, drop, length, ℤ, pos, pos_part, ltb_ℤ, eqb_ℤ, Bytes, codes, eq_bytes, Result, ok,
  err, VoidResult, success, failure, invalid_input, not_found, internal, text, conflict,
  dependency_failure, lit,
}
use custom_game_launcher_bac.Domain.Manifest.{is_sha256_hex}

abbrev pub Files : Type 0
Files = Bytes → Option Bytes

abbrev pub put_file : Bytes → Bytes → Files → Files
put_file name content files other = if eq_bytes other name then some content else files other

-- What a rename puts under the new name.
abbrev pub move_file : Option Bytes → Bytes → Files → Files
move_file content name files other = if eq_bytes other name then content else files other

abbrev pub remove_file : Bytes → Files → Files
remove_file name files other = if eq_bytes other name then none else files other

pub record Disk : Type 0 where
  pub staging : Files
  pub stored : Files

-- Which calls of the file system succeed, and how much of a failing write arrives.
pub record FileCalls : Type 0 where
  pub directory_made : Bool
  pub file_created : Bool
  pub file_opened : Bool
  pub sought : Bool
  pub written : Bool
  pub arrived : ℕ
  pub hash_opened : Bool
  pub hash_read : Bool
  pub moved : Bool
  pub message : Bytes

unfoldable pub storage_key_for : Bytes → Bytes
storage_key_for sha256 =
    if not (is_sha256_hex sha256)
    then []
    else take 2 sha256 ++ (codes "/" ++ (take 2 (drop 2 sha256) ++ (codes "/" ++ sha256)))

unfoldable pub contains_blob : Disk → Bytes → Bool
contains_blob disk sha256 = is_sha256_hex sha256 && is_some (disk.stored (storage_key_for sha256))

-- A file with `chunk` written over it from `offset` on; a gap reads as zeros.
unfoldable pub zeros : ℕ → Bytes
zeros zero = []
zeros (suc n) = 0 ∷ zeros n

unfoldable pub overwrite : ℕ → Bytes → Bytes → Bytes
overwrite offset chunk content =
    take offset content
    ++ (zeros (offset - length content) ++ (chunk ++ drop (offset + length chunk) content))

abbrev pub with_staging : Bytes → Bytes → Disk → Disk
with_staging id content disk = record disk { staging = put_file id content disk.staging }

unfoldable pub discard : Bytes → Disk → Disk
discard id disk = record disk { staging = remove_file id disk.staging }

-- The part of writeAt behind the creation of the file, with the content it has then.
unfoldable pub write_into : FileCalls → Bytes → Bytes → ℤ → Bytes → Disk → VoidResult × Disk
write_into calls id content offset chunk disk =
    if not calls.file_opened
    then (
      failure dependency_failure (lit "cannot open the staging file" ∷ []),
      with_staging id content disk,
    )
    else if not calls.sought
    then (
      failure dependency_failure (lit "cannot seek to the resume offset" ∷ []),
      with_staging id content disk,
    )
    else if not calls.written
    then (
      failure dependency_failure (lit "cannot write the uploaded bytes" ∷ []),
      with_staging id (overwrite (pos_part offset) (take calls.arrived chunk) content) disk,
    )
    else (success, with_staging id (overwrite (pos_part offset) chunk content) disk)

unfoldable pub write_at : FileCalls → Bytes → ℤ → Bytes → Disk → VoidResult × Disk
unfolding write_into
write_at calls id offset chunk disk =
    if ltb_ℤ offset (pos 0)
    then (failure invalid_input (lit "offset must not be negative" ∷ []), disk)
    else if not calls.directory_made
    then (
      failure dependency_failure
          (lit "cannot create the storage directory: " ∷ text calls.message ∷ []),
      disk,
    )
    else elim (disk.staging id) [
      | some content ↦ write_into calls id content offset chunk disk
      | none ↦
          if not (eqb_ℤ offset (pos 0))
          then (
            failure conflict (lit "this upload has no data yet; resume from offset 0" ∷ []),
            disk,
          )
          else if not calls.file_created
          then (failure dependency_failure (lit "cannot create the staging file" ∷ []), disk)
          else write_into calls id [] offset chunk disk
    ]

-- The rename at the end of commit. Where it fails, the target is not there, as was tested before.
unfoldable pub move_to_store : FileCalls → Bytes → Bytes → Disk → VoidResult × Disk
unfolding discard
move_to_store calls id sha256 disk =
    if not calls.directory_made
    then (
      failure dependency_failure
          (lit "cannot create the storage directory: " ∷ text calls.message ∷ []),
      discard id disk,
    )
    else if is_some (disk.stored (storage_key_for sha256))
    then (success, discard id disk)
    else if not calls.moved
    then (
      failure dependency_failure
          (lit "cannot move the blob into storage: " ∷ text calls.message ∷ []),
      discard id disk,
    )
    else (
      success,
      record {
        staging = remove_file id disk.staging;
        stored = move_file (disk.staging id) (storage_key_for sha256) disk.stored;
      },
    )

-- sha256File of common/Hash.cpp on a staging file, of which only the name is in the detail.
unfoldable pub sha256_file : (sha256_hex : Bytes → Bytes) → FileCalls → Bytes → Disk → Result Bytes
sha256_file sha256_hex calls id disk = elim (disk.staging id) [
  | none ↦ failure not_found (lit "cannot open file for hashing: " ∷ text id ∷ [])
  | some content ↦
      if not calls.hash_opened
      then failure not_found (lit "cannot open file for hashing: " ∷ text id ∷ [])
      else if not calls.hash_read
      then failure internal (lit "read error while hashing " ∷ text id ∷ [])
      else ok (sha256_hex content)
]

unfoldable pub commit :
    (sha256_hex : Bytes → Bytes) → FileCalls → Bytes → Bytes → Disk → VoidResult × Disk
unfolding sha256_file move_to_store discard
commit sha256_hex calls id sha256 disk =
    if not (is_sha256_hex sha256)
    then (failure invalid_input (lit "not a valid content address" ∷ []), disk)
    else elim (sha256_file sha256_hex calls id disk) [
      | err e ↦ (err e, discard id disk)
      | ok actual ↦
          if not (eq_bytes actual sha256)
          then (
            failure invalid_input
                (lit "the uploaded bytes do not hash to the declared sha256" ∷ []),
            discard id disk,
          )
          else move_to_store calls id sha256 disk
    ]

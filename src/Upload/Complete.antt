-- ===== src/Upload/Complete.antt =====
-- finalizeBuild compares two counts to see that no blob is missing: what that shows of each file.
use custom_game_launcher_bac.Base.{
  ◌≤◌, ◌≡◌, refl, subst, ap, inl, inr, Bool, true, false, List, [], ◌∷◌, map, arith, is_some, any,
  All, length, Bytes, eq_bytes, eq_bytes_iff, find_row, count_rows, count_rows_mono,
  count_rows_gains, All-count_rows, All-select_rows, Bool-cases, Option-cases,
}
use custom_game_launcher_bac.Domain.Manifest.{ManifestEntry}
use custom_game_launcher_bac.Database.{BlobRow, Db}
use custom_game_launcher_bac.Database.Blobs.{find_many}
use custom_game_launcher_bac.Upload.Publishing.{distinct_hashes, size_of, count_sizes, with_sizes}
use custom_game_launcher_bac.Upload.Sizes.{is_among}

-- The records have a size for the hash.
abbrev pub is_sized : List BlobRow → Bytes → Bool
is_sized records s = is_some (size_of records s)

not_found_again :
    (b : BlobRow) (bs : List BlobRow) (s : Bytes)
    → any (λ (c : BlobRow). eq_bytes c.sha256 b.sha256) bs ≡ false
    → eq_bytes s b.sha256 ≡ true
    → is_sized bs s ≡ false
unfolding size_of find_row
not_found_again b [] s h same = refl
not_found_again b (c ∷ cs) s h same =
    let rest = not_found_again b cs s (ground arith) same in
    ground (arith, eq_bytes_iff s b.sha256, eq_bytes_iff c.sha256 s, eq_bytes_iff c.sha256 b.sha256)

found_here :
    (b : BlobRow) (bs : List BlobRow) (s : Bytes)
    → eq_bytes s b.sha256 ≡ true
    → is_sized (b ∷ bs) s ≡ true
unfolding size_of find_row
found_here b bs s same = ground (arith, eq_bytes_iff s b.sha256, eq_bytes_iff b.sha256 s)

found_still :
    (b : BlobRow) (bs : List BlobRow) (s : Bytes)
    → is_sized bs s ≡ true
    → is_sized (b ∷ bs) s ≡ true
unfolding size_of find_row
found_still b bs s h = ground arith

count_sizes-le :
    (hashes : List Bytes) (records : List BlobRow)
    → All (λ b. is_among hashes b ≡ true) records
    → count_sizes records ≤ count_rows (is_sized records) hashes
unfolding count_sizes
count_sizes-le hashes [] h = omega arith
count_sizes-le hashes (b ∷ bs) h =
    let rest = count_sizes-le hashes bs h.1 in
    elim (Bool-cases (any (λ (c : BlobRow). eq_bytes c.sha256 b.sha256) bs)) [
      | inl again ↦
          let more = count_rows_mono (is_sized bs) (is_sized (b ∷ bs)) hashes (found_still b bs) in
          ground arith
      | inr new ↦
          let more =
            count_rows_gains (is_sized bs) (is_sized (b ∷ bs)) (λ s. eq_bytes s b.sha256) hashes
              (found_still b bs)
              (λ s same. (not_found_again b bs s new same, found_here b bs s same)) h.0 in
          ground arith
    ]

-- Equal counts: every hash that was asked for has a record.
pub All-is_sized :
    (db : Db) (hashes : List Bytes)
    → count_sizes (find_many db hashes) ≡ length hashes
    → All (λ s. is_sized (find_many db hashes) s ≡ true) hashes
unfolding find_many
All-is_sized db hashes same =
    let counted =
      count_sizes-le hashes (find_many db hashes) (All-select_rows (is_among hashes) db.blobs) in
    All-count_rows (is_sized (find_many db hashes)) hashes (omega arith)

-- What a file says apart from its size.
abbrev pub content_of : ManifestEntry → Bytes × (Bytes × Bool)
content_of e = (e.relative_path, (e.blob_sha256, e.is_executable))

any_holds :
    (q : Bytes → Bool) (s : Bytes) (hashes : List Bytes)
    → any (λ t. eq_bytes t s) hashes ≡ true
    → All (λ t. q t ≡ true) hashes
    → q s ≡ true
any_holds q s [] found h = cc
any_holds q s (t ∷ ts) found h = elim (Bool-cases (eq_bytes t s)) [
  | inl hit ↦ rw (← (eq_bytes_iff t s).0 hit) h.0
  | inr miss ↦ any_holds q s ts (ground arith) h.1
]

-- The list of distinct hashes has the hash of each file, or the set of seen ones had it.
distinct_hashes_cover :
    (q : Bytes → Bool) (seen : List Bytes) (es : List ManifestEntry)
    → All (λ s. q s ≡ true) seen
    → All (λ s. q s ≡ true) (distinct_hashes seen es)
    → All (λ (e : ManifestEntry). q e.blob_sha256 ≡ true) es
unfolding distinct_hashes
distinct_hashes_cover q seen [] before h = tt
distinct_hashes_cover q seen (e ∷ es) before h =
    let Good : List Bytes → Type 0 = All (λ s. q s ≡ true) in
    elim (Bool-cases (any (λ s. eq_bytes s e.blob_sha256) seen)) [
      | inl again ↦
          let shorter : distinct_hashes seen (e ∷ es) ≡ distinct_hashes seen es =
            rw (again, distinct_hashes) refl in
          (
            any_holds q e.blob_sha256 seen again before,
            distinct_hashes_cover q seen es before (subst Good shorter h),
          )
      | inr new ↦
          let longer : distinct_hashes seen (e ∷ es)
              ≡ e.blob_sha256 ∷ distinct_hashes (e.blob_sha256 ∷ seen) es =
            rw (new, distinct_hashes) refl in
          let (here, rest) = subst Good longer h in
          (here, distinct_hashes_cover q (e.blob_sha256 ∷ seen) es (here, before) rest)
    ]

with_sizes-contents :
    (records : List BlobRow) (es : List ManifestEntry)
    → All (λ (e : ManifestEntry). is_sized records e.blob_sha256 ≡ true) es
    → map content_of (with_sizes records es) ≡ map content_of es
unfolding with_sizes
with_sizes-contents records [] h = refl
with_sizes-contents records (e ∷ es) h =
    let rest = with_sizes-contents records es h.1 in
    elim (Option-cases (size_of records e.blob_sha256)) [
      | inl missing ↦ ground arith
      | inr (n, found) ↦ rw (found, with_sizes) (ap (λ xs. content_of e ∷ xs) rest)
    ]

-- Where the counts agree, the files that are finalized are those of the command.
pub finalized-contents :
    (db : Db) (es : List ManifestEntry)
    → count_sizes (find_many db (distinct_hashes [] es)) ≡ length (distinct_hashes [] es)
    → map content_of (with_sizes (find_many db (distinct_hashes [] es)) es) ≡ map content_of es
finalized-contents db es same =
    let records = find_many db (distinct_hashes [] es) in
    with_sizes-contents records es (
      distinct_hashes_cover (is_sized records) [] es tt
        (All-is_sized db (distinct_hashes [] es) same))

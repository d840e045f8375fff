-- ===== src/Upload/Sizes.antt =====
-- The records that finalizeBuild reads, and the sizes that it puts on the files.
use custom_game_launcher_bac.Base.{
  ◌≡◌, refl, sym, ◌∙◌, inl, inr, Bool, List, [], ◌∷◌, ◌++◌, map, none, some, arith, any, All, Bytes,
  eq_bytes, eq_bytes_iff, eq_bytes_refl, find_row, find_row-select_rows-kept,
  find_row-select_rows-dropped, Bool-cases, Option-cases,
}
use custom_game_launcher_bac.Domain.Manifest.{ManifestEntry}
use custom_game_launcher_bac.Domain.Delta.{find_path}
use custom_game_launcher_bac.Domain.Delta.Facts.{Distinct}
use custom_game_launcher_bac.Database.{BlobRow, BuildFile, Db}
use custom_game_launcher_bac.Database.Blobs.{has_sha256, find_by_sha256, find_many}
use custom_game_launcher_bac.Database.Builds.{entries_of, file_row}
use custom_game_launcher_bac.Upload.Publishing.{size_of, with_sizes}

-- The store has the blob of the file, with its size.
abbrev pub Sized : Db → ManifestEntry → Type 0
Sized db e =
    (b : BlobRow) × (find_by_sha256 db e.blob_sha256 ≡ some b) × (b.size_bytes ≡ e.size_bytes)

abbrev pub is_among : List Bytes → BlobRow → Bool
is_among hashes b = any (λ s. eq_bytes s b.sha256) hashes

module _ (db : Db) (hashes : List Bytes) where
  find_row-find_many :
      (s : Bytes) (b : BlobRow)
      → find_row (has_sha256 s) (find_many db hashes) ≡ some b
      → find_by_sha256 db s ≡ some b
  unfolding find_many find_by_sha256
  find_row-find_many s b h = elim (Bool-cases (any (λ t. eq_bytes t s) hashes)) [
    | inl wanted ↦
        sym (
          find_row-select_rows-kept (has_sha256 s) (is_among hashes) db.blobs
            (λ c hit. rw ((eq_bytes_iff c.sha256 s).0 hit) wanted))
        ∙ h
    | inr unwanted ↦
        let missed =
          find_row-select_rows-dropped (has_sha256 s) (is_among hashes) db.blobs
            (λ c hit. rw ((eq_bytes_iff c.sha256 s).0 hit) unwanted) in
        ground arith
  ]

  pub with_sizes-Sized :
      (es : List ManifestEntry) → All (Sized db) (with_sizes (find_many db hashes) es)
  unfolding with_sizes size_of
  with_sizes-Sized [] = tt
  with_sizes-Sized (e ∷ es) =
      elim (Option-cases (find_row (has_sha256 e.blob_sha256) (find_many db hashes))) [
        | inl missing ↦ rw (missing, with_sizes) (with_sizes-Sized es)
        | inr (b, found) ↦
            rw (found, with_sizes, All)
              ((b, find_row-find_many e.blob_sha256 b found, refl), with_sizes-Sized es)
      ]

module _ (records : List BlobRow) where
  find_path-with_sizes :
      (p : Bytes) (es : List ManifestEntry)
      → find_path p es ≡ none
      → find_path p (with_sizes records es) ≡ none
  unfolding find_path with_sizes
  find_path-with_sizes p [] h = refl
  find_path-with_sizes p (e ∷ es) h = ground (arith, find_path-with_sizes p es)

  pub Distinct-with_sizes :
      (es : List ManifestEntry) → Distinct es → Distinct (with_sizes records es)
  unfolding with_sizes
  Distinct-with_sizes [] d = tt
  Distinct-with_sizes (e ∷ es) d =
      let path = find_path-with_sizes e.relative_path es d.0 in
      let rest = Distinct-with_sizes es d.1 in
      elim (Option-cases (size_of records e.blob_sha256)) [
        | inl missing ↦ rw (missing, with_sizes) rest
        | inr (n, found) ↦ rw (found, with_sizes, Distinct) (path, rest)
      ]

pub entries_of-file_rows :
    (db : Db) (build_id : Bytes) (es : List ManifestEntry) (others : List BuildFile)
    → All (Sized db) es
    → entries_of db build_id others ≡ []
    → entries_of db build_id (map (file_row build_id) es ++ others) ≡ es
unfolding entries_of
entries_of-file_rows db build_id [] others sized h = h
entries_of-file_rows db build_id (e ∷ es) others sized h =
    let rest = entries_of-file_rows db build_id es others sized.1 h in
    let (b, found, size) = sized.0 in
    rw (eq_bytes_refl build_id, found, size, rest, entries_of) refl

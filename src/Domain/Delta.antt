-- ===== src/Domain/Delta.antt =====
-- src/domain/Delta.cpp: the plan that takes an install from one build to another.
pub mod Facts
pub mod Apply
pub mod Plans
pub mod Cost
use custom_game_launcher_bac.Base.{
  Bool, true, false, List, [], ◌∷◌, Option, none, some, if◌then◌else◌, is_some, is_empty, any, ℤ,
  pos, ◌+ℤ◌, Bytes, eq_bytes, sort_by,
}
use custom_game_launcher_bac.Domain.Manifest.{ManifestEntry}

pub data DownloadKind : Type 0 where
  full delta : DownloadKind

pub record DeltaFile : Type 0 where
  pub entry : ManifestEntry
  pub copy_from_relative_path : Bytes

pub record BuildDelta : Type 0 where
  pub kind : DownloadKind
  pub fetch : List DeltaFile
  pub unchanged : List ManifestEntry
  pub remove : List Bytes
  pub download_bytes : ℤ
  pub total_bytes : ℤ

-- find in the index by path: `emplace` keeps the first entry of a path.
unfoldable pub find_path : Bytes → List ManifestEntry → Option ManifestEntry
find_path path [] = none
find_path path (e ∷ es) = if eq_bytes e.relative_path path then some e else find_path path es

-- The install holds the same blob at the same path.
unfoldable pub same_content : List ManifestEntry → ManifestEntry → Bool
same_content installed entry = elim (find_path entry.relative_path installed) [
  | none ↦ false
  | some found ↦ eq_bytes found.blob_sha256 entry.blob_sha256
]

-- find in the map from a blob to the first surviving path that holds it.
unfoldable pub surviving_content : List ManifestEntry → List ManifestEntry → Bytes → Option Bytes
surviving_content installed [] sha256 = none
surviving_content installed (e ∷ es) sha256 =
    let rest = surviving_content installed es sha256 in
    if same_content installed e
    then (if eq_bytes e.blob_sha256 sha256 then some e.relative_path else rest)
    else rest

unfoldable pub paths_to_remove : List ManifestEntry → List ManifestEntry → List Bytes
paths_to_remove [] target = []
paths_to_remove (e ∷ es) target =
    let rest = paths_to_remove es target in
    if is_some (find_path e.relative_path target) then rest else e.relative_path ∷ rest

-- `counted` holds the blobs that are already paid for.
unfoldable pub transfer_loop : List Bytes → List DeltaFile → ℤ → ℤ
transfer_loop counted [] bytes = bytes
transfer_loop counted (f ∷ fs) bytes =
    let skip = transfer_loop counted fs bytes in
    let count = transfer_loop (f.entry.blob_sha256 ∷ counted) fs (bytes +ℤ f.entry.size_bytes) in
    if is_empty f.copy_from_relative_path
    then (if any (λ s. eq_bytes s f.entry.blob_sha256) counted then skip else count)
    else skip

unfoldable pub transfer_bytes : List DeltaFile → ℤ
unfolding transfer_loop
transfer_bytes fetch = transfer_loop [] fetch (pos 0)

unfoldable pub installed_size_loop : List ManifestEntry → ℤ → ℤ
installed_size_loop [] bytes = bytes
installed_size_loop (e ∷ es) bytes = installed_size_loop es (bytes +ℤ e.size_bytes)

unfoldable pub installed_size : List ManifestEntry → ℤ
unfolding installed_size_loop
installed_size target = installed_size_loop target (pos 0)

unfoldable pub sort_plan : BuildDelta → BuildDelta
sort_plan plan = record plan {
  fetch = sort_by (λ f. f.entry.relative_path) plan.fetch;
  unchanged = sort_by (λ e. e.relative_path) plan.unchanged;
  remove = sort_by (λ p. p) plan.remove;
}

abbrev pub fetch_whole : List ManifestEntry → List DeltaFile
fetch_whole [] = []
fetch_whole (e ∷ es) = record { entry = e; copy_from_relative_path = [] } ∷ fetch_whole es

unfoldable pub full_download : List ManifestEntry → List ManifestEntry → BuildDelta
unfolding sort_plan
full_download installed target = sort_plan (record {
  kind = full;
  fetch = fetch_whole target;
  unchanged = [];
  remove = paths_to_remove installed target;
  download_bytes = transfer_bytes (fetch_whole target);
  total_bytes = installed_size target;
})

-- The path to copy from, or the empty string.
unfoldable pub copy_source : List ManifestEntry → List ManifestEntry → ManifestEntry → Bytes
copy_source installed target entry = elim (surviving_content installed target entry.blob_sha256) [
  | none ↦ []
  | some path ↦ path
]

-- The loop of computeDelta: `delta.unchanged` and `delta.fetch`. `target` stays whole in it.
unfoldable pub unchanged_of : List ManifestEntry → List ManifestEntry → List ManifestEntry
unchanged_of installed [] = []
unchanged_of installed (e ∷ es) =
    let rest = unchanged_of installed es in if same_content installed e then e ∷ rest else rest

unfoldable pub fetch_of :
    List ManifestEntry → List ManifestEntry → List ManifestEntry → List DeltaFile
fetch_of installed target [] = []
fetch_of installed target (e ∷ es) =
    let rest = fetch_of installed target es in
    if same_content installed e
    then rest
    else record { entry = e; copy_from_relative_path = copy_source installed target e } ∷ rest

unfoldable pub compute_delta : List ManifestEntry → List ManifestEntry → BuildDelta
unfolding sort_plan
compute_delta installed target = sort_plan (record {
  kind = delta;
  fetch = fetch_of installed target target;
  unchanged = unchanged_of installed target;
  remove = paths_to_remove installed target;
  download_bytes = transfer_bytes (fetch_of installed target target);
  total_bytes = installed_size target;
})

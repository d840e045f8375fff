-- ===== src/Domain/Manifest.antt =====
-- src/domain/Manifest.cpp: the files of a build, what is accepted as such a list, and the document
-- that its hash covers.
pub mod Paths
pub mod Accepts
pub mod Order
use mathlib.Core.Bool.{not}
use custom_game_launcher_bac.Base.{
  ℕ, zero, suc, ◌+◌, ◌/◌, ◌%◌, String, Bool, true, false, ◌&&◌, ◌||◌, List, [], ◌∷◌, ◌++◌, Option,
  none, some, ltb, leb, ◌==◌, if◌then◌else◌, length, all, any, is_empty, ℤ, pos, negsuc, ltb_ℤ,
  Bytes, codes, eq_bytes, contains, sort_by, ErrorCode, Part, Result, VoidResult, success, failure,
  refuse_if, ok, err, lit, text, num, invalid_input, conflict, ◌>>=◌, ◌>>◌,
}
use custom_game_launcher_bac.Domain.CanonicalJson.{append_canonical_json_string}

pub record ManifestEntry : Type 0 where
  pub relative_path : Bytes
  pub blob_sha256 : Bytes
  pub size_bytes : ℤ
  pub is_executable : Bool

abbrev pub sha256_hex_length : ℕ
sha256_hex_length = 64

abbrev pub max_relative_path_length : ℕ
max_relative_path_length = 1024

abbrev pub max_manifest_entries : ℕ
max_manifest_entries = 200000

unfoldable pub is_lowercase_hex_digit : ℕ → Bool
is_lowercase_hex_digit c = (leb b'0' c && leb c b'9') || (leb b'a' c && leb c b'f')

unfoldable pub is_sha256_hex : Bytes → Bool
is_sha256_hex value = length value == sha256_hex_length && all is_lowercase_hex_digit value

-- std::isalpha in the C locale.
unfoldable pub is_alpha : ℕ → Bool
is_alpha c = (leb b'a' c && leb c b'z') || (leb b'A' c && leb c b'Z')

unfoldable pub starts_with_slash : Bytes → Bool
starts_with_slash [] = false
starts_with_slash (c ∷ cs) = c == b'/'

unfoldable pub has_drive_prefix : Bytes → Bool
unfolding is_alpha
has_drive_prefix (c ∷ d ∷ cs) = d == b':' && is_alpha c
has_drive_prefix cs = false

-- The segments that the loop over find('/') peels off, in order.
unfoldable pub cons_head : ℕ → List Bytes → List Bytes
cons_head c [] = (c ∷ []) ∷ []
cons_head c (s ∷ ss) = (c ∷ s) ∷ ss

unfoldable pub split : ℕ → Bytes → List Bytes
unfolding cons_head
split separator [] = [] ∷ []
split separator (c ∷ cs) =
    if c == separator then [] ∷ split separator cs else cons_head c (split separator cs)

unfoldable pub check_segment : Bytes → Bytes → VoidResult
check_segment path segment = do
  refuse_if (is_empty segment) invalid_input
      (lit "file paths must not contain empty segments: " ∷ text path ∷ [])
  refuse_if (eq_bytes segment (codes ".") || eq_bytes segment (codes "..")) invalid_input
      (lit "file paths must not contain '.' or '..' segments: " ∷ text path ∷ [])
  refuse_if (any (λ c. ltb c 32) segment) invalid_input
      (lit "file paths must not contain control characters" ∷ [])

-- The loop leaves at the first segment that is refused.
unfoldable pub check_segments : Bytes → List Bytes → VoidResult
check_segments path [] = success
check_segments path (s ∷ ss) = check_segment path s >> check_segments path ss

unfoldable pub validate_relative_path : Bytes → VoidResult
validate_relative_path path = do
  refuse_if (is_empty path) invalid_input (lit "a file path must not be empty" ∷ [])
  refuse_if (ltb max_relative_path_length (length path)) invalid_input
      (lit "file path is longer than " ∷ num max_relative_path_length ∷ lit " characters" ∷ [])
  refuse_if (starts_with_slash path) invalid_input
      (lit "file paths must be relative to the install directory: " ∷ text path ∷ [])
  refuse_if (contains 92 path) invalid_input
      (lit "file paths must use '/' as the separator: " ∷ text path ∷ [])
  refuse_if (has_drive_prefix path) invalid_input
      (lit "file paths must not be absolute: " ∷ text path ∷ [])
  check_segments path (split b'/' path)

-- unordered_set::insert(...).second is false.
abbrev pub is_seen : Bytes → List Bytes → Bool
is_seen path seen = any (λ p. eq_bytes p path) seen

unfoldable pub check_entry : List Bytes → ManifestEntry → VoidResult
check_entry seen entry = do
  validate_relative_path entry.relative_path
  refuse_if (not (is_sha256_hex entry.blob_sha256)) invalid_input
      (lit "sha256 must be 64 lowercase hex characters, for " ∷ text entry.relative_path ∷ [])
  refuse_if (ltb_ℤ entry.size_bytes (pos 0)) invalid_input
      (lit "size must not be negative, for " ∷ text entry.relative_path ∷ [])
  refuse_if (is_seen entry.relative_path seen) conflict
      (lit "the manifest lists " ∷ text entry.relative_path ∷ lit " twice" ∷ [])

-- The loop over the entries, which returns the paths it has seen.
unfoldable pub check_entries : List Bytes → List ManifestEntry → Result (List Bytes)
check_entries seen [] = ok seen
check_entries seen (e ∷ es) = check_entry seen e >> check_entries (e.relative_path ∷ seen) es

unfoldable pub validate_manifest : List ManifestEntry → Bytes → VoidResult
validate_manifest entries entrypoint = do
  refuse_if (is_empty entries) invalid_input (lit "a build must contain at least one file" ∷ [])
  refuse_if (ltb max_manifest_entries (length entries)) invalid_input
      (lit "a build may contain at most " ∷ num max_manifest_entries ∷ lit " files" ∷ [])
  validate_relative_path entrypoint
  seen ← check_entries [] entries
  refuse_if (not (is_seen entrypoint seen)) invalid_input (
      lit "the entrypoint " ∷ text entrypoint ∷ lit " is not one of the files in the manifest" ∷ [])

-- std::to_string. `n` rounds are enough for the digits of `n`.
pub digits : ℕ → ℕ → Bytes → Bytes
digits zero n out = out
digits (suc fuel) n out =
    let rest = digits fuel (n / 10) ((b'0' + n % 10) ∷ out) in if n == 0 then out else rest

unfoldable pub to_string : ℤ → Bytes
unfolding digits
to_string (pos n) = if n == 0 then b'0' ∷ [] else digits n n []
to_string (negsuc n) = b'-' ∷ digits (suc n) (suc n) []

unfoldable pub file_json : ManifestEntry → Bytes
file_json entry =
    append_canonical_json_string (codes "{\"path\":") entry.relative_path
    ++ (append_canonical_json_string (codes ",\"sha256\":") entry.blob_sha256
        ++ (codes ",\"size\":"
            ++ (to_string entry.size_bytes
                ++ (codes ",\"executable\":"
                    ++ ((if entry.is_executable then codes "true" else codes "false")
                        ++ codes "}")))))

-- The loop over the sorted entries, with a comma before each entry but the first.
unfoldable pub files_json : Bool → List ManifestEntry → Bytes
files_json first [] = []
files_json first (e ∷ es) =
    (if first then [] else codes ",") ++ (file_json e ++ files_json false es)

unfoldable pub canonical_manifest_document : List ManifestEntry → Bytes → Bytes → Bytes
canonical_manifest_document entries entrypoint default_launch_args =
    append_canonical_json_string (codes "{\"schema\":1,\"entrypoint\":") entrypoint
    ++ (append_canonical_json_string (codes ",\"launchArgs\":") default_launch_args
        ++ (codes ",\"files\":["
            ++ (files_json true (sort_by (λ e. e.relative_path) entries) ++ codes "]}")))

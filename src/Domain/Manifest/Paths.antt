-- ===== src/Domain/Manifest/Paths.antt =====
-- Where a path that validateRelativePath accepts leads, when a client resolves it.
use mathlib.Core.List.{reverse-cons, reverse-reverse, append_assoc, append_cancel_right}
use custom_game_launcher_bac.Base.{
  ℕ, ◌≡◌, refl, sym, ◌∙◌, ap, inl, inr, List, [], ◌∷◌, ◌++◌, reverse, arith, ◌==◌, if◌then◌else◌,
  is_empty, Bytes, codes, eq_bytes, success, Bool-cases,
}
use custom_game_launcher_bac.Domain.Manifest.{
  cons_head, split, check_segment, check_segments, validate_relative_path,
}

-- How a file system resolves one segment, in a directory given as its names, the innermost first:
-- an empty segment and `.` stay, `..` goes to the parent, any other name goes down.
pub enter : List Bytes → Bytes → List Bytes
enter dir segment =
    if is_empty segment
    then dir
    else if eq_bytes segment (codes ".")
    then dir
    else if eq_bytes segment (codes "..")
    then parent dir
    else segment ∷ dir
  where
    parent : List Bytes → List Bytes
    parent [] = []
    parent (d ∷ ds) = ds

pub walk : List Bytes → List Bytes → List Bytes
unfolding enter
walk dir [] = dir
walk dir (s ∷ ss) = walk (enter dir s) ss

join : List Bytes → Bytes
join [] = []
join (s ∷ []) = s
join (s ∷ t ∷ ss) = s ++ (b'/' ∷ join (t ∷ ss))

enter_checked :
    (path segment : Bytes) (dir : List Bytes)
    → check_segment path segment ≡ success
    → enter dir segment ≡ segment ∷ dir
unfolding check_segment enter
enter_checked path segment dir h = ground arith

walk_checked :
    (path : Bytes) (segments dir : List Bytes)
    → check_segments path segments ≡ success
    → walk dir segments ≡ reverse segments ++ dir
unfolding check_segments walk
walk_checked path [] dir h = refl
walk_checked path (s ∷ ss) dir h =
    ap (λ d. walk d ss) (enter_checked path s dir (ground arith))
    ∙ walk_checked path ss (s ∷ dir) (ground arith)
    ∙ sym (append_assoc (reverse ss) (s ∷ []) dir)
    ∙ ap (λ r. r ++ dir) (sym (reverse-cons s ss))

segments_checked :
    (path : Bytes)
    → validate_relative_path path ≡ success
    → check_segments path (split b'/' path) ≡ success
unfolding validate_relative_path
segments_checked path h = ground arith

-- An accepted path, resolved from any directory, leads down through exactly its own segments: it
-- never leaves the directory, and each segment is one level.
pub walk-validate_relative_path :
    (path : Bytes) (dir : List Bytes)
    → validate_relative_path path ≡ success
    → walk dir (split b'/' path) ≡ reverse (split b'/' path) ++ dir
walk-validate_relative_path path dir h =
    walk_checked path (split b'/' path) dir (segments_checked path h)

join-cons_head :
    (c : ℕ) (s : Bytes) (ss : List Bytes) → join (cons_head c (s ∷ ss)) ≡ c ∷ join (s ∷ ss)
unfolding cons_head join
join-cons_head c s [] = refl
join-cons_head c s (t ∷ ss) = refl

split-ne-nil : (c : ℕ) (path : Bytes) → (s : Bytes) × (ss : List Bytes) × (split c path ≡ s ∷ ss)
unfolding split
split-ne-nil c [] = ([], [], refl)
split-ne-nil c (x ∷ path) =
    let (s, ss, e) = split-ne-nil c path in
    elim (Bool-cases (x == c)) [
      | inl hit ↦ ([], split c path, rw hit)
      | inr miss ↦ (x ∷ s, ss, rw miss (rw e))
    ]

join-split : (path : Bytes) → join (split b'/' path) ≡ path
unfolding split join
join-split [] = refl
join-split (x ∷ path) =
    let (s, ss, e) = split-ne-nil b'/' path in
    let rest = join-split path in
    elim (Bool-cases (x == b'/')) [
      | inl hit ↦
          let same : x ≡ b'/' = ground arith in
          rw (hit, e) (ap (λ (p : Bytes). b'/' ∷ p) (ap join (sym e) ∙ rest) ∙ rw same)
      | inr miss ↦
          rw (miss, e) (join-cons_head x s ss ∙ ap (λ (p : Bytes). x ∷ p) (ap join (sym e) ∙ rest))
    ]

-- Two accepted paths that lead to the same file from the same directory are the same path.
pub walk-injective :
    (path other : Bytes) (dir : List Bytes)
    → validate_relative_path path ≡ success
    → validate_relative_path other ≡ success
    → walk dir (split b'/' path) ≡ walk dir (split b'/' other)
    → path ≡ other
walk-injective path other dir h k e =
    sym (join-split path)
    ∙ ap join (sym (reverse-reverse (split b'/' path)) ∙ ap reverse same ∙ reverse-reverse _)
    ∙ join-split other
  where
    same : reverse (split b'/' path) ≡ reverse (split b'/' other)
    same =
        append_cancel_right _ _ dir (
          sym (walk-validate_relative_path path dir h)
          ∙ e
          ∙ walk-validate_relative_path other dir k)

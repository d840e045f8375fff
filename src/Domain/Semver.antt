-- ===== src/Domain/Semver.antt =====
-- src/domain/Semver.cpp: the version of a game, of one to three components.
pub mod Components
use custom_game_launcher_bac.Base.{
  ℕ, ◌+◌, ◌-◌, ◌*◌, Bool, true, false, ◌&&◌, List, [], ◌∷◌, ltb, leb, ◌==◌, if◌then◌else◌, length,
  is_empty, Bytes, Result, VoidResult, ok, err, broken_rule, lit, num, ◌>>=◌,
}
use custom_game_launcher_bac.Domain.Validation.{trim}
use custom_game_launcher_bac.Domain.Manifest.{split}

abbrev pub max_version_component : ℕ
max_version_component = 999999

abbrev pub is_digit : ℕ → Bool
is_digit c = leb b'0' c && leb c b'9'

-- The loop of parseComponent, which stops at the first value that is too large: an int does not
-- overflow.
unfoldable pub component_loop : ℕ → Bytes → Result ℕ
component_loop value [] = ok value
component_loop value (c ∷ cs) =
    let next = value * 10 + (c - b'0') in
    let rest = component_loop next cs in
    if is_digit c
    then (if ltb max_version_component next
        then broken_rule (lit "version components are too large" ∷ []) "version_too_large"
            (num max_version_component ∷ [])
        else rest)
    else broken_rule (lit "version components must be numeric" ∷ []) "version_invalid" []

abbrev pub has_leading_zero : Bytes → Bool
has_leading_zero [] = false
has_leading_zero (c ∷ cs) = ltb 1 (length (c ∷ cs)) && c == b'0'

unfoldable pub parse_component : Bytes → Result ℕ
unfolding component_loop
parse_component text =
    if is_empty text
    then broken_rule (lit "version components must not be empty" ∷ []) "version_invalid" []
    else if has_leading_zero text
    then broken_rule (lit "version components must not have leading zeros" ∷ []) "version_invalid"
        []
    else component_loop 0 text

pub record Semver : Type 0 where
  pub text : Bytes
  pub major : ℕ
  pub minor : ℕ
  pub patch : ℕ

-- The loop over the parts and the three targets, which are 0 where a part is missing.
unfoldable pub parse_parts : Bytes → List Bytes → Result Semver
unfolding parse_component
parse_parts text (a ∷ []) = do
  major ← parse_component a
  ok (record { text = text; major = major; minor = 0; patch = 0 })
parse_parts text (a ∷ b ∷ []) = do
  major ← parse_component a
  minor ← parse_component b
  ok (record { text = text; major = major; minor = minor; patch = 0 })
parse_parts text (a ∷ b ∷ c ∷ []) = do
  major ← parse_component a
  minor ← parse_component b
  patch ← parse_component c
  ok (record { text = text; major = major; minor = minor; patch = patch })
parse_parts text _ =
    broken_rule (lit "a version has at most three components, e.g. 1.2.3" ∷ []) "version_invalid" []

unfoldable pub parse_semver : Bytes → Result Semver
unfolding parse_parts
parse_semver input =
    let text = trim input in
    if is_empty text
    then broken_rule (lit "a version is required" ∷ []) "version_required" []
    else parse_parts text (split b'.' text)

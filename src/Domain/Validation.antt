-- ===== src/Domain/Validation.antt =====
-- src/domain/Validation.cpp: trimming, the canonical form of a uuid, and what is accepted as an email
-- address, a password and a display name.
use custom_game_launcher_bac.Base.{
  ℕ, ◌+◌, ◌-◌, String, Bool, true, false, ◌&&◌, ◌||◌, List, [], ◌∷◌, reverse, none, some, ltb, leb,
  ◌==◌, if◌then◌else◌, length, get_elem?, any, drop, map, is_empty, is_some, contains, find_byte,
  Bytes, Part, VoidResult, success, broken_rule, lit, num, ◌>>◌,
}

-- std::isspace in the C locale: the space and \t \n \v \f \r.
unfoldable pub is_whitespace : ℕ → Bool
is_whitespace c = c == 32 || (leb 9 c && leb c 13)

-- std::isxdigit.
unfoldable pub is_hex_digit : ℕ → Bool
is_hex_digit c =
    (leb b'0' c && leb c b'9') || ((leb b'a' c && leb c b'f') || (leb b'A' c && leb c b'F'))

pub contains_control_character : Bytes → Bool
contains_control_character = any (λ c. ltb c 32 || c == 127)

unfoldable pub drop_whitespace : Bytes → Bytes
drop_whitespace [] = []
drop_whitespace (c ∷ cs) = if is_whitespace c then drop_whitespace cs else c ∷ cs

-- The loop over `begin`, then the loop over `end`, which walks the rest from its back.
unfoldable pub trim : Bytes → Bytes
unfolding drop_whitespace
trim text = reverse (drop_whitespace (reverse (drop_whitespace text)))

is_hyphen_at : Bytes → ℕ → Bool
is_hyphen_at value position = elim (get_elem? value position) [ none ↦ false | some c ↦ c == b'-' ]

-- The second loop: every byte from `index` on is a hexadecimal digit, but at the four hyphens.
digits_from : ℕ → Bytes → Bool
digits_from index [] = true
digits_from index (c ∷ cs) =
    (index == 8 || (index == 13 || (index == 18 || (index == 23 || is_hex_digit c))))
    && digits_from (index + 1) cs

unfoldable pub is_uuid : Bytes → Bool
unfolding is_hyphen_at digits_from
is_uuid value =
    length value == 36
    && (is_hyphen_at value 8
        && (is_hyphen_at value 13
            && (is_hyphen_at value 18 && (is_hyphen_at value 23 && digits_from 0 value))))

-- std::tolower in the C locale.
unfoldable pub to_lower : ℕ → ℕ
to_lower c = if leb b'A' c && leb c b'Z' then c + 32 else c

unfoldable pub normalize_email : Bytes → Bytes
unfolding to_lower
normalize_email email = map to_lower (trim email)

-- `if (test) return failure(invalidInput(detail, rule, args));`
abbrev pub refuse_rule_if : Bool → List Part → String → List Part → VoidResult
refuse_rule_if true detail rule args = broken_rule detail rule args
refuse_rule_if false detail rule args = success

abbrev pub max_email_length : ℕ
max_email_length = 254

abbrev pub min_password_length : ℕ
min_password_length = 8

abbrev pub max_password_length : ℕ
max_password_length = 256

abbrev pub min_display_name_length : ℕ
min_display_name_length = 2

abbrev pub max_display_name_length : ℕ
max_display_name_length = 64

abbrev is_byte_at : ℕ → Bytes → ℕ → Bool
is_byte_at c value position = elim (get_elem? value position) [ none ↦ false | some d ↦ d == c ]

-- The tests on the part behind the '@'. The first two leave it with at least two bytes.
pub validate_email_domain : Bytes → VoidResult
validate_email_domain domain = do
  elim (find_byte b'.' domain) [
    | none ↦ invalid
    | some dot ↦ if dot == 0 || leb (length domain) (dot + 1) then invalid else success
  ]
  refuse_rule_if
      (is_byte_at b'-' domain 0
        || (is_byte_at b'-' domain (length domain - 1)
            || is_byte_at b'.' domain (length domain - 1)))
      (lit "email domain is not valid" ∷ []) "email_invalid" []
  where
    invalid : VoidResult
    invalid = broken_rule (lit "email domain is not valid" ∷ []) "email_invalid" []

unfoldable pub validate_email : Bytes → VoidResult
unfolding validate_email_domain
validate_email email =
    let candidate = trim email in
    do
      refuse_rule_if (is_empty candidate) (lit "email is required" ∷ []) "email_required" []
      refuse_rule_if (ltb max_email_length (length candidate)) (lit "email is too long" ∷ [])
          "email_too_long" (num max_email_length ∷ [])
      refuse_rule_if (contains_control_character candidate)
          (lit "email contains invalid characters" ∷ []) "email_invalid" []
      elim (find_byte b'@' candidate) [
        | none ↦
            broken_rule (lit "email must contain a local part and a domain" ∷ []) "email_invalid" []
        | some at ↦ do
          refuse_rule_if (at == 0 || leb (length candidate) (at + 1))
              (lit "email must contain a local part and a domain" ∷ []) "email_invalid" []
          refuse_rule_if (is_some (find_byte b'@' (drop (at + 1) candidate)))
              (lit "email must contain exactly one '@'" ∷ []) "email_invalid" []
          refuse_rule_if (contains 32 candidate || contains 9 candidate)
              (lit "email must not contain spaces" ∷ []) "email_invalid" []
          validate_email_domain (drop (at + 1) candidate)
      ]

unfoldable pub validate_password : Bytes → VoidResult
validate_password password = do
  refuse_rule_if (ltb (length password) min_password_length)
      (lit "password must be at least " ∷ num min_password_length ∷ lit " characters" ∷ [])
      "password_too_short" (num min_password_length ∷ [])
  refuse_rule_if (ltb max_password_length (length password))
      (lit "password must be at most " ∷ num max_password_length ∷ lit " characters" ∷ [])
      "password_too_long" (num max_password_length ∷ [])
  refuse_rule_if (is_empty (trim password))
      (lit "password must not consist only of whitespace" ∷ []) "password_blank" []

unfoldable pub validate_display_name : Bytes → VoidResult
validate_display_name display_name =
    let candidate = trim display_name in
    do
      refuse_rule_if (ltb (length candidate) min_display_name_length)
          (lit "display name must be at least "
            ∷ num min_display_name_length
            ∷ lit " characters"
            ∷ [])
          "display_name_too_short" (num min_display_name_length ∷ [])
      refuse_rule_if (ltb max_display_name_length (length candidate))
          (lit "display name must be at most "
            ∷ num max_display_name_length
            ∷ lit " characters"
            ∷ [])
          "display_name_too_long" (num max_display_name_length ∷ [])
      refuse_rule_if (contains_control_character candidate)
          (lit "display name contains invalid characters" ∷ []) "display_name_invalid" []

-- ===== src/Domain/CanonicalJson/RoundTrip.antt =====
-- src/domain/CanonicalJson.cpp: a reader of the strings that it writes, after RFC 8259.
use mathlib.Core.Option
use mathlib.Core.List.{append_assoc}
use custom_game_launcher_bac.Base.{
  Bool, true, lt→ltb, ◌&&◌, ◌||◌, ℕ, zero, suc, ◌+◌, ◌-◌, ◌*◌, ◌/◌, ◌%◌, ◌≡◌, ◌<◌, refl, ◌∙◌, ap,
  [], ◌∷◌, ◌++◌, Option, none, some, arith, ltb, leb, ◌==◌, ==_iff, ltb→lt, inl, inr, if◌then◌else◌,
  Bytes, Bool-cases,
}
use custom_game_launcher_bac.Domain.CanonicalJson.{
  hex_digit, escape_byte, escape_bytes, append_canonical_json_string,
}

-- Where the reader stands: in plain text, behind a backslash, or before the digits of a \u escape,
-- with their number and the value read so far.
pub data Mode : Type 0 where
  plain escaped : Mode
  unicode : ℕ → ℕ → Mode

is_hex : ℕ → Bool
is_hex c = (leb b'0' c && leb c b'9') || ((leb b'A' c && leb c b'F') || (leb b'a' c && leb c b'f'))

hex_value : ℕ → ℕ
hex_value c = if leb c b'9' then c - b'0' else if leb c b'F' then c - b'A' + 10 else c - b'a' + 10

-- The eight characters that may follow a backslash, next to u.
is_short : ℕ → Bool
is_short c =
    c == 34
    || (c == 92
        || (c == b'/' || (c == b'b' || (c == b'f' || (c == b'n' || (c == b'r' || c == b't'))))))

-- The byte that such an escape stands for.
short_escape : ℕ → ℕ
short_escape c =
    if c == b'b'
    then 8
    else if c == b'f'
    then 12
    else if c == b'n'
    then 10
    else if c == b'r'
    then 13
    else if c == b't'
    then 9
    else c

-- The UTF-8 bytes of a code point of four digits. A half of a surrogate pair is refused.
utf8 : ℕ → Option Bytes
utf8 n =
    if ltb n 128
    then some (n ∷ [])
    else if ltb n 2048
    then some ((192 + n / 64) ∷ (128 + n % 64) ∷ [])
    else if leb 55296 n && leb n 57343
    then none
    else some ((224 + n / 4096) ∷ (128 + n / 64 % 64) ∷ (128 + n % 64) ∷ [])

abbrev push : ℕ → Option (Bytes × Bytes) → Option (Bytes × Bytes)
push c = Option.map (λ ((value, rest) : Bytes × Bytes). (c ∷ value, rest))

abbrev push_all : Option Bytes → Option (Bytes × Bytes) → Option (Bytes × Bytes)
push_all none read = none
push_all (some cs) read = Option.map (λ ((value, rest) : Bytes × Bytes). (cs ++ value, rest)) read

-- The value up to the closing quote, and what stands behind that quote. A control character that is
-- not escaped, an escape that there is not, and a digit that is none are refused.
pub read_string : Mode → Bytes → Option (Bytes × Bytes)
unfolding is_hex hex_value is_short short_escape utf8
read_string mode [] = none
read_string plain (c ∷ cs) =
    let next = push c (read_string plain cs) in
    let escape = read_string escaped cs in
    if c == 34 then some ([], cs) else if c == 92 then escape else if ltb c 32 then none else next
read_string escaped (c ∷ cs) =
    let next = push (short_escape c) (read_string plain cs) in
    let digits = read_string (unicode 3 0) cs in
    if c == b'u' then digits else if is_short c then next else none
read_string (unicode zero value) (c ∷ cs) =
    let next = push_all (utf8 (value * 16 + hex_value c)) (read_string plain cs) in
    if is_hex c then next else none
read_string (unicode (suc n) value) (c ∷ cs) =
    let next = read_string (unicode n (value * 16 + hex_value c)) cs in
    if is_hex c then next else none

-- The opening quote, which tells the reader that a string begins.
abbrev pub drop_quote : Bytes → Bytes
drop_quote [] = []
drop_quote (c ∷ cs) = if c == 34 then cs else []

hex_value-hex_digit : (n : ℕ) → n < 16 → hex_value (hex_digit n) ≡ n
unfolding hex_value hex_digit
hex_value-hex_digit n h = ground arith

two_digits : (c : ℕ) → c < 32 → c / 16 % 16 * 16 + c % 16 ≡ c
two_digits c h = omega arith

hex_digit-is_hex : (n : ℕ) → n < 16 → is_hex (hex_digit n) ≡ true
unfolding is_hex hex_digit
hex_digit-is_hex n h = ground arith

-- The hexadecimal digits of a control character.
read_unicode :
    (hi lo c : ℕ) (tail : Bytes)
    → is_hex hi ≡ true
    → is_hex lo ≡ true
    → hex_value hi * 16 + hex_value lo ≡ c
    → c < 32
    → read_string plain (92 ∷ b'u' ∷ b'0' ∷ b'0' ∷ hi ∷ lo ∷ tail) ≡ push c (read_string plain tail)
unfolding read_string utf8
read_unicode hi lo c tail high low same small =
    let value : (0 + hex_value hi) * 16 + hex_value lo ≡ c = omega (arith, same) in
    rw (high, low) (rw value (rw (lt→ltb c 128 (omega arith)) refl))

read_control :
    (c : ℕ) (tail : Bytes)
    → c < 32
    → read_string plain
        (92 ∷ b'u' ∷ b'0' ∷ b'0' ∷ hex_digit (c / 16 % 16) ∷ hex_digit (c % 16) ∷ tail)
      ≡ push c (read_string plain tail)
read_control c tail h =
    read_unicode _ _ c tail (hex_digit-is_hex (c / 16 % 16) (omega arith))
      (hex_digit-is_hex (c % 16) (omega arith))
      (rw
        (
          hex_value-hex_digit (c / 16 % 16) (omega arith),
          hex_value-hex_digit (c % 16) (omega arith),
        )
        (two_digits c h))
      h

read-escape_byte :
    (c : ℕ) (tail : Bytes)
    → read_string plain (escape_byte c ++ tail) ≡ push c (read_string plain tail)
unfolding escape_byte read_string
read-escape_byte c tail = elim (Bool-cases (c == 34)) [
  | inl hit ↦ rw ((==_iff c 34).0 hit)
  | inr n34 ↦ elim (Bool-cases (c == 92)) [
    | inl hit ↦ rw ((==_iff c 92).0 hit)
    | inr n92 ↦ elim (Bool-cases (c == 8)) [
      | inl hit ↦ rw ((==_iff c 8).0 hit)
      | inr n8 ↦ elim (Bool-cases (c == 12)) [
        | inl hit ↦ rw ((==_iff c 12).0 hit)
        | inr n12 ↦ elim (Bool-cases (c == 10)) [
          | inl hit ↦ rw ((==_iff c 10).0 hit)
          | inr n10 ↦ elim (Bool-cases (c == 13)) [
            | inl hit ↦ rw ((==_iff c 13).0 hit)
            | inr n13 ↦ elim (Bool-cases (c == 9)) [
              | inl hit ↦ rw ((==_iff c 9).0 hit)
              | inr n9 ↦ elim (Bool-cases (ltb c 32)) [
                | inl low ↦
                    rw (n34, n92, n8, n12, n10, n13, n9, low)
                      (read_control c tail (ltb→lt c 32 low))
                | inr high ↦ rw (n34, n92, n8, n12, n10, n13, n9, high) (rw (n34, n92, high))
              ]
            ]
          ]
        ]
      ]
    ]
  ]
]

read-escape_bytes :
    (value rest : Bytes)
    → read_string plain (escape_bytes value ++ (34 ∷ rest)) ≡ some (value, rest)
unfolding escape_bytes read_string
read-escape_bytes [] rest = refl
read-escape_bytes (c ∷ cs) rest =
    rw append_assoc (read-escape_byte c (escape_bytes cs ++ (34 ∷ rest)))
    ∙ ap (push c) (read-escape_bytes cs rest)

-- A reader that refuses raw control characters, unknown escapes and digits that are not hexadecimal
-- takes a string of a canonical document back to its bytes, and ends exactly where it ends.
pub read_string-append_canonical_json_string :
    (value rest : Bytes)
    → read_string plain (drop_quote (append_canonical_json_string [] value ++ rest))
      ≡ some (value, rest)
unfolding append_canonical_json_string
read_string-append_canonical_json_string value rest = rw append_assoc (read-escape_bytes value rest)

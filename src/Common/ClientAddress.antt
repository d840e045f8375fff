-- ===== src/Common/ClientAddress.antt =====
-- src/common/ClientAddress.cpp: the address that a request is attributed to.
pub mod Hops
use custom_game_launcher_bac.Base.{
  ℕ, zero, suc, ◌+◌, ◌-◌, ◌*◌, ◌%◌, ◌^◌, Bool, true, false, ◌&&◌, ◌||◌, not, List, [], ◌∷◌, reverse,
  Option, none, some, ltb, leb, ◌==◌, if◌then◌else◌, any, take, drop, is_empty, is_some, ℤ, pos,
  pos_part, negsuc, sub_ℕ, ltb_ℤ, Bytes, eq_bytes, find_byte,
}

abbrev pub is_blank : ℕ → Bool
is_blank c = c == 32 || c == 9

unfoldable pub drop_blanks : Bytes → Bytes
drop_blanks [] = []
drop_blanks (c ∷ cs) = if is_blank c then drop_blanks cs else c ∷ cs

unfoldable pub trim : Bytes → Bytes
unfolding drop_blanks
trim text = reverse (drop_blanks (reverse (drop_blanks text)))

-- The digits that std::from_chars reads up to the end, with the value read so far.
unfoldable pub read_digits : ℕ → Bytes → Option ℕ
read_digits value [] = some value
read_digits value (c ∷ cs) =
    let rest = read_digits (value * 10 + (c - b'0')) cs in
    if leb b'0' c && leb c b'9' then rest else none

unfoldable pub read_number : Bytes → Option ℕ
unfolding read_digits
read_number [] = none
read_number (c ∷ cs) = read_digits 0 (c ∷ cs)

abbrev pub at_most : ℕ → Option ℕ → Option ℕ
at_most limit none = none
at_most limit (some n) = if leb n limit then some n else none

abbrev pub signed : (ℕ → ℤ) → Option ℕ → Option ℤ
signed sign none = none
signed sign (some n) = some (sign n)

-- std::from_chars for an int: a minus sign may stand first, no plus and no blank, and a value out of
-- range is refused. The whole text has to be read.
unfoldable pub parse_number : Bytes → Option ℤ
unfolding read_number
parse_number [] = none
parse_number (c ∷ cs) =
    if c == b'-'
    then signed (λ n. sub_ℕ 0 n) (at_most 2147483648 (read_number cs))
    else signed pos (at_most 2147483647 (read_number (c ∷ cs)))

-- substr(0, dot) and remove_prefix(dot + 1), where dot may be npos.
abbrev pub before : Option ℕ → Bytes → Bytes
before none text = text
before (some position) text = take position text

abbrev pub after : Option ℕ → Bytes → Bytes
after none text = text
after (some position) text = drop (position + 1) text

abbrev pub octet : Option ℤ → Option ℕ
octet none = none
octet (some value) =
    if ltb_ℤ value (pos 0) || ltb_ℤ (pos 255) value then none else some (pos_part value)

-- The loop of parseIpv4 with the octets that are left: the last one has no dot behind it. A uint32_t
-- wraps around.
unfoldable pub parse_octets : ℕ → ℕ → Bytes → Option ℕ
unfolding parse_number
parse_octets zero packed address = some packed
parse_octets (suc left) packed address =
    let dot = find_byte b'.' address in
    let value = octet (parse_number (before dot address)) in
    let rest = λ (n : ℕ). parse_octets left ((packed * 256 + n) % 2 ^ 32) (after dot address) in
    if (left == 0 && is_some dot) || (not (left == 0) && not (is_some dot))
    then none
    else elim value [ none ↦ none | some n ↦ rest n ]

unfoldable pub parse_ipv4 : Bytes → Option ℕ
unfolding parse_octets
parse_ipv4 address = parse_octets 4 0 address

-- value & ~((1U << bits) - 1U).
abbrev pub clear_low : ℕ → ℕ → ℕ
clear_low bits value = value - value % 2 ^ bits

-- A prefix of 0 admits every address, and one of 32 compares all bits.
abbrev pub same_network : ℤ → ℕ → ℕ → Bool
same_network prefix network candidate =
    if ltb_ℤ prefix (pos 0) || ltb_ℤ (pos 32) prefix
    then false
    else clear_low (32 - pos_part prefix) network == clear_low (32 - pos_part prefix) candidate

unfoldable pub matches_entry : Bytes → Bytes → Bool
unfolding parse_ipv4 parse_number
matches_entry address entry = elim (find_byte b'/' entry) [
  | none ↦ eq_bytes address entry
  | some slash ↦ elim (parse_ipv4 (take slash entry)) [
    | none ↦ false
    | some network ↦ elim (parse_ipv4 address) [
      | none ↦ false
      | some candidate ↦ elim (parse_number (drop (slash + 1) entry)) [
        | none ↦ false
        | some prefix ↦ same_network prefix network candidate
      ]
    ]
  ]
]

unfoldable pub is_trusted_proxy : Bytes → List Bytes → Bool
unfolding trim matches_entry
is_trusted_proxy address trusted_proxies =
    any (λ entry. matches_entry address (trim entry)) trusted_proxies

-- A hop that is named and is none of the proxies.
unfoldable pub is_client : List Bytes → Bytes → Bool
unfolding trim is_trusted_proxy
is_client trusted_proxies hop =
    not (is_empty (trim hop)) && not (is_trusted_proxy (trim hop) trusted_proxies)

-- The loop over rfind(','), which walks the header from its back: `hop` is the text behind the last
-- comma met, and the list holds the bytes before it, the last one first.
unfoldable pub client_hop : List Bytes → Bytes → Bytes → Option Bytes
unfolding is_client
client_hop trusted_proxies hop [] = if is_client trusted_proxies hop then some (trim hop) else none
client_hop trusted_proxies hop (c ∷ cs) =
    let next_hop = client_hop trusted_proxies [] cs in
    let longer_hop = client_hop trusted_proxies (c ∷ hop) cs in
    if c == b','
    then (if is_client trusted_proxies hop then some (trim hop) else next_hop)
    else longer_hop

abbrev pub or_peer : Bytes → Option Bytes → Bytes
or_peer peer none = peer
or_peer peer (some hop) = hop

unfoldable pub resolve_client_address : Bytes → Bytes → List Bytes → Bytes
unfolding is_trusted_proxy client_hop
resolve_client_address peer forwarded_for trusted_proxies =
    if is_empty trusted_proxies
      || (is_empty forwarded_for || not (is_trusted_proxy peer trusted_proxies))
    then peer
    else or_peer peer (client_hop trusted_proxies [] (reverse forwarded_for))

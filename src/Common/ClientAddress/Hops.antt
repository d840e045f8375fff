-- ===== src/Common/ClientAddress/Hops.antt =====
-- src/common/ClientAddress.cpp: which part of the forwarded header is believed.
use custom_game_launcher_bac.Base.{
  ℕ, ◌≡◌, ◌≢◌, refl, sym, ap, ◌∙◌, ◌⊎◌, inl, inr, Bool, true, false, ◌||◌, not, List, [], ◌∷◌, ◌++◌,
  reverse, Option, none, some, arith, is_empty, Bytes, Bool-cases, Option-cases,
}
use custom_game_launcher_bac.Common.ClientAddress.{
  is_trusted_proxy, is_client, client_hop, or_peer, resolve_client_address,
}
use mathlib.Core.List.{reverse-append, append_assoc, reverse-cons}

-- The first answer, or else the second.
abbrev or_else : Option Bytes → Option Bytes → Option Bytes
or_else none later = later
or_else (some hop) later = some hop

-- What stands left of a comma is read only where nothing right of it is a client.
client_hop-append :
    (proxies : List Bytes) (hop right left : Bytes)
    → client_hop proxies hop (right ++ b',' ∷ left)
      ≡ or_else (client_hop proxies hop right) (client_hop proxies [] left)
unfolding client_hop
client_hop-append proxies hop [] left = ground arith
client_hop-append proxies hop (c ∷ right) left =
    ground (
      arith,
      client_hop-append proxies [] right left,
      client_hop-append proxies (c ∷ hop) right left,
    )

client_hop-is_client :
    (proxies : List Bytes) (hop header : Bytes) (found : Bytes)
    → client_hop proxies hop header ≡ some found
    → (is_empty found ≡ false) × (is_trusted_proxy found proxies ≡ false)
unfolding client_hop is_client
client_hop-is_client proxies hop [] found h = ground arith
client_hop-is_client proxies hop (c ∷ cs) found h = ground (
  arith,
  client_hop-is_client proxies [] cs found,
  client_hop-is_client proxies (c ∷ hop) cs found,
)

reverse-comma :
    (forged header : Bytes)
    → reverse (forged ++ b',' ∷ header) ≡ reverse header ++ b',' ∷ reverse forged
reverse-comma forged header =
    reverse-append forged (b',' ∷ header)
    ∙ ap (λ l. l ++ reverse forged) (reverse-cons b',' header)
    ∙ append_assoc (reverse header) (b',' ∷ []) (reverse forged)

is_empty-append-cons : (xs ys : Bytes) (y : ℕ) → is_empty (xs ++ y ∷ ys) ≡ false
is_empty-append-cons [] ys y = refl
is_empty-append-cons (x ∷ xs) ys y = refl

-- The first test of the function.
abbrev is_direct : Bytes → Bytes → List Bytes → Bool
is_direct peer header proxies =
    is_empty proxies || (is_empty header || not (is_trusted_proxy peer proxies))

resolve_direct :
    (peer header : Bytes) (proxies : List Bytes)
    → is_direct peer header proxies ≡ true
    → resolve_client_address peer header proxies ≡ peer
unfolding resolve_client_address
resolve_direct peer header proxies direct = ground arith

resolve_forwarded :
    (peer header : Bytes) (proxies : List Bytes)
    → is_direct peer header proxies ≡ false
    → resolve_client_address peer header proxies
      ≡ or_peer peer (client_hop proxies [] (reverse header))
unfolding resolve_client_address
resolve_forwarded peer header proxies forwarded = ground arith

-- A request is attributed to the peer itself, or the peer is a trusted proxy and the address is one
-- that the header names and that is no trusted proxy.
resolve_client_address_cases :
    (peer header : Bytes) (proxies : List Bytes)
    → let address = resolve_client_address peer header proxies in
      (address ≡ peer)
      ⊎ ((is_trusted_proxy peer proxies ≡ true)
          × (is_trusted_proxy address proxies ≡ false)
          × (is_empty address ≡ false))
resolve_client_address_cases peer header proxies =
    elim (Bool-cases (is_direct peer header proxies)) [
      | inl direct ↦ inl (resolve_direct peer header proxies direct)
      | inr forwarded ↦
          let address = resolve_forwarded peer header proxies forwarded in
          elim (Option-cases (client_hop proxies [] (reverse header))) [
            | inl nobody ↦ inl (address ∙ ap (or_peer peer) nobody)
            | inr (hop, found) ↦
                let is_hop = address ∙ ap (or_peer peer) found in
                let (named, outside) = client_hop-is_client proxies [] (reverse header) hop found in
                inr (ground arith, rw is_hop outside, rw is_hop named)
          ]
    ]

append_same :
    (peer forged header : Bytes) (proxies : List Bytes)
    → resolve_client_address peer header proxies ≢ peer
    → resolve_client_address peer (forged ++ b',' ∷ header) proxies
      ≡ resolve_client_address peer header proxies
append_same peer forged header proxies believed =
    elim (Bool-cases (is_direct peer header proxies)) [
      | inl direct ↦ absurd (believed (resolve_direct peer header proxies direct))
      | inr forwarded ↦
          let address = resolve_forwarded peer header proxies forwarded in
          let whole =
            resolve_forwarded peer (forged ++ b',' ∷ header) proxies
              (ground (arith, is_empty-append-cons forged header b',')) in
          elim (Option-cases (client_hop proxies [] (reverse header))) [
            | inl nobody ↦ absurd (believed (address ∙ ap (or_peer peer) nobody))
            | inr (hop, found) ↦
                whole
                ∙ ap (λ h. or_peer peer (client_hop proxies [] h)) (reverse-comma forged header)
                ∙ ap (or_peer peer) (
                    client_hop-append proxies [] (reverse header) (reverse forged)
                    ∙ ap (λ o. or_else o (client_hop proxies [] (reverse forged))) found)
                ∙ sym (address ∙ ap (or_peer peer) found)
          ]
    ]

-- A request that is not attributed to the peer itself comes from a peer that is a trusted proxy, is
-- attributed to a non-empty address that is no trusted proxy, and whatever a caller has written before
-- the header and a comma does not change that address.
pub resolve_client_address_unforged :
    (peer forged header : Bytes) (proxies : List Bytes)
    → resolve_client_address peer header proxies ≢ peer
    → (is_trusted_proxy peer proxies ≡ true)
      × (is_trusted_proxy (resolve_client_address peer header proxies) proxies ≡ false)
      × (is_empty (resolve_client_address peer header proxies) ≡ false)
      × (resolve_client_address peer (forged ++ b',' ∷ header) proxies
          ≡ resolve_client_address peer header proxies)
resolve_client_address_unforged peer forged header proxies believed =
    elim (resolve_client_address_cases peer header proxies) [
      | inl direct ↦ absurd (believed direct)
      | inr (proxy, outside, named) ↦
          (proxy, outside, named, append_same peer forged header proxies believed)
    ]

-- ===== src/Storage/DownloadUrlSigner.antt =====
-- src/storage/DownloadUrlSigner.cpp: the addresses that the file server accepts. MD5 is a parameter.
use custom_game_launcher_bac.Base.{
  ℕ, ◌+◌, ◌*◌, ◌/◌, ◌%◌, [], ◌∷◌, ◌++◌, reverse, Option, none, some, if◌then◌else◌, ◌==◌, get_elem?,
  take, drop, ℤ, pos, Bytes, codes, eq_bytes, find_byte,
}
use custom_game_launcher_bac.Domain.Manifest.{to_string}

pub record SignedUrlSettings : Type 0 where
  pub public_base_url : Bytes
  pub secret : Bytes
  pub ttl : ℕ

-- The character for six bits. `bits` is below 64, the length of the alphabet.
unfoldable pub base64_character : ℕ → ℕ
base64_character bits = elim (get_elem? alphabet bits) [ none ↦ 0 | some c ↦ c ]
  where
    alphabet : Bytes
    alphabet = codes "ABCDEFGHIJKLMNOPQRSTUVWXYZabcdefghijklmnopqrstuvwxyz0123456789-_"

-- Shifts are divisions by powers of two.
unfoldable pub base64_url : Bytes → Bytes
unfolding base64_character
base64_url [] = []
base64_url (a ∷ []) =
    let triple = a * 65536 in
    base64_character (triple / 262144 % 64) ∷ base64_character (triple / 4096 % 64) ∷ []
base64_url (a ∷ b ∷ []) =
    let triple = a * 65536 + b * 256 in
    base64_character (triple / 262144 % 64)
    ∷ base64_character (triple / 4096 % 64)
    ∷ base64_character (triple / 64 % 64)
    ∷ []
base64_url (a ∷ b ∷ c ∷ bytes) =
    let triple = a * 65536 + b * 256 + c in
    base64_character (triple / 262144 % 64)
    ∷ base64_character (triple / 4096 % 64)
    ∷ base64_character (triple / 64 % 64)
    ∷ base64_character (triple % 64)
    ∷ base64_url bytes

-- The loop from the back, on the reversed text.
unfoldable pub drop_slashes : Bytes → Bytes
drop_slashes [] = []
drop_slashes (c ∷ cs) = if c == b'/' then drop_slashes cs else c ∷ cs

unfoldable pub without_trailing_slash : Bytes → Bytes
unfolding drop_slashes
without_trailing_slash value = reverse (drop_slashes (reverse value))

-- The position of "://".
unfoldable pub find_scheme : Bytes → Option ℕ
find_scheme [] = none
find_scheme (c ∷ cs) =
    let later : Option ℕ = elim (find_scheme cs) [ none ↦ none | some n ↦ some (n + 1) ] in
    if eq_bytes (take 3 (c ∷ cs)) (codes "://") then some 0 else later

unfoldable pub path_component_of : Bytes → Bytes
unfolding find_scheme without_trailing_slash
path_component_of url =
    let search_from : ℕ = elim (find_scheme url) [ none ↦ 0 | some n ↦ n + 3 ] in
    elim (find_byte b'/' (drop search_from url)) [
      | none ↦ []
      | some n ↦ without_trailing_slash (drop (search_from + n) url)
    ]

module _ (md5 : Bytes → Bytes) (settings : SignedUrlSettings) where
  unfoldable pub expiry_for : ℕ → ℤ
  expiry_for now = pos (now + settings.ttl)

  unfoldable pub sign : Bytes → ℤ → Bytes
  unfolding base64_url path_component_of without_trailing_slash
  sign storage_key expires_at =
      let expires = to_string expires_at in
      let uri = path_component_of settings.public_base_url ++ (codes "/" ++ storage_key) in
      let token = base64_url (md5 (expires ++ (uri ++ (codes " " ++ settings.secret)))) in
      without_trailing_slash settings.public_base_url
      ++ (codes "/"
          ++ (storage_key ++ (codes "?token=" ++ (token ++ (codes "&expires=" ++ expires)))))

-- ===== src/Auth/Rotation.antt =====
-- src/services/AuthService.cpp: refresh, with a token that is live and with one that was replaced.
use custom_game_launcher_bac.Base.{
  Bool-cases, Bool, inl, inr, if◌then◌else◌, eq_bytes, ℕ, ◌≡◌, ◌≢◌, refl, sym, ◌∙◌, ap, true, false,
  ◌&&◌, some, arith, Bytes, eq_bytes_iff, eq_bytes_refl, eq_bytes_ne, Result, ok, find_row,
  find_row-update_rows, find_row-count_rows-zero, count_rows-update_rows-zero,
  count_rows-update_rows-same,
}
use custom_game_launcher_bac.Database.{User, RefreshToken, Db}
use custom_game_launcher_bac.Database.Users.{find_by_id}
use custom_game_launcher_bac.Database.Tokens.{
  refresh_token_row, find_by_hash, is_live, is_expired, revoke, replace, rotate, revoke_family,
}
use custom_game_launcher_bac.Auth.{AuthEnv, AuthTokens, Draws, ClientContext}
use custom_game_launcher_bac.Auth.Session.{
  refresh, refresh_for_user, session_tokens, new_refresh_token, invalid_refresh_token,
}
use custom_game_launcher_bac.Auth.Families.{in_family, live_in, live_tokens}

-- The stored token and the account under which a refresh succeeds.
pub record Rotates (env : AuthEnv) (now : ℕ) (token : Bytes) (db : Db) (stored : RefreshToken)
    (user : User) : Type 0 where
  pub found : find_by_hash db (env.sha256_hex token) ≡ some stored
  pub live : is_live stored ≡ true
  pub unexpired : is_expired now stored ≡ false
  pub owner : find_by_id db stored.user_id ≡ some user
  pub active : user.is_active ≡ true

module _ (env : AuthEnv) (draws : Draws) (token : Bytes) (client : ClientContext) (db : Db) where
  refresh_is_rotate :
      (stored : RefreshToken) (user : User)
      → Rotates env draws.now token db stored user
      → refresh env draws token client db ≡ (
        ok (session_tokens env draws user db),
        rotate draws.now draws.row_id stored.id
            (new_refresh_token env draws user stored.family_id client)
            db,
      )
  unfolding refresh
  refresh_is_rotate stored user r =
      rw (r.found, refresh)
        (rw (r.live, r.unexpired) (rw (r.owner, refresh_for_user) (rw r.active)))

  -- The new row under the new hash, and the old row, revoked, under the old one.
  find_by_hash-rotate :
      (stored : RefreshToken) (user : User)
      → Rotates env draws.now token db stored user
      → env.sha256_hex draws.token ≢ env.sha256_hex token
      → let after = (refresh env draws token client db).1 in
        (find_by_hash after (env.sha256_hex draws.token)
          ≡ some (
              refresh_token_row draws.now draws.row_id
                (new_refresh_token env draws user stored.family_id client)))
        × (find_by_hash after (env.sha256_hex token) ≡ some (replace draws.now draws.row_id stored))
  unfolding rotate find_by_hash find_row new_refresh_token
  find_by_hash-rotate stored user r apart = rw (refresh_is_rotate stored user r) (
    rw (eq_bytes_refl (env.sha256_hex draws.token)),
    rw (eq_bytes_ne (env.sha256_hex draws.token) (env.sha256_hex token) apart) (
        find_row-update_rows (λ t. eq_bytes t.token_hash (env.sha256_hex token))
          (λ t. eq_bytes t.id stored.id && is_live t) (replace draws.now draws.row_id)
          db.refresh_tokens stored (λ t. refl) r.found
        ∙ rw (eq_bytes_refl stored.id, r.live)),
  )

  -- A refresh with a live, unexpired token of an active account succeeds: it answers with the drawn
  -- token, which is stored, live, for the same user and in the same family, and the presented token
  -- is revoked.
  pub refresh-Rotates :
      (stored : RefreshToken) (user : User)
      → Rotates env draws.now token db stored user
      → env.sha256_hex draws.token ≢ env.sha256_hex token
      → let (answer, after) = refresh env draws token client db in
        (answer ≡ ok (session_tokens env draws user db))
        × ((issued : RefreshToken) × (find_by_hash after (env.sha256_hex draws.token) ≡ some issued)
            × (is_live issued ≡ true)
            × (issued.user_id ≡ user.id)
            × (issued.family_id ≡ stored.family_id))
        × ((old : RefreshToken) × (find_by_hash after (env.sha256_hex token) ≡ some old)
            × (is_live old ≡ false)
            × (old.family_id ≡ stored.family_id))
  unfolding new_refresh_token refresh_token_row
  refresh-Rotates stored user r apart =
      let (new, old) = find_by_hash-rotate stored user r apart in
      (
        ap (λ ((answer, _) : Result AuthTokens × Db). answer) (refresh_is_rotate stored user r),
        (
          refresh_token_row draws.now draws.row_id
              (new_refresh_token env draws user stored.family_id client),
          new,
          refl,
          refl,
          refl,
        ),
        (replace draws.now draws.row_id stored, old, refl, refl),
      )

  reuse_burns :
      (stored : RefreshToken)
      → find_by_hash db (env.sha256_hex token) ≡ some stored
      → is_live stored ≡ false
      → let (answer, after) = refresh env draws token client db in
        (answer ≡ invalid_refresh_token)
        × (live_tokens after stored.family_id ≡ 0)
        × ((family_id : Bytes)
            → family_id ≢ stored.family_id
            → live_tokens after family_id ≡ live_tokens db family_id)
  unfolding refresh revoke_family
  reuse_burns stored found dead = (
    rw (found, refresh) (rw dead),
    rw (found, refresh)
        (rw dead (
          count_rows-update_rows-zero (live_in stored.family_id)
            (λ t. in_family stored.family_id t && is_live t) (revoke draws.now) db.refresh_tokens
            (λ t. ground arith) (λ t h. h))),
    λ f other.
        rw (found, refresh)
          (rw dead (
            count_rows-update_rows-same (live_in f) (λ t. in_family stored.family_id t && is_live t)
              (revoke draws.now) db.refresh_tokens (λ t h. apart f t other h))),
  )
    where
      apart :
          (f : Bytes) (t : RefreshToken)
          → f ≢ stored.family_id
          → (in_family stored.family_id t && is_live t) ≡ true
          → live_in f (revoke draws.now t) ≡ live_in f t
      apart f t other h =
          ground (arith, eq_bytes_iff t.family_id stored.family_id, eq_bytes_iff t.family_id f)

  -- Presenting a token that is revoked already is refused, and burns its family: no token of it is
  -- live afterwards. Any other family has as many live tokens as before.
  pub refresh_reuse :
      (stored : RefreshToken) (family_id : Bytes)
      → find_by_hash db (env.sha256_hex token) ≡ some stored
      → is_live stored ≡ false
      → let (answer, after) = refresh env draws token client db in
        (answer ≡ invalid_refresh_token)
        × (live_tokens after family_id
            ≡ (if eq_bytes family_id stored.family_id then 0 else live_tokens db family_id))
  refresh_reuse stored family_id found dead =
      let (refused, burnt, others) = reuse_burns stored found dead in
      elim (Bool-cases (eq_bytes family_id stored.family_id)) [
        | inl same ↦ (
          refused,
          rw same (
              ap (live_tokens (refresh env draws token client db).1)
                ((eq_bytes_iff family_id stored.family_id).0 same)
              ∙ burnt),
        )
        | inr other ↦ (
          refused,
          rw other (
              others family_id
                (λ same. clash other ((eq_bytes_iff family_id stored.family_id).1 same))),
        )
      ]
    where
      clash : {b : Bool} → b ≡ false → b ≡ true → ⊥
      clash e k = ground arith

-- A row that is found before the family is burnt is found after it, in the same family.
after_reuse :
    (env : AuthEnv) (draws : Draws) (token : Bytes) (client : ClientContext) (db : Db)
    (stored other : RefreshToken) (other_token : Bytes)
    → find_by_hash db (env.sha256_hex token) ≡ some stored
    → is_live stored ≡ false
    → find_by_hash db (env.sha256_hex other_token) ≡ some other
    → (row : RefreshToken) × (find_by_hash
          (refresh env draws token client db).1
          (env.sha256_hex other_token)
        ≡ some row)
      × (row.family_id ≡ other.family_id)
unfolding find_by_hash refresh revoke_family
after_reuse env draws token client db stored other other_token found dead at = (
  if revoked other then revoke draws.now other else other,
  rw (found, refresh)
      (rw dead (
        find_row-update_rows (λ t. eq_bytes t.token_hash (env.sha256_hex other_token)) revoked
          (revoke draws.now) db.refresh_tokens other (λ t. refl) at)),
  ground arith,
)
  where
    revoked : RefreshToken → Bool
    revoked t = in_family stored.family_id t && is_live t

dead_in_family :
    (family_id : Bytes) (db : Db) (hash : Bytes) (t : RefreshToken)
    → live_tokens db family_id ≡ 0
    → find_by_hash db hash ≡ some t
    → t.family_id ≡ family_id
    → is_live t ≡ false
unfolding find_by_hash
dead_in_family family_id db hash t gone at same = ground (
  arith,
  eq_bytes_iff t.family_id family_id,
  find_row-count_rows-zero (live_in family_id) (λ (u : RefreshToken). eq_bytes u.token_hash hash)
      db.refresh_tokens t gone at,
)

-- A token that a refresh has replaced is refused where it is presented again, at any time: that
-- leaves no live token in its family, and so the token that replaced it is refused then too.
pub refresh_replay :
    (env : AuthEnv) (draws later last : Draws) (token : Bytes) (client thief owner : ClientContext)
    (db : Db) (stored : RefreshToken) (user : User)
    → Rotates env draws.now token db stored user
    → env.sha256_hex draws.token ≢ env.sha256_hex token
    → let after = (refresh env draws token client db).1 in
      let (replayed, burnt) = refresh env later token thief after in
      (replayed ≡ invalid_refresh_token)
      × (live_tokens burnt stored.family_id ≡ 0)
      × ((refresh env last draws.token owner burnt).0 ≡ invalid_refresh_token)
refresh_replay env draws later last token client thief owner db stored user r apart =
    let after = (refresh env draws token client db).1 in
    let burnt = (refresh env later token thief after).1 in
    let (_, (issued, at, _, _, family), (old, old_at, dead, old_family)) =
      refresh-Rotates env draws token client db stored user r apart in
    let (refused, gone, _) = reuse_burns env later token thief after old old_at dead in
    let none_left = ap (live_tokens burnt) (sym old_family) ∙ gone in
    let (row, row_at, row_family) =
      after_reuse env later token thief after old issued draws.token old_at dead at in
    let row_dead =
      dead_in_family stored.family_id burnt (env.sha256_hex draws.token) row none_left row_at
        (row_family ∙ family) in
    (refused, none_left, (reuse_burns env last draws.token owner burnt row row_at row_dead).0)

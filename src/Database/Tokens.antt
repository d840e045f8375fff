-- ===== src/Database/Tokens.antt =====
-- src/repositories/postgres/PgRepositories.cpp: refresh tokens, and the single-use tokens of users.
use custom_game_launcher_bac.Base.{
  ℕ, ◌+◌, Bool, true, false, ◌&&◌, not, ◌∷◌, Option, none, some, leb, ltb, is_some, Bytes, eq_bytes,
  find_row, update_rows, delete_rows,
}
use custom_game_launcher_bac.Database.{
  RefreshToken, UserToken, UserTokenPurpose, email_verification, password_reset, Db,
}

-- The fields of NewRefreshToken.
pub record NewRefreshToken : Type 0 where
  pub user_id : Bytes
  pub family_id : Bytes
  pub token_hash : Bytes
  pub ttl : ℕ
  pub user_agent : Bytes
  pub ip_address : Bytes

unfoldable pub refresh_token_row : ℕ → Bytes → NewRefreshToken → RefreshToken
refresh_token_row now id token = record {
  id = id;
  user_id = token.user_id;
  family_id = token.family_id;
  token_hash = token.token_hash;
  expires_at = now + token.ttl;
  revoked_at = none;
  replaced_by = none;
  user_agent = token.user_agent;
  ip_address = token.ip_address;
}

unfoldable pub issue_refresh_token : ℕ → Bytes → NewRefreshToken → Db → Db
unfolding refresh_token_row
issue_refresh_token now id token db = record db {
  refresh_tokens = refresh_token_row now id token ∷ db.refresh_tokens;
}

unfoldable pub find_by_hash : Db → Bytes → Option RefreshToken
find_by_hash db token_hash = find_row (λ t. eq_bytes t.token_hash token_hash) db.refresh_tokens

abbrev pub is_live : RefreshToken → Bool
is_live t = not (is_some t.revoked_at)

-- expires_at <= now().
abbrev pub is_expired : ℕ → RefreshToken → Bool
is_expired now t = leb t.expires_at now

abbrev pub revoke : ℕ → RefreshToken → RefreshToken
revoke now t = record t { revoked_at = some now }

abbrev pub replace : ℕ → Bytes → RefreshToken → RefreshToken
replace now id t = record t { revoked_at = some now; replaced_by = some id }

-- One statement: the update reads the table as it was before the insert.
unfoldable pub rotate : ℕ → Bytes → Bytes → NewRefreshToken → Db → Db
unfolding refresh_token_row
rotate now id previous_id next db = record db {
  refresh_tokens =
      refresh_token_row now id next
      ∷ update_rows (λ t. eq_bytes t.id previous_id && is_live t) (replace now id)
          db.refresh_tokens;
}

-- UPDATE refresh_tokens SET revoked_at = now() WHERE … AND revoked_at IS NULL.
abbrev pub revoke_where : ℕ → (RefreshToken → Bool) → Db → Db
revoke_where now p db = record db {
  refresh_tokens = update_rows (λ t. p t && is_live t) (revoke now) db.refresh_tokens;
}

unfoldable pub revoke_by_id : ℕ → Bytes → Db → Db
revoke_by_id now id = revoke_where now (λ t. eq_bytes t.id id)

unfoldable pub revoke_family : ℕ → Bytes → Db → Db
revoke_family now family_id = revoke_where now (λ t. eq_bytes t.family_id family_id)

unfoldable pub revoke_all_for_user : ℕ → Bytes → Db → Db
revoke_all_for_user now user_id = revoke_where now (λ t. eq_bytes t.user_id user_id)

unfoldable pub delete_expired : ℕ → Db → Db
delete_expired now db = record db {
  refresh_tokens = delete_rows (is_expired now) db.refresh_tokens;
}

abbrev pub eq_purpose : UserTokenPurpose → UserTokenPurpose → Bool
eq_purpose email_verification email_verification = true
eq_purpose password_reset password_reset = true
eq_purpose _ _ = false

unfoldable pub issue_user_token : ℕ → Bytes → UserTokenPurpose → Bytes → ℕ → Db → Db
issue_user_token now user_id purpose token_hash ttl db = record db {
  user_tokens =
      record {
        user_id = user_id;
        purpose = purpose;
        token_hash = token_hash;
        expires_at = now + ttl;
        consumed_at = none;
      }
      ∷ db.user_tokens;
}

abbrev pub consume_row : ℕ → UserToken → UserToken
consume_row now t = record t { consumed_at = some now }

-- token_hash, purpose, not consumed and not expired, in one WHERE clause.
abbrev pub is_redeemable : ℕ → Bytes → UserTokenPurpose → UserToken → Bool
is_redeemable now token_hash purpose t =
    eq_bytes t.token_hash token_hash
    && (eq_purpose t.purpose purpose && (not (is_some t.consumed_at) && ltb now t.expires_at))

unfoldable pub consume : ℕ → Bytes → UserTokenPurpose → Db → Option Bytes × Db
consume now token_hash purpose db =
    let p = is_redeemable now token_hash purpose in
    (
      elim (find_row p db.user_tokens) [ none ↦ none | some t ↦ some t.user_id ],
      record db { user_tokens = update_rows p (consume_row now) db.user_tokens },
    )

unfoldable pub invalidate_all : ℕ → Bytes → UserTokenPurpose → Db → Db
invalidate_all now user_id purpose db = record db {
  user_tokens =
      update_rows
        (λ (t : UserToken).
          eq_bytes t.user_id user_id
          && (eq_purpose t.purpose purpose && not (is_some t.consumed_at)))
        (consume_row now) db.user_tokens;
}

-- ===== src/Auth/Session.antt =====
-- src/services/AuthService.cpp: login, refresh, logout, and the session that they issue.
use custom_game_launcher_bac.Base.{
  ◌&&◌, not, [], ◌∷◌, Option, none, some, if◌then◌else◌, Bytes, Result, VoidResult, ok, err,
  success, failure, unauthenticated, forbidden, lit,
}
use custom_game_launcher_bac.Domain.Validation.{normalize_email}
use custom_game_launcher_bac.Database.{User, RefreshToken, Db}
use custom_game_launcher_bac.Database.Users.{
  find_by_id, find_by_email, rehash_password, record_successful_login, permissions_for_user,
}
use custom_game_launcher_bac.Database.Tokens.{
  NewRefreshToken, issue_refresh_token, find_by_hash, is_live, is_expired, rotate, revoke_by_id,
  revoke_family, revoke_all_for_user,
}
use custom_game_launcher_bac.Auth.{AuthEnv, AuthTokens, ClientContext, Draws}

abbrev pub invalid_credentials {ℓ} : {A : Type ℓ} → Result A
invalid_credentials = failure unauthenticated (lit "email or password is incorrect" ∷ [])

abbrev pub invalid_refresh_token {ℓ} : {A : Type ℓ} → Result A
invalid_refresh_token =
    failure unauthenticated (lit "the refresh token is missing, expired or invalid" ∷ [])

abbrev pub account_disabled {ℓ} : {A : Type ℓ} → Result A
account_disabled = failure forbidden (lit "this account has been disabled" ∷ [])

module _ (env : AuthEnv) (draws : Draws) where
  -- The row that is stored for the drawn token.
  unfoldable pub new_refresh_token : User → Bytes → ClientContext → NewRefreshToken
  new_refresh_token user family_id client = record {
    user_id = user.id;
    family_id = family_id;
    token_hash = env.sha256_hex draws.token;
    ttl = env.settings.refresh_token_ttl;
    user_agent = client.user_agent;
    ip_address = client.ip_address;
  }

  unfoldable pub session_tokens : User → Db → AuthTokens
  session_tokens user db =
      let permissions = permissions_for_user db user.id in
      record {
        access_token = env.issue_access_token (record {
          user_id = user.id;
          email = user.email;
          permissions = permissions;
          password_change_required = user.password_change_required;
        });
        refresh_token = draws.token;
        access_token_expires_in = env.access_token_ttl;
        user = user;
        permissions = permissions;
      }

  unfoldable pub issue_session : User → Bytes → Option Bytes → ClientContext → Db → AuthTokens × Db
  unfolding new_refresh_token session_tokens
  issue_session user family_id rotates_token_id client db =
      let row = new_refresh_token user family_id client in
      (
        session_tokens user db,
        elim rotates_token_id [
          | some previous ↦ rotate draws.now draws.row_id previous row db
          | none ↦ issue_refresh_token draws.now draws.row_id row db
        ],
      )

  -- The upgrade of a weak hash, where hashing succeeds.
  unfoldable pub upgrade_hash : User → Bytes → Db → Db
  upgrade_hash user password db =
      if env.needs_rehash user.password_hash
      then elim (env.hash_password password) [
        | ok upgraded ↦ rehash_password user.id upgraded db
        | err e ↦ db
      ]
      else db

  -- The part of login behind the checks: the login is recorded and a new family is opened.
  unfoldable pub open_session : User → Bytes → ClientContext → Db → Result AuthTokens × Db
  unfolding issue_session upgrade_hash
  open_session user password client db =
      let (tokens, after) =
        issue_session user draws.family_id none client
          (record_successful_login draws.now user.id (upgrade_hash user password db)) in
      (ok tokens, after)

  unfoldable pub login : Bytes → Bytes → ClientContext → Db → Result AuthTokens × Db
  unfolding open_session
  login email password client db = elim (find_by_email db (normalize_email email)) [
    | none ↦ (invalid_credentials, db)
    | some user ↦
        if not (env.verify_password password user.password_hash)
        then (invalid_credentials, db)
        else if not user.is_active
        then (account_disabled, db)
        else if env.settings.require_verified_email && not user.email_verified
        then (failure forbidden (lit "confirm your email address before signing in" ∷ []), db)
        else open_session user password client db
  ]

  -- The part of refresh behind the tests on the stored token.
  unfoldable pub refresh_for_user : RefreshToken → ClientContext → Db → Result AuthTokens × Db
  unfolding issue_session
  refresh_for_user stored client db = elim (find_by_id db stored.user_id) [
    | none ↦ (invalid_refresh_token, revoke_family draws.now stored.family_id db)
    | some user ↦
        if not user.is_active
        then (account_disabled, revoke_all_for_user draws.now user.id db)
        else let (tokens, after) = issue_session user stored.family_id (some stored.id) client db in
          (ok tokens, after)
  ]

  unfoldable pub refresh : Bytes → ClientContext → Db → Result AuthTokens × Db
  unfolding refresh_for_user
  refresh refresh_token client db = elim (find_by_hash db (env.sha256_hex refresh_token)) [
    | none ↦ (invalid_refresh_token, db)
    | some stored ↦
        if not (is_live stored)
        then (invalid_refresh_token, revoke_family draws.now stored.family_id db)
        else if is_expired draws.now stored
        then (invalid_refresh_token, revoke_by_id draws.now stored.id db)
        else refresh_for_user stored client db
  ]

  unfoldable pub logout : Bytes → Db → VoidResult × Db
  logout refresh_token db = elim (find_by_hash db (env.sha256_hex refresh_token)) [
    | none ↦ (success, db)
    | some stored ↦ (success, revoke_by_id draws.now stored.id db)
  ]

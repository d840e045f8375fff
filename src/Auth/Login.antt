-- ===== src/Auth/Login.antt =====
-- src/services/AuthService.cpp: login, with the refresh that its token is for.
use custom_game_launcher_bac.Base.{
  ◌+◌, ℕ, ◌≡◌, ◌<◌, ◌↔◌, refl, inl, inr, true, false, ◌&&◌, not, some, arith, ok, Bytes,
  eq_bytes_refl, leb, ◌∙◌, Option-cases, Bool-cases, Result-cases, find_row, find_row-update_rows,
  is_ok, if◌then◌else◌,
}
use custom_game_launcher_bac.Domain.Validation.{normalize_email}
use custom_game_launcher_bac.Database.{User, Db}
use custom_game_launcher_bac.Database.Users.{
  find_by_email, find_by_id, has_id, record_successful_login, rehash_password, update_user,
}
use custom_game_launcher_bac.Database.Tokens.{
  NewRefreshToken, find_by_hash, issue_refresh_token, refresh_token_row,
}
use custom_game_launcher_bac.Auth.{AuthEnv, AuthTokens, Draws, ClientContext}
use custom_game_launcher_bac.Auth.Session.{
  login, refresh, refresh_for_user, open_session, issue_session, upgrade_hash, session_tokens,
  new_refresh_token,
}

-- The account may open a session with this password.
pub record MayLogIn (env : AuthEnv) (password : Bytes) (user : User) : Type 0 where
  pub password_verified : env.verify_password password user.password_hash ≡ true
  pub active : user.is_active ≡ true
  pub confirmed : (env.settings.require_verified_email && not user.email_verified) ≡ false

-- The account of this id is active.
abbrev pub IsActive : Db → Bytes → Type 0
IsActive db id = (user : User) × (find_by_id db id ≡ some user) × (user.is_active ≡ true)

update_user-IsActive :
    (id : Bytes) (f : User → User) (db : Db)
    → ((u : User) → (has_id id (f u) ≡ has_id id u) × ((f u).is_active ≡ u.is_active))
    → IsActive db id
    → IsActive (update_user id f db) id
unfolding find_by_id
update_user-IsActive id f db keeps (user, found, active) = (
  if has_id id user then f user else user,
  find_row-update_rows (has_id id) (has_id id) f db.users user (λ u. (keeps u).0) found,
  elim (Bool-cases (has_id id user)) [
    | inl hit ↦ rw hit ((keeps user).1 ∙ active)
    | inr miss ↦ rw miss active
  ],
)

module _ (env : AuthEnv) (draws : Draws) (user : User) (password : Bytes) (db : Db)
    (here : IsActive db user.id) where
  login-IsActive :
      IsActive
        (record_successful_login draws.now user.id (upgrade_hash env draws user password db))
        user.id
  unfolding upgrade_hash rehash_password record_successful_login
  login-IsActive =
      update_user-IsActive user.id _ _ (λ u. (refl, refl))
        (elim (Bool-cases (env.needs_rehash user.password_hash)) [
          | inr strong ↦ rw strong here
          | inl weak ↦ rw weak (elim (Result-cases (env.hash_password password)) [
            | inr (e, failed) ↦ rw failed here
            | inl (hash, hashed) ↦
                rw hashed (update_user-IsActive user.id _ db (λ u. (refl, refl)) here)
          ])
        ])

-- A refresh with a token whose row is live, for an account that is active.
refresh_succeeds :
    (env : AuthEnv) (draws : Draws) (client : ClientContext) (token : Bytes) (db : Db)
    (row : NewRefreshToken) (now : ℕ) (id : Bytes)
    → find_by_hash db (env.sha256_hex token) ≡ some (refresh_token_row now id row)
    → draws.now < now + row.ttl
    → IsActive db row.user_id
    → is_ok (refresh env draws token client db).0 ≡ true
unfolding refresh refresh_token_row
refresh_succeeds env draws client token db row now id found in_time (user, owner, active) =
    let unexpired : leb (now + row.ttl) draws.now ≡ false = ground arith in
    rw (found, refresh) (rw unexpired (rw (owner, refresh_for_user) (rw active refl)))

module _ (env : AuthEnv) (draws later : Draws) (email password : Bytes)
    (client again : ClientContext) (db : Db) where
  login_opens :
      (user : User)
      → find_by_email db (normalize_email email) ≡ some user
      → MayLogIn env password user
      → login env draws email password client db ≡ open_session env draws user password client db
  unfolding login
  login_opens user found may =
      rw (found, login) (rw (may.password_verified, may.active, may.confirmed) refl)

  login_accepts :
      (tokens : AuthTokens)
      → (login env draws email password client db).0 ≡ ok tokens
      → (user : User) × (find_by_email db (normalize_email email) ≡ some user)
        × MayLogIn env password user
  unfolding login
  login_accepts tokens h = elim (Option-cases (find_by_email db (normalize_email email))) [
    | inl lost ↦ ground arith
    | inr (user, found) ↦ (
      user,
      found,
      record { password_verified = ground arith; active = ground arith; confirmed = ground arith },
    )
  ]

  open_session-refresh :
      (user : User)
      → IsActive db user.id
      → later.now < draws.now + env.settings.refresh_token_ttl
      → (tokens : AuthTokens) × ((open_session env draws user password client db).0 ≡ ok tokens)
        × (is_ok
              (refresh env later tokens.refresh_token again
                (open_session env draws user password client db).1).0
            ≡ true)
  unfolding open_session issue_session session_tokens issue_refresh_token find_by_hash find_row
      find_by_id new_refresh_token
  open_session-refresh user here in_time =
      let row = new_refresh_token env draws user draws.family_id client in
      let before =
        record_successful_login draws.now user.id (upgrade_hash env draws user password db) in
      (
        session_tokens env draws user before,
        refl,
        refresh_succeeds env later again draws.token
            (issue_refresh_token draws.now draws.row_id row before) row draws.now draws.row_id
            (rw (eq_bytes_refl (env.sha256_hex draws.token)) refl) in_time
            (login-IsActive env draws user password db here),
      )

  -- A login gives a token, and a refresh with that token before it expires succeeds, exactly where an
  -- account is found under the normalised address, its password verifies, it is active, and its
  -- address is confirmed where that is required. The account is the one of its id.
  pub login_iff :
      ((user : User)
        → find_by_email db (normalize_email email) ≡ some user
        → find_by_id db user.id ≡ some user)
      → later.now < draws.now + env.settings.refresh_token_ttl
      → let answer = login env draws email password client db in
        ((tokens : AuthTokens) × (answer.0 ≡ ok tokens)
          × (is_ok (refresh env later tokens.refresh_token again answer.1).0 ≡ true))
        ↔ ((user : User) × (find_by_email db (normalize_email email) ≡ some user)
            × MayLogIn env password user)
  login_iff by_id in_time = (
    λ (tokens, given, works). login_accepts tokens given,
    λ (user, found, may).
        rw (login_opens user found may)
          (open_session-refresh user (user, by_id user found, may.active) in_time),
  )

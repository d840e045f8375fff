-- ===== src/Auth/Families/Calls.antt =====
-- Each call of src/services/AuthService.cpp that touches refresh tokens, one by one.
use custom_game_launcher_bac.Base.{
  ◌≡◌, refl, ◌∙◌, ap, inl, inr, true, ◌&&◌, arith, Bytes, eq_bytes, count_rows,
  count_rows-update_rows-le, Option-cases, Result-cases,
}
use custom_game_launcher_bac.Database.{User, RefreshToken, password_reset, Db}
use custom_game_launcher_bac.Database.Users.{
  find_by_id, record_successful_login, rehash_password, update_password_hash,
}
use custom_game_launcher_bac.Database.Tokens.{
  find_by_hash, is_live, revoke, revoke_by_id, revoke_all_for_user, invalidate_all, consume,
}
use custom_game_launcher_bac.Auth.{AuthEnv, Draws, ClientContext}
use custom_game_launcher_bac.Auth.Session.{
  login, refresh, logout, open_session, new_refresh_token, upgrade_hash,
}
use custom_game_launcher_bac.Auth.Account.{
  change_password, store_changed_password, reset_password, store_reset_password,
}
use custom_game_launcher_bac.Auth.Families.{
  in_family, SingleLive, IsFresh, revoke_where-le, issue-SingleLive, rotate-SingleLive, same_tokens,
  login_cases, refresh_cases,
}

module _ (env : AuthEnv) (draws : Draws) where
  abbrev recorded : User → Bytes → Db → Db
  recorded user password db =
      record_successful_login draws.now user.id (upgrade_hash env draws user password db)

  refresh_tokens-recorded :
      (user : User) (password : Bytes) (db : Db)
      → (recorded user password db).refresh_tokens ≡ db.refresh_tokens
  unfolding record_successful_login upgrade_hash rehash_password
  refresh_tokens-recorded user password db = ground arith

  open_session-SingleLive :
      (user : User) (password : Bytes) (client : ClientContext) (db : Db)
      → IsFresh draws.family_id db
      → SingleLive db
      → SingleLive (open_session env draws user password client db).1
  unfolding open_session new_refresh_token
  open_session-SingleLive user password client db fresh s =
      let same = refresh_tokens-recorded user password db in
      issue-SingleLive draws.now draws.row_id
        (new_refresh_token env draws user draws.family_id client) (recorded user password db)
        (ap (count_rows (in_family draws.family_id)) same ∙ fresh)
        (same_tokens db (recorded user password db) same s)

  pub login-SingleLive :
      (email password : Bytes) (client : ClientContext) (db : Db)
      → IsFresh draws.family_id db
      → SingleLive db
      → SingleLive (login env draws email password client db).1
  login-SingleLive email password client db fresh s =
      login_cases env draws SingleLive email password client db s
        (λ user. open_session-SingleLive user password client db fresh s)

  pub refresh-SingleLive :
      (token : Bytes) (client : ClientContext) (db : Db)
      → SingleLive db
      → SingleLive (refresh env draws token client db).1
  unfolding new_refresh_token
  refresh-SingleLive token client db s =
      refresh_cases env draws SingleLive token client db s
        (λ p f. omega (arith, revoke_where-le draws.now p db f, s f))
        (λ user stored found live.
          rotate-SingleLive draws.now draws.row_id stored _ db (env.sha256_hex token) found live
            refl s)

  pub logout-SingleLive :
      (token : Bytes) (db : Db) → SingleLive db → SingleLive (logout env draws token db).1
  unfolding logout revoke_by_id
  logout-SingleLive token db s f = elim (Option-cases (find_by_hash db (env.sha256_hex token))) [
    | inl lost ↦ rw (lost, logout) (s f)
    | inr (stored, e) ↦
        rw (e, logout)
          (omega (
            arith,
            revoke_where-le draws.now (λ (t : RefreshToken). eq_bytes t.id stored.id) db f,
            s f,
          ))
  ]

  -- What a change of a password leaves of the tokens: each session of the user is revoked.
  abbrev changed : Bytes → Bytes → Db → Db
  changed user_id password_hash db =
      invalidate_all draws.now user_id password_reset
        (revoke_all_for_user draws.now user_id (update_password_hash user_id password_hash db))

  changed-SingleLive :
      (user_id password_hash : Bytes) (db : Db)
      → SingleLive db
      → SingleLive (changed user_id password_hash db)
  unfolding invalidate_all revoke_all_for_user update_password_hash
  changed-SingleLive user_id password_hash db s f = omega (
    arith,
    revoke_where-le draws.now (λ (t : RefreshToken). eq_bytes t.user_id user_id) db f,
    s f,
  )

  changed-IsFresh :
      (user_id password_hash family_id : Bytes) (db : Db)
      → IsFresh family_id db
      → IsFresh family_id (changed user_id password_hash db)
  unfolding invalidate_all revoke_all_for_user update_password_hash
  changed-IsFresh user_id password_hash family_id db fresh = omega (
    arith,
    count_rows-update_rows-le (in_family family_id)
        (λ (t : RefreshToken). eq_bytes t.user_id user_id && is_live t) (revoke draws.now)
        db.refresh_tokens (λ (t : RefreshToken) (h : in_family family_id t ≡ true). h),
    fresh,
  )

  store_changed_password-SingleLive :
      (user : User) (password : Bytes) (client : ClientContext) (db : Db)
      → IsFresh draws.family_id db
      → SingleLive db
      → SingleLive (store_changed_password env draws user password client db).1
  unfolding store_changed_password new_refresh_token
  store_changed_password-SingleLive user password client db fresh s =
      elim (Result-cases (env.hash_password password)) [
        | inr (e, failed) ↦ rw (failed, store_changed_password) s
        | inl (hash, hashed) ↦
            let kept = changed-SingleLive user.id hash db s in
            elim (Option-cases (find_by_id (changed user.id hash db) user.id)) [
              | inl gone ↦ rw (hashed, store_changed_password) (rw gone kept)
              | inr (updated, at) ↦
                  rw (hashed, store_changed_password)
                    (rw at (
                      issue-SingleLive draws.now draws.row_id
                        (new_refresh_token env draws updated draws.family_id client)
                        (changed user.id hash db)
                        (changed-IsFresh user.id hash draws.family_id db fresh) kept))
            ]
      ]

  pub change_password-SingleLive :
      (user_id current password : Bytes) (client : ClientContext) (db : Db)
      → IsFresh draws.family_id db
      → SingleLive db
      → SingleLive (change_password env draws user_id current password client db).1
  unfolding change_password
  change_password-SingleLive user_id current password client db fresh s f =
      elim (Option-cases (find_by_id db user_id)) [
        | inl gone ↦ ground (arith, s f)
        | inr (user, at) ↦
            ground (arith, s f, store_changed_password-SingleLive user password client db fresh s f)
      ]

  store_reset_password-SingleLive :
      (user_id password : Bytes) (db : Db)
      → SingleLive db
      → SingleLive (store_reset_password env draws user_id password db).1
  unfolding store_reset_password
  store_reset_password-SingleLive user_id password db s =
      elim (Result-cases (env.hash_password password)) [
        | inr (e, failed) ↦ rw (failed, store_reset_password) s
        | inl (hash, hashed) ↦
            rw (hashed, store_reset_password) (changed-SingleLive user_id hash db s)
      ]

  pub reset_password-SingleLive :
      (token password : Bytes) (db : Db)
      → SingleLive db
      → SingleLive (reset_password env draws token password db).1
  unfolding reset_password consume
  reset_password-SingleLive token password db s f =
      elim (Option-cases (consume draws.now (env.sha256_hex token) password_reset db).0) [
        | inl spent ↦ ground (arith, s f)
        | inr (user_id, redeemed) ↦ ground (
          arith,
          s f,
          store_reset_password-SingleLive user_id password
              (consume draws.now (env.sha256_hex token) password_reset db).1 s f,
        )
      ]

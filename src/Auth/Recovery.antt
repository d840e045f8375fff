-- ===== src/Auth/Recovery.antt =====
-- src/services/AuthService.cpp: the reset of a password, and the sessions and links of its account.
use custom_game_launcher_bac.Base.{
  ℕ, ◌≤◌, ◌≡◌, ◌≢◌, refl, inl, inr, Bool, false, ◌&&◌, not, none, some, arith, is_some, All, Bytes,
  eq_bytes, Error, ok, err, success, find_row-none, All-none-update_rows, All-update_rows,
  count_rows, count_rows-update_rows-zero, Option-cases, Result-cases,
}
use custom_game_launcher_bac.Domain.Validation.{validate_password}
use custom_game_launcher_bac.Database.{UserToken, password_reset, RefreshToken, Db}
use custom_game_launcher_bac.Database.Users.{update_password_hash}
use custom_game_launcher_bac.Database.Tokens.{
  is_live, revoke, revoke_all_for_user, is_redeemable, eq_purpose, consume_row, consume,
  invalidate_all,
}
use custom_game_launcher_bac.Auth.{AuthEnv, Draws}
use custom_game_launcher_bac.Auth.Account.{reset_password, store_reset_password}

-- A live session of a user, and an outstanding reset link of a user.
abbrev pub is_session_of : Bytes → RefreshToken → Bool
is_session_of user_id t = eq_bytes t.user_id user_id && is_live t

abbrev pub is_reset_link_of : Bytes → UserToken → Bool
is_reset_link_of user_id t =
    eq_bytes t.user_id user_id
    && (eq_purpose t.purpose password_reset && not (is_some t.consumed_at))

module _ (env : AuthEnv) (draws : Draws) where
  store_failed :
      (user_id password : Bytes) (db : Db) (e : Error)
      → env.hash_password password ≡ err e
      → (store_reset_password env draws user_id password db).0 ≡ success
      → ⊥
  unfolding store_reset_password
  store_failed user_id password db e failed h = ground arith

  store_ends :
      (user_id password hash : Bytes) (db : Db)
      → env.hash_password password ≡ ok hash
      → let after = (store_reset_password env draws user_id password db).1 in
        (count_rows (is_session_of user_id) after.refresh_tokens ≡ 0)
        × (count_rows (is_reset_link_of user_id) after.user_tokens ≡ 0)
  unfolding store_reset_password invalidate_all revoke_all_for_user update_password_hash
  store_ends user_id password hash db hashed = (
    rw (hashed, store_reset_password)
        (count_rows-update_rows-zero (is_session_of user_id) (is_session_of user_id)
          (revoke draws.now) db.refresh_tokens (λ t. ground arith) (λ t h. h)),
    rw (hashed, store_reset_password)
        (count_rows-update_rows-zero (is_reset_link_of user_id) (is_reset_link_of user_id)
          (consume_row draws.now) db.user_tokens (λ t. ground arith) (λ t h. h)),
  )

  -- After a reset that succeeds, the owner of the link has no live session and no outstanding link.
  pub reset_password_ends_sessions :
      (token password : Bytes) (db : Db)
      → (reset_password env draws token password db).0 ≡ success
      → let after = (reset_password env draws token password db).1 in
        (user_id : Bytes) × ((consume draws.now (env.sha256_hex token) password_reset db).0
          ≡ some user_id)
        × (count_rows (is_session_of user_id) after.refresh_tokens ≡ 0)
        × (count_rows (is_reset_link_of user_id) after.user_tokens ≡ 0)
  unfolding reset_password
  reset_password_ends_sessions token password db h =
      let redeemed = consume draws.now (env.sha256_hex token) password_reset db in
      elim (Result-cases (validate_password password)) [
        | inr (e, weak) ↦ ground arith
        | inl (_, strong) ↦ elim (Option-cases redeemed.0) [
          | inl spent ↦ ground arith
          | inr (user_id, found) ↦ elim (Result-cases (env.hash_password password)) [
            | inr (e, failed) ↦
                absurd (store_failed user_id password redeemed.1 e failed (ground arith))
            | inl (hash, hashed) ↦ (
              user_id,
              found,
              rw (strong, reset_password)
                  (rw found (store_ends user_id password hash redeemed.1 hashed).0),
              rw (strong, reset_password)
                  (rw found (store_ends user_id password hash redeemed.1 hashed).1),
            )
          ]
        ]
      ]

-- No row with the hash can be redeemed as a reset link at the time `now`.
abbrev Spent : Bytes → ℕ → Db → Type 0
Spent hash now db =
    All (λ (t : UserToken). is_redeemable now hash password_reset t ≡ false) db.user_tokens

consume-none :
    (now : ℕ) (hash : Bytes) (db : Db)
    → Spent hash now db
    → (consume now hash password_reset db).0 ≡ none
unfolding consume
consume-none now hash db spent =
    rw (find_row-none (is_redeemable now hash password_reset) db.user_tokens spent, consume) refl

consume_spends :
    (now later : ℕ) (hash : Bytes) (db : Db)
    → now ≤ later
    → Spent hash later (consume now hash password_reset db).1
unfolding consume
consume_spends now later hash db h =
    All-none-update_rows (is_redeemable later hash password_reset)
      (is_redeemable now hash password_reset) (consume_row now) db.user_tokens (λ t. ground arith)
      (λ t miss. ground arith)

store_spends :
    (env : AuthEnv) (draws : Draws) (user_id password hash : Bytes) (later : ℕ) (db : Db)
    → Spent hash later db
    → Spent hash later (store_reset_password env draws user_id password db).1
unfolding store_reset_password invalidate_all revoke_all_for_user update_password_hash
store_spends env draws user_id password hash later db spent =
    elim (Result-cases (env.hash_password password)) [
      | inr (e, failed) ↦ rw (failed, store_reset_password) spent
      | inl (stored, hashed) ↦
          rw (hashed, store_reset_password)
            (All-update_rows (λ t. is_redeemable later hash password_reset t ≡ false)
              (is_reset_link_of user_id) (consume_row draws.now) db.user_tokens
              (λ t hit closed. ground arith) spent)
    ]

reset_spends :
    (env : AuthEnv) (draws : Draws) (token password : Bytes) (later : ℕ) (db : Db)
    → draws.now ≤ later
    → (reset_password env draws token password db).0 ≡ success
    → Spent (env.sha256_hex token) later (reset_password env draws token password db).1
unfolding reset_password
reset_spends env draws token password later db h done =
    let redeemed = consume draws.now (env.sha256_hex token) password_reset db in
    let spent = consume_spends draws.now later (env.sha256_hex token) db h in
    elim (Result-cases (validate_password password)) [
      | inr (e, weak) ↦ ground arith
      | inl (_, strong) ↦ elim (Option-cases redeemed.0) [
        | inl none_left ↦ rw (strong, reset_password) (rw none_left spent)
        | inr (user_id, found) ↦
            rw (strong, reset_password)
              (rw found (
                store_spends env draws user_id password (env.sha256_hex token) later redeemed.1
                  spent))
      ]
    ]

-- A reset link works once: after a reset that succeeds, another one with the same link, at the same
-- time or later and with any password, fails and changes no password.
pub reset_password_once :
    (env : AuthEnv) (draws later : Draws) (token password another : Bytes) (db : Db)
    → draws.now ≤ later.now
    → (reset_password env draws token password db).0 ≡ success
    → let after = (reset_password env draws token password db).1 in
      ((reset_password env later token another after).0 ≢ success)
      × ((reset_password env later token another after).1.users ≡ after.users)
unfolding reset_password consume
reset_password_once env draws later token password another db h done =
    let after = (reset_password env draws token password db).1 in
    let closed =
      consume-none later.now (env.sha256_hex token) after
        (reset_spends env draws token password later.now db h done) in
    elim (Result-cases (validate_password another)) [
      | inr (e, weak) ↦ rw (weak, reset_password) ((λ c. cc), refl)
      | inl (_, strong) ↦ rw (strong, reset_password) (rw closed ((λ c. cc), refl))
    ]

-- ===== src/Auth/Account.antt =====
-- src/services/AuthService.cpp: registration, verification, and the changes of a password.
use custom_game_launcher_bac.Base.{
  Bool, false, ◌||◌, not, [], ◌∷◌, none, some, if◌then◌else◌, is_ok, Bytes, Result, VoidResult, ok,
  err, success, failure, broken_rule, unauthenticated, invalid_input, lit,
}
use custom_game_launcher_bac.Domain.Validation.{
  normalize_email, trim, validate_email, validate_display_name, validate_password,
}
use custom_game_launcher_bac.Database.{User, Db, email_verification, password_reset}
use custom_game_launcher_bac.Database.Users
use custom_game_launcher_bac.Database.Tokens.{
  revoke_all_for_user, issue_user_token, consume, invalidate_all,
}
use custom_game_launcher_bac.Auth.{
  AuthEnv, AuthTokens, ClientContext, Draws, World, RegistrationResult, verification_message,
  password_reset_message,
}
use custom_game_launcher_bac.Auth.Session.{invalid_credentials, account_disabled, issue_session}

module _ (env : AuthEnv) (draws : Draws) where
  -- The answer is whether the message was accepted by the transport.
  unfoldable pub send_verification_link : User → World → Bool × World
  send_verification_link user w =
      if not env.settings.mail_enabled
      then (false, w)
      else let message = verification_message user.email user.display_name draws.token in
        (
          is_ok (env.deliver message),
          record {
            db =
                issue_user_token draws.now user.id email_verification (env.sha256_hex draws.token)
                  env.settings.email_verification_ttl w.db;
            outbox = message ∷ w.outbox;
          },
        )

  -- The part of registerUser behind the checks of the input.
  unfoldable pub register_checked :
      Bytes → Bytes → Bytes → World → Result RegistrationResult × World
  unfolding send_verification_link
  register_checked email display_name password w = elim (env.hash_password password) [
    | err e ↦ (err e, w)
    | ok password_hash ↦
        let (created, db) = Users.create draws.row_id email display_name password_hash w.db in
        elim created [
          | err e ↦ (err e, record w { db = db })
          | ok user ↦
              let (sent, after) =
                send_verification_link user
                  (record w { db = Users.assign_role user.id env.settings.default_role db }) in
              (ok (record { user = user; verification_email_sent = sent }), after)
        ]
  ]

  unfoldable pub register_user : Bytes → Bytes → Bytes → World → Result RegistrationResult × World
  unfolding register_checked
  register_user email_text password display_name_text w =
      let email = normalize_email email_text in
      let display_name = trim display_name_text in
      elim (validate_email email) [
        | err e ↦ (err e, w)
        | ok _ ↦ elim (validate_display_name display_name) [
          | err e ↦ (err e, w)
          | ok _ ↦ elim (validate_password password) [
            | err e ↦ (err e, w)
            | ok _ ↦ register_checked email display_name password w
          ]
        ]
      ]

  unfoldable pub resend_verification : Bytes → World → VoidResult × World
  unfolding send_verification_link
  resend_verification email w = elim (Users.find_by_email w.db (normalize_email email)) [
    | none ↦ (success, w)
    | some user ↦
        if user.email_verified || not user.is_active
        then (success, w)
        else let (sent, after) =
            send_verification_link user
              (record w { db = invalidate_all draws.now user.id email_verification w.db }) in
          (success, after)
  ]

  unfoldable pub verify_email : Bytes → Db → VoidResult × Db
  verify_email token db =
      let (redeemed, after) = consume draws.now (env.sha256_hex token) email_verification db in
      elim redeemed [
        | none ↦ (
          failure invalid_input (lit "this verification link is invalid or has expired" ∷ []),
          after,
        )
        | some user_id ↦ (success, Users.mark_email_verified user_id after)
      ]

  unfoldable pub request_password_reset : Bytes → World → VoidResult × World
  request_password_reset email w = elim (Users.find_by_email w.db (normalize_email email)) [
    | none ↦ (success, w)
    | some user ↦ if not env.settings.mail_enabled then (success, w) else (
      success,
      record {
        db =
            issue_user_token draws.now user.id password_reset (env.sha256_hex draws.token)
              env.settings.password_reset_ttl
              (invalidate_all draws.now user.id password_reset w.db);
        outbox = password_reset_message user.email user.display_name draws.token ∷ w.outbox;
      },
    )
  ]

  -- The part of resetPassword behind the redemption of the link.
  unfoldable pub store_reset_password : Bytes → Bytes → Db → VoidResult × Db
  store_reset_password user_id new_password db = elim (env.hash_password new_password) [
    | err e ↦ (err e, db)
    | ok password_hash ↦ (
      success,
      invalidate_all draws.now user_id password_reset (
          revoke_all_for_user draws.now user_id
            (Users.update_password_hash user_id password_hash db)),
    )
  ]

  unfoldable pub reset_password : Bytes → Bytes → Db → VoidResult × Db
  unfolding store_reset_password
  reset_password token new_password db = elim (validate_password new_password) [
    | err e ↦ (err e, db)
    | ok _ ↦
        let (redeemed, after) = consume draws.now (env.sha256_hex token) password_reset db in
        elim redeemed [
          | none ↦
              (failure invalid_input (lit "this reset link is invalid or has expired" ∷ []), after)
          | some user_id ↦ store_reset_password user_id new_password after
        ]
  ]

  -- The part of changePassword behind the tests: the new hash, the end of every session, and one
  -- new session, issued from the row as it is then.
  unfoldable pub store_changed_password : User → Bytes → ClientContext → Db → Result AuthTokens × Db
  unfolding issue_session
  store_changed_password user new_password client db = elim (env.hash_password new_password) [
    | err e ↦ (err e, db)
    | ok password_hash ↦
        let after = invalidate_all draws.now user.id password_reset (
          revoke_all_for_user draws.now user.id
            (Users.update_password_hash user.id password_hash db)) in
        elim (Users.find_by_id after user.id) [
          | none ↦ (invalid_credentials, after)
          | some updated ↦
              let (tokens, last) =
                issue_session env draws updated draws.family_id none client after in
              (ok tokens, last)
        ]
  ]

  unfoldable pub change_password :
      Bytes → Bytes → Bytes → ClientContext → Db → Result AuthTokens × Db
  unfolding store_changed_password
  change_password user_id current_password new_password client db =
      elim (validate_password new_password) [
        | err e ↦ (err e, db)
        | ok _ ↦ elim (Users.find_by_id db user_id) [
          | none ↦ (invalid_credentials, db)
          | some user ↦
              if not (env.verify_password current_password user.password_hash)
              then (failure unauthenticated (lit "that is not your current password" ∷ []), db)
              else if not user.is_active
              then (account_disabled, db)
              else if env.verify_password new_password user.password_hash
              then (
                broken_rule (lit "the new password has to be different from the current one" ∷ [])
                    "password_unchanged" [],
                db,
              )
              else store_changed_password user new_password client db
        ]
      ]

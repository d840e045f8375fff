-- ===== src/Auth/Families/Reach.antt =====
-- Histories of calls of src/services/AuthService.cpp, of every kind and in any order.
use custom_game_launcher_bac.Base.{
  ℕ, ◌≡◌, String, Bytes, List, ◌∙◌, arith, Option-cases, Result-cases, inl, inr,
  count_rows-delete_rows-le,
}
use custom_game_launcher_bac.Domain.Validation.{normalize_email, trim}
use custom_game_launcher_bac.Database.{Db, User, email_verification}
use custom_game_launcher_bac.Database.Users
use custom_game_launcher_bac.Database.Tokens.{
  delete_expired, is_expired, invalidate_all, issue_user_token, consume,
}
use custom_game_launcher_bac.Auth.{AuthEnv, Draws, ClientContext, World, MailMessage}
use custom_game_launcher_bac.Auth.Session.{login, refresh, logout}
use custom_game_launcher_bac.Auth.Account.{
  register_user, register_checked, send_verification_link, resend_verification, verify_email,
  request_password_reset, reset_password, change_password,
}
use custom_game_launcher_bac.Auth.Families.{SingleLive, IsFresh, live_in}
use custom_game_launcher_bac.Auth.Families.Calls.{
  login-SingleLive, refresh-SingleLive, logout-SingleLive, change_password-SingleLive,
  reset_password-SingleLive,
}

module _ (env : AuthEnv) where
  -- One request, or the sweep of expired tokens. A call that opens a family draws a fresh id.
  pub data Step (db : Db) : Db → Type 0 where
    registers :
        (draws : Draws) (email password name : Bytes) (outbox : List MailMessage)
        → Step db
            (register_user env draws email password name (record { db = db; outbox = outbox })).1.db
    resends :
        (draws : Draws) (email : Bytes) (outbox : List MailMessage)
        → Step db (resend_verification env draws email (record { db = db; outbox = outbox })).1.db
    logs_in :
        (draws : Draws) (email password : Bytes) (client : ClientContext)
        → IsFresh draws.family_id db
        → Step db (login env draws email password client db).1
    refreshes :
        (draws : Draws) (token : Bytes) (client : ClientContext)
        → Step db (refresh env draws token client db).1
    logs_out : (draws : Draws) (token : Bytes) → Step db (logout env draws token db).1
    verifies : (draws : Draws) (token : Bytes) → Step db (verify_email env draws token db).1
    requests_reset :
        (draws : Draws) (email : Bytes) (outbox : List MailMessage)
        → Step db
            (request_password_reset env draws email (record { db = db; outbox = outbox })).1.db
    resets :
        (draws : Draws) (token password : Bytes)
        → Step db (reset_password env draws token password db).1
    changes :
        (draws : Draws) (user_id current password : Bytes) (client : ClientContext)
        → IsFresh draws.family_id db
        → Step db (change_password env draws user_id current password client db).1
    sweeps : (now : ℕ) → Step db (delete_expired now db)

  pub data Reach (start : Db) : Db → Type 0 where
    here : Reach start start
    next : {db after : Db} → Reach start db → Step db after → Reach start after

  send_same :
      (draws : Draws) (user : User) (w : World)
      → (send_verification_link env draws user w).1.db.refresh_tokens ≡ w.db.refresh_tokens
  unfolding send_verification_link issue_user_token
  send_same draws user w = ground arith

  assign_same :
      (user_id : Bytes) (role : String) (db : Db)
      → (Users.assign_role user_id role db).refresh_tokens ≡ db.refresh_tokens
  unfolding Users.assign_role
  assign_same user_id role db = ground arith

  create_same :
      (id email name hash : Bytes) (db : Db)
      → (Users.create id email name hash db).1.refresh_tokens ≡ db.refresh_tokens
  unfolding Users.create
  create_same id email name hash db = ground arith

  register_checked_same :
      (draws : Draws) (email name password : Bytes) (w : World)
      → (register_checked env draws email name password w).1.db.refresh_tokens ≡ w.db.refresh_tokens
  unfolding register_checked
  register_checked_same draws email name password w =
      elim (Result-cases (env.hash_password password)) [
        | inr (e, failed) ↦ rw (failed, register_checked)
        | inl (hash, hashed) ↦
            let created = Users.create draws.row_id email name hash w.db in
            elim (Result-cases created.0) [
              | inr (e, taken) ↦
                  rw (hashed, register_checked)
                    (rw taken (create_same draws.row_id email name hash w.db))
              | inl (user, made) ↦
                  let role = env.settings.default_role in
                  rw (hashed, register_checked)
                    (rw made (
                      send_same draws user
                        (record w { db = Users.assign_role user.id role created.1 })
                      ∙ assign_same user.id role created.1
                      ∙ create_same draws.row_id email name hash w.db))
            ]
      ]

  register_same :
      (draws : Draws) (email password name : Bytes) (w : World)
      → (register_user env draws email password name w).1.db.refresh_tokens ≡ w.db.refresh_tokens
  unfolding register_user
  register_same draws email password name w =
      ground (arith, register_checked_same draws (normalize_email email) (trim name) password w)

  resend_same :
      (draws : Draws) (email : Bytes) (w : World)
      → (resend_verification env draws email w).1.db.refresh_tokens ≡ w.db.refresh_tokens
  unfolding resend_verification invalidate_all
  resend_same draws email w =
      elim (Option-cases (Users.find_by_email w.db (normalize_email email))) [
        | inl lost ↦ rw (lost, resend_verification)
        | inr (user, e) ↦
            rw (e, resend_verification)
              (ground (
                arith,
                send_same draws user
                    (record w { db = invalidate_all draws.now user.id email_verification w.db }),
              ))
      ]

  request_same :
      (draws : Draws) (email : Bytes) (w : World)
      → (request_password_reset env draws email w).1.db.refresh_tokens ≡ w.db.refresh_tokens
  unfolding request_password_reset invalidate_all issue_user_token
  request_same draws email w = ground arith

  verify_same :
      (draws : Draws) (token : Bytes) (db : Db)
      → (verify_email env draws token db).1.refresh_tokens ≡ db.refresh_tokens
  unfolding verify_email consume Users.mark_email_verified
  verify_same draws token db = ground arith

  Step-SingleLive : {db after : Db} → Step db after → SingleLive db → SingleLive after
  unfolding delete_expired
  Step-SingleLive {db} (registers draws email password name outbox) s =
      λ f. rw (register_same draws email password name (record { db = db; outbox = outbox })) (s f)
  Step-SingleLive {db} (resends draws email outbox) s =
      λ f. rw (resend_same draws email (record { db = db; outbox = outbox })) (s f)
  Step-SingleLive {db} (logs_in draws email password client fresh) s =
      login-SingleLive env draws email password client db fresh s
  Step-SingleLive {db} (refreshes draws token client) s =
      refresh-SingleLive env draws token client db s
  Step-SingleLive {db} (logs_out draws token) s = logout-SingleLive env draws token db s
  Step-SingleLive {db} (verifies draws token) s = λ f. rw (verify_same draws token db) (s f)
  Step-SingleLive {db} (requests_reset draws email outbox) s =
      λ f. rw (request_same draws email (record { db = db; outbox = outbox })) (s f)
  Step-SingleLive {db} (resets draws token password) s =
      reset_password-SingleLive env draws token password db s
  Step-SingleLive {db} (changes draws user_id current password client fresh) s =
      change_password-SingleLive env draws user_id current password client db fresh s
  Step-SingleLive {db} (sweeps now) s = λ f.
      omega (arith, count_rows-delete_rows-le (live_in f) (is_expired now) db.refresh_tokens, s f)

  -- From a database in which no family has two live tokens, no history of calls, one after another,
  -- gives a family two live tokens, where each call that opens a family draws an unused id for it.
  pub Reach-SingleLive : {db after : Db} → SingleLive db → Reach db after → SingleLive after
  Reach-SingleLive s here = s
  Reach-SingleLive s (next history step) = Step-SingleLive step (Reach-SingleLive s history)

-- ===== src/Administration/Erasure.antt =====
-- src/services/AccountService.cpp: the erasure of an account by its owner.
use custom_game_launcher_bac.Base.{
  ℕ, ◌++◌, Bool, ◌&&◌, not, [], ◌∷◌, none, some, ltb, ◌==◌, if◌then◌else◌, length, Bytes, codes,
  lit, num, VoidResult, success, failure, broken_rule, unauthenticated, conflict,
}
use custom_game_launcher_bac.Domain.Actor.{Actor, can, admin_users_manage}
use custom_game_launcher_bac.Domain.Validation.{is_uuid, trim}
use custom_game_launcher_bac.Database.{User, NewAuditEntry, Db}
use custom_game_launcher_bac.Database.Users.{find_by_id}
use custom_game_launcher_bac.Database.Accounts
use custom_game_launcher_bac.Database.Accounts.{ErasedIdentity}
use custom_game_launcher_bac.Database.Admin.{count_other_holders_of}
use custom_game_launcher_bac.Auth.{AuthEnv}

abbrev pub max_erasure_reason_length : ℕ
max_erasure_reason_length = 500

abbrev pub erased_display_name : Bytes
erased_display_name = codes "Deleted account"

abbrev pub erased_password_hash : Bytes
erased_password_hash = codes "erased"

unfoldable pub erased_email_for : Bytes → Bytes
erased_email_for user_id = codes "erased+" ++ (user_id ++ codes "@deleted.invalid")

pub record EraseAccountCommand : Type 0 where
  pub password : Bytes
  pub reason : Bytes

abbrev pub no_such_session : VoidResult
no_such_session = failure unauthenticated (lit "this session no longer belongs to an account" ∷ [])

abbrev pub identity_for : User → EraseAccountCommand → ErasedIdentity
identity_for user command = record {
  email = erased_email_for user.id;
  display_name = erased_display_name;
  password_hash = erased_password_hash;
  reason = trim command.reason;
}

abbrev pub erasure_audit : User → NewAuditEntry
erasure_audit user = record {
  actor_user_id = user.id;
  action = "user.erased";
  entity_type = "user";
  entity_id = user.id;
  metadata = [];
}

-- The permission is that of the access token.
unfoldable pub is_last_administrator : Actor → Db → Bool
is_last_administrator actor db =
    can actor admin_users_manage
    && (count_other_holders_of db admin_users_manage actor.user_id == 0)

-- The part behind the check of the password.
unfoldable pub erase_user : ℕ → Actor → User → EraseAccountCommand → Db → VoidResult × Db
unfolding is_last_administrator Accounts.erase
erase_user now actor user command db =
    if is_last_administrator actor db
    then (
      failure conflict (
          lit "this is the only active account that can manage users; grant another one first"
          ∷ []),
      db,
    )
    else let (erased, after) =
        Accounts.erase now user.id (identity_for user command) (erasure_audit user) db in
      (if erased then success else no_such_session, after)

unfoldable pub erase : AuthEnv → ℕ → Actor → EraseAccountCommand → Db → VoidResult × Db
unfolding erase_user
erase env now actor command db =
    if not (is_uuid actor.user_id)
    then (no_such_session, db)
    else if ltb max_erasure_reason_length (length command.reason)
    then (
      broken_rule
          (lit "reason must be at most " ∷ num max_erasure_reason_length ∷ lit " characters" ∷ [])
          "erasure_reason_too_long" (num max_erasure_reason_length ∷ []),
      db,
    )
    else elim (find_by_id db actor.user_id) [
      | none ↦ (no_such_session, db)
      | some user ↦
          if not (env.verify_password command.password user.password_hash)
          then (failure unauthenticated (lit "the password is incorrect" ∷ []), db)
          else erase_user now actor user command db
    ]

-- ===== src/Administration.antt =====
-- src/services/AdminUserService.cpp: the accounts as an operator edits them. The password hasher is
-- a parameter; the temporary password of randomTemporaryPassword and the time are arguments.
pub mod Erasure
pub mod Administrators
pub mod Statements
pub mod Reach
pub mod Erased
pub mod Audited
pub mod Stale
use custom_game_launcher_bac.Base.{
  ℕ, ◌||◌, String, Bool, true, false, not, List, [], ◌∷◌, none, some, ltb, if◌then◌else◌, ℤ, pos,
  ltb_ℤ, Bytes, Part, lit, int, Result, VoidResult, ok, err, success, failure, forbidden, not_found,
  conflict, invalid_input, refuse_if, checked, ◌>>◌, Option,
}
use custom_game_launcher_bac.Domain.Actor.{Actor, can, owns, admin_users_manage, admin_roles_manage}
use custom_game_launcher_bac.Domain.Validation.{is_uuid}
use custom_game_launcher_bac.Database.{NewAuditEntry, Db}
use custom_game_launcher_bac.Database.Admin
use custom_game_launcher_bac.Database.Admin.{
  AdminUserSummary, find_summary, RoleChange, applied, already_in_that_state, no_such_user,
  no_such_role, count_other_holders_of,
}
use custom_game_launcher_bac.Auth.{AuthEnv}

abbrev pub no_such_account {ℓ} : {A : Type ℓ} → Result A
no_such_account = failure not_found (lit "no such account" ∷ [])

unfoldable pub require_user_id : Bytes → VoidResult
require_user_id user_id = if is_uuid user_id then success else no_such_account

unfoldable pub require_permission : Actor → String → VoidResult
require_permission actor permission =
    refuse_if (not (can actor permission)) forbidden
      (lit "you do not have permission to do that" ∷ [])

abbrev pub audit_for : Actor → String → Bytes → List (String × Part) → NewAuditEntry
audit_for actor action user_id metadata = record {
  actor_user_id = actor.user_id;
  action = action;
  entity_type = "user";
  entity_id = user_id;
  metadata = metadata;
}

unfoldable pub refuse_if_last_administrator : Bytes → Db → VoidResult
unfolding count_other_holders_of
refuse_if_last_administrator user_id db =
    refuse_if (not (ltb 0 (count_other_holders_of db admin_users_manage user_id))) conflict
      (lit "this is the only active account that can manage users; grant another one first" ∷ [])

-- `updated.has_value() ? success(*updated) : failure(NotFound, …)`.
abbrev pub found_account {ℓ} : {A : Type ℓ} → Option A → Result A
found_account none = no_such_account
found_account (some a) = ok a

-- roleChangeToResult, and the read that follows it.
unfoldable pub role_change_result : RoleChange → String → VoidResult
role_change_result applied role_key = success
role_change_result already_in_that_state role_key = success
role_change_result no_such_user role_key = no_such_account
role_change_result no_such_role role_key =
    failure invalid_input (lit "no such role: " ∷ lit role_key ∷ [])

unfoldable pub after_role_change : Bytes → String → RoleChange × Db → Result AdminUserSummary × Db
unfolding role_change_result find_summary
after_role_change user_id role_key (change, db) =
    checked (role_change_result change role_key) db (found_account (find_summary db user_id), db)

pub record TemporaryPassword : Type 0 where
  pub user : AdminUserSummary
  pub password : Bytes

unfoldable pub with_password : Bytes → Option AdminUserSummary → Result TemporaryPassword
with_password password none = no_such_account
with_password password (some user) = ok (record { user = user; password = password })

unfoldable pub find : Actor → Bytes → Db → Result AdminUserSummary
unfolding require_permission require_user_id find_summary
find actor user_id db =
    require_permission actor admin_users_manage
    >> require_user_id user_id
    >> found_account (find_summary db user_id)

-- The two tests that deactivation adds.
unfoldable pub check_deactivation : Actor → Bytes → Bool → Db → VoidResult
unfolding refuse_if_last_administrator
check_deactivation actor user_id true db = success
check_deactivation actor user_id false db =
    if owns actor user_id
    then failure invalid_input
        (lit "an operator cannot deactivate their own account; ask another one" ∷ [])
    else refuse_if_last_administrator user_id db

module _ (now : ℕ) (actor : Actor) where
  unfoldable pub set_upload_quota : Bytes → ℤ → Db → Result AdminUserSummary × Db
  unfolding require_permission require_user_id Admin.set_upload_quota
  set_upload_quota user_id quota db = checked (require_permission actor admin_users_manage) db (
      checked (require_user_id user_id) db (
        if ltb_ℤ quota (pos 0)
        then (failure invalid_input (lit "quotaBytes cannot be negative" ∷ []), db)
        else let (updated, after) =
            Admin.set_upload_quota now user_id quota
              (audit_for actor "user.quota.changed" user_id (("quotaBytes", int quota) ∷ [])) db in
          (found_account updated, after)))

  unfoldable pub set_active : Bytes → Bool → Db → Result AdminUserSummary × Db
  unfolding require_permission require_user_id check_deactivation Admin.set_active
  set_active user_id active db = checked (require_permission actor admin_users_manage) db (
      checked (require_user_id user_id) db (
        checked (check_deactivation actor user_id active db) db (
          let (updated, after) =
            Admin.set_active now user_id active
              (audit_for actor (if active then "user.activated" else "user.deactivated") user_id [])
              db in
          (found_account updated, after))))

  unfoldable pub set_temporary_password :
      AuthEnv → Bytes → Bytes → Db → Result TemporaryPassword × Db
  unfolding require_permission require_user_id with_password Admin.set_temporary_password
  set_temporary_password env password user_id db =
      checked (require_permission actor admin_users_manage) db (
        checked (require_user_id user_id) db (
          if owns actor user_id
          then (
            failure invalid_input (
                lit
                  "an operator cannot set a temporary password on their own account; ask another one"
                ∷ []),
            db,
          )
          else elim (env.hash_password password) [
            | err e ↦ (err e, db)
            | ok hash ↦
                let (updated, after) =
                  Admin.set_temporary_password now user_id hash
                    (audit_for actor "user.password.temporary_set" user_id []) db in
                (with_password password updated, after)
          ]))

  unfoldable pub grant_role : Bytes → String → Db → Result AdminUserSummary × Db
  unfolding require_permission require_user_id after_role_change Admin.grant_role
  grant_role user_id role_key db = checked (require_permission actor admin_roles_manage) db (
      checked (require_user_id user_id) db (
        after_role_change user_id role_key (
          Admin.grant_role now user_id role_key
            (audit_for actor "user.role.granted" user_id (("role", lit role_key) ∷ [])) db)))

  unfoldable pub revoke_role : Bytes → String → Db → Result AdminUserSummary × Db
  unfolding require_permission require_user_id refuse_if_last_administrator after_role_change
      Admin.revoke_role
  revoke_role user_id role_key db = checked (require_permission actor admin_roles_manage) db (
      checked (require_user_id user_id) db (
        checked (refuse_if_last_administrator user_id db) db (
          after_role_change user_id role_key (
            Admin.revoke_role now user_id role_key
              (audit_for actor "user.role.revoked" user_id (("role", lit role_key) ∷ [])) db))))

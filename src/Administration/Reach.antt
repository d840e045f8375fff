-- ===== src/Administration/Reach.antt =====
-- Histories of calls of src/services/AdminUserService.cpp and AccountService.cpp, in any order.
use custom_game_launcher_bac.Base.{
  ℕ, ◌≤◌, ◌≡◌, inl, inr, String, Bool, true, false, ◌∷◌, arith, ℤ, Bytes, eq_bytes, eq_bytes_iff,
  Bool-cases, Option-cases, Result-cases, success, int, lit, [], &&-eq-true, count_rows_mono,
  find_row_holds, ap,
}
use custom_game_launcher_bac.Domain.Actor.{Actor, can, admin_users_manage}
use custom_game_launcher_bac.Database.{User, Db}
use custom_game_launcher_bac.Database.Users.{find_by_id, has_id}
use custom_game_launcher_bac.Database.Accounts
use custom_game_launcher_bac.Database.Admin
use custom_game_launcher_bac.Database.Admin.{reaches, count_other_holders_of}
use custom_game_launcher_bac.Auth.{AuthEnv}
use custom_game_launcher_bac.Administration.{
  audit_for, refuse_if_last_administrator, after_role_change, set_upload_quota, set_active,
  check_deactivation, set_temporary_password, grant_role, revoke_role,
}
use custom_game_launcher_bac.Administration.Erasure.{
  EraseAccountCommand, erase, erase_user, is_last_administrator, identity_for, erasure_audit,
}
use custom_game_launcher_bac.Administration.Administrators.{
  administrators, others-le-administrators, set_active-others, revoke_role-others, erase-others,
  others,
}
use custom_game_launcher_bac.Administration.Statements.{
  quota_keeps, activation_keeps, password_keeps, grant_keeps,
}

-- One call. The owner of an account that is erased holds a token issued since the account came to
-- manage users, if it does.
pub data Step (env : AuthEnv) (db : Db) : Db → Type 0 where
  sets_quota :
      (now : ℕ) (actor : Actor) (user_id : Bytes) (quota : ℤ)
      → Step env db (set_upload_quota now actor user_id quota db).1
  sets_active :
      (now : ℕ) (actor : Actor) (user_id : Bytes) (active : Bool)
      → Step env db (set_active now actor user_id active db).1
  sets_temporary_password :
      (now : ℕ) (actor : Actor) (password user_id : Bytes)
      → Step env db (set_temporary_password now actor env password user_id db).1
  grants_role :
      (now : ℕ) (actor : Actor) (user_id : Bytes) (role_key : String)
      → Step env db (grant_role now actor user_id role_key db).1
  revokes_role :
      (now : ℕ) (actor : Actor) (user_id : Bytes) (role_key : String)
      → Step env db (revoke_role now actor user_id role_key db).1
  erases :
      (now : ℕ) (actor : Actor) (command : EraseAccountCommand)
      → (reaches db admin_users_manage actor.user_id ≡ true → can actor admin_users_manage ≡ true)
      → Step env db (erase env now actor command db).1

pub data Reach (env : AuthEnv) (start : Db) : Db → Type 0 where
  here : Reach env start start
  next : {db after : Db} → Reach env start db → Step env db after → Reach env start after

-- A call that is guarded by the count of the other administrators leaves one of them.
guarded_keeps :
    (user_id : Bytes) (db after : Db)
    → refuse_if_last_administrator user_id db ≡ success
    → count_other_holders_of after admin_users_manage user_id
      ≡ count_other_holders_of db admin_users_manage user_id
    → 1 ≤ administrators after
unfolding refuse_if_last_administrator
guarded_keeps user_id db after guard same = ground (arith, others-le-administrators after user_id)

pub after_change_db :
    (user_id : Bytes) (role_key : String) (change : Admin.RoleChange × Db)
    → (after_role_change user_id role_key change).1 ≡ change.1
unfolding after_role_change
after_change_db user_id role_key (change, db) = ground arith

module _ (now : ℕ) (actor : Actor) (user_id : Bytes) (db : Db) (left : 1 ≤ administrators db) where
  set_quota_keeps : (quota : ℤ) → 1 ≤ administrators (set_upload_quota now actor user_id quota db).1
  unfolding set_upload_quota
  set_quota_keeps quota = ground (
    arith,
    quota_keeps now user_id
        (audit_for actor "user.quota.changed" user_id (("quotaBytes", int quota) ∷ [])) db quota,
  )

  set_active_keeps : (active : Bool) → 1 ≤ administrators (set_active now actor user_id active db).1
  unfolding set_active check_deactivation
  set_active_keeps true =
      ground (arith, activation_keeps now user_id (audit_for actor "user.activated" user_id []) db)
  set_active_keeps false = elim (Result-cases (refuse_if_last_administrator user_id db)) [
    | inl (_, guard) ↦ ground (
      arith,
      guarded_keeps user_id db
          (Admin.set_active now user_id false (audit_for actor "user.deactivated" user_id []) db).1
          guard
          (set_active-others now user_id (audit_for actor "user.deactivated" user_id []) db false),
    )
    | inr (e, refused) ↦ ground arith
  ]

  temporary_keeps :
      (env : AuthEnv) (password : Bytes)
      → 1 ≤ administrators (set_temporary_password now actor env password user_id db).1
  unfolding set_temporary_password
  temporary_keeps env password = elim (Result-cases (env.hash_password password)) [
    | inr (e, failed) ↦ ground arith
    | inl (hash, hashed) ↦ ground (
      arith,
      password_keeps now user_id (audit_for actor "user.password.temporary_set" user_id []) db hash,
    )
  ]

  grant_role_keeps :
      (role_key : String) → 1 ≤ administrators (grant_role now actor user_id role_key db).1
  unfolding grant_role
  grant_role_keeps role_key =
      let audit = audit_for actor "user.role.granted" user_id (("role", lit role_key) ∷ []) in
      let step = Admin.grant_role now user_id role_key audit db in
      ground
        (arith, after_change_db user_id role_key step, grant_keeps now user_id audit db role_key)

  revoke_role_keeps :
      (role_key : String) → 1 ≤ administrators (revoke_role now actor user_id role_key db).1
  unfolding revoke_role
  revoke_role_keeps role_key =
      let audit = audit_for actor "user.role.revoked" user_id (("role", lit role_key) ∷ []) in
      let step = Admin.revoke_role now user_id role_key audit db in
      elim (Result-cases (refuse_if_last_administrator user_id db)) [
        | inl (_, guard) ↦ ground (
          arith,
          after_change_db user_id role_key step,
          guarded_keeps user_id db step.1 guard (revoke_role-others now user_id audit db role_key),
        )
        | inr (e, refused) ↦ ground arith
      ]

-- An account that does not reach the permission is none of the administrators.
administrators-le-others :
    (db : Db) (user_id : Bytes)
    → reaches db admin_users_manage user_id ≡ false
    → administrators db ≤ count_other_holders_of db admin_users_manage user_id
unfolding administrators count_other_holders_of
administrators-le-others db user_id outside = count_rows_mono _ _ db.users (λ u h.
    elim (Bool-cases (eq_bytes u.id user_id)) [
      | inl self ↦
          let same : u.id ≡ user_id = (eq_bytes_iff u.id user_id).0 self in
          let reached : reaches db admin_users_manage u.id ≡ true =
            (&&-eq-true u.is_active (reaches db admin_users_manage u.id) h).1 in
          let none_left : reaches db admin_users_manage u.id ≡ false = rw same outside in
          absurd (ground arith)
      | inr apart ↦ ground arith
    ])

module _ (now : ℕ) (actor : Actor) (command : EraseAccountCommand) (db : Db) where
  erase_user_keeps :
      (user : User)
      → user.id ≡ actor.user_id
      → (reaches db admin_users_manage actor.user_id ≡ true → can actor admin_users_manage ≡ true)
      → 1 ≤ administrators db
      → 1 ≤ administrators (erase_user now actor user command db).1
  unfolding erase_user is_last_administrator
  erase_user_keeps user same current left =
      let after =
        (Accounts.erase now user.id (identity_for user command) (erasure_audit user) db).1 in
      let kept : others user.id after ≡ others user.id db =
        erase-others now user.id (erasure_audit user) db (identity_for user command) in
      let most : others user.id after ≤ administrators after =
        others-le-administrators after user.id in
      let seen : others user.id db ≡ others actor.user_id db = ap (λ i. others i db) same in
      elim (Bool-cases (reaches db admin_users_manage actor.user_id)) [
        | inl inside ↦ ground (arith, current inside)
        | inr outside ↦ ground (arith, administrators-le-others db actor.user_id outside)
      ]

  erase_keeps :
      (env : AuthEnv)
      → (reaches db admin_users_manage actor.user_id ≡ true → can actor admin_users_manage ≡ true)
      → 1 ≤ administrators db
      → 1 ≤ administrators (erase env now actor command db).1
  unfolding erase find_by_id
  erase_keeps env current left = elim (Option-cases (find_by_id db actor.user_id)) [
    | inl lost ↦ ground arith
    | inr (user, found) ↦
        let same : user.id ≡ actor.user_id =
          (eq_bytes_iff user.id actor.user_id).0
            (find_row_holds (has_id actor.user_id) db.users user found) in
        ground (arith, erase_user_keeps user same current left)
  ]

Step-keeps :
    {env : AuthEnv} {db after : Db}
    → Step env db after
    → 1 ≤ administrators db
    → 1 ≤ administrators after
Step-keeps {db = db} (sets_quota now actor user_id quota) left =
    set_quota_keeps now actor user_id db left quota
Step-keeps {db = db} (sets_active now actor user_id active) left =
    set_active_keeps now actor user_id db left active
Step-keeps {env} {db} (sets_temporary_password now actor password user_id) left =
    temporary_keeps now actor user_id db left env password
Step-keeps {db = db} (grants_role now actor user_id role_key) left =
    grant_role_keeps now actor user_id db left role_key
Step-keeps {db = db} (revokes_role now actor user_id role_key) left =
    revoke_role_keeps now actor user_id db left role_key
Step-keeps {env} {db} (erases now actor command current) left =
    erase_keeps now actor command db env current left

-- Where an active account can manage users at the start, one can after every history of calls, each
-- run to its end before the next: quotas, activations, deactivations, temporary passwords, grants,
-- revocations, and erasures by owners whose token shows the permission if the account has it.
pub Reach-administrators :
    (env : AuthEnv) {start db : Db}
    → 1 ≤ administrators start
    → Reach env start db
    → 1 ≤ administrators db
Reach-administrators env left here = left
Reach-administrators env left (next history call) =
    Step-keeps call (Reach-administrators env left history)

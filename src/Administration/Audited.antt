-- ===== src/Administration/Audited.antt =====
-- src/services/AdminUserService.cpp: the audit log beside what an operator changes.
use custom_game_launcher_bac.Base.{
  ℕ, ◌≡◌, refl, ◌⊎◌, inl, inr, String, Bool, true, [], ◌∷◌, arith, any, ltb_ℤ, pos, ℤ, Bytes,
  Bool-cases, Option-cases, Result-cases, Result, VoidResult, success, ok, err, checked, lit, int,
  if◌then◌else◌, ap,
}
use custom_game_launcher_bac.Domain.Actor.{Actor, can, admin_users_manage, admin_roles_manage, owns}
use custom_game_launcher_bac.Database.{NewAuditEntry, AuditRow, Db}
use custom_game_launcher_bac.Database.Users.{find_by_id}
use custom_game_launcher_bac.Database.Tokens.{revoke_all_for_user, invalidate_all}
use custom_game_launcher_bac.Database.Accounts.{audit_row, null_if_empty}
use custom_game_launcher_bac.Database.Admin
use custom_game_launcher_bac.Auth.{AuthEnv}
use custom_game_launcher_bac.Administration.{
  require_permission, require_user_id, audit_for, refuse_if_last_administrator, after_role_change,
  set_upload_quota, set_active, check_deactivation, set_temporary_password, grant_role, revoke_role,
}
use custom_game_launcher_bac.Administration.Reach.{after_change_db}

-- The operations that change an account, with what each is given.
pub data Operation : Type 0 where
  quota : ℤ → Operation
  active : Bool → Operation
  temporary_password : Bytes → Operation
  grant revoke : String → Operation

abbrev pub required_permission : Operation → String
required_permission (grant key) = admin_roles_manage
required_permission (revoke key) = admin_roles_manage
required_permission _ = admin_users_manage

unfoldable pub run : AuthEnv → ℕ → Actor → Bytes → Operation → Db → Db
unfolding set_upload_quota set_active set_temporary_password grant_role revoke_role
run env now actor user_id (quota bytes) db = (set_upload_quota now actor user_id bytes db).1
run env now actor user_id (active b) db = (set_active now actor user_id b db).1
run env now actor user_id (temporary_password password) db =
    (set_temporary_password now actor env password user_id db).1
run env now actor user_id (grant key) db = (grant_role now actor user_id key db).1
run env now actor user_id (revoke key) db = (revoke_role now actor user_id key db).1

-- One row is added, that names the operator, the account and the time.
pub record IsLogged (now : ℕ) (actor : Actor) (user_id : Bytes) (db after : Db) : Type 0 where
  pub row : AuditRow
  pub added : after.audit_log ≡ row ∷ db.audit_log
  pub by_actor : row.actor_user_id ≡ null_if_empty actor.user_id
  pub about : row.entity_id ≡ user_id
  pub at_time : row.created_at ≡ now

checked_keeps {ℓ} :
    {A : Type ℓ} (P : Db → Type 0) (check : VoidResult) (db : Db) (rest : Result A × Db)
    → P db
    → (check ≡ success → P rest.1)
    → P (checked check db rest).1
checked_keeps P (err e) db rest same new = same
checked_keeps P (ok tt) db rest same new = new refl

abbrev Logged : ℕ → NewAuditEntry → Db → Db → Type 0
Logged now audit db after = (after ≡ db) ⊎ (after.audit_log ≡ audit_row now audit ∷ db.audit_log)

-- Each statement writes its row where it changes something.
module _ (now : ℕ) (user_id : Bytes) (audit : NewAuditEntry) (db : Db) where
  quota-Logged :
      (bytes : ℤ) → Logged now audit db (Admin.set_upload_quota now user_id bytes audit db).1
  unfolding Admin.set_upload_quota
  quota-Logged bytes = elim (Option-cases (find_by_id db user_id)) [
    | inl lost ↦ inl (rw (lost, Admin.set_upload_quota))
    | inr (u, e) ↦ inr (rw (e, Admin.set_upload_quota))
  ]

  active-Logged : (b : Bool) → Logged now audit db (Admin.set_active now user_id b audit db).1
  unfolding Admin.set_active revoke_all_for_user
  active-Logged b = elim (Option-cases (find_by_id db user_id)) [
    | inl lost ↦ inl (rw (lost, Admin.set_active))
    | inr (u, e) ↦ inr (ground arith)
  ]

  password-Logged :
      (hash : Bytes)
      → Logged now audit db (Admin.set_temporary_password now user_id hash audit db).1
  unfolding Admin.set_temporary_password revoke_all_for_user invalidate_all
  password-Logged hash = elim (Option-cases (find_by_id db user_id)) [
    | inl lost ↦ inl (rw (lost, Admin.set_temporary_password))
    | inr (u, e) ↦ inr (rw (e, Admin.set_temporary_password))
  ]

  grant-Logged : (key : String) → Logged now audit db (Admin.grant_role now user_id key audit db).1
  unfolding Admin.grant_role
  grant-Logged key = elim (Option-cases (find_by_id db user_id)) [
    | inl lost ↦ inl (rw (lost, Admin.grant_role))
    | inr (u, e) ↦ elim (Bool-cases (Admin.role_exists key db)) [
      | inr missing ↦ inl (ground arith)
      | inl there ↦ elim (Bool-cases (any (Admin.is_grant user_id key) db.user_roles)) [
        | inl held ↦ inl (ground arith)
        | inr fresh ↦ inr (ground arith)
      ]
    ]
  ]

  revoke-Logged :
      (key : String) → Logged now audit db (Admin.revoke_role now user_id key audit db).1
  unfolding Admin.revoke_role
  revoke-Logged key = elim (Option-cases (find_by_id db user_id)) [
    | inl lost ↦ inl (rw (lost, Admin.revoke_role))
    | inr (u, e) ↦ elim (Bool-cases (Admin.role_exists key db)) [
      | inr missing ↦ inl (ground arith)
      | inl there ↦ elim (Bool-cases (any (Admin.is_grant user_id key) db.user_roles)) [
        | inl held ↦ inr (ground arith)
        | inr fresh ↦ inl (ground arith)
      ]
    ]
  ]

-- What the theorem says of a call: nothing is changed, or the operator may and the log shows it.
abbrev pub IsAudited : String → ℕ → Actor → Bytes → Db → Db → Type 0
IsAudited permission now actor user_id db after =
    (after ≡ db) ⊎ ((can actor permission ≡ true) × IsLogged now actor user_id db after)

permitted :
    (actor : Actor) (permission : String)
    → require_permission actor permission ≡ success
    → can actor permission ≡ true
unfolding require_permission
permitted actor permission h = ground arith

Logged-IsAudited :
    (permission : String) (now : ℕ) (actor : Actor) (user_id : Bytes) (audit : NewAuditEntry)
    (db after : Db)
    → can actor permission ≡ true
    → audit.actor_user_id ≡ actor.user_id
    → audit.entity_id ≡ user_id
    → Logged now audit db after
    → IsAudited permission now actor user_id db after
Logged-IsAudited permission now actor user_id audit db after may by about (inl same) = inl same
Logged-IsAudited permission now actor user_id audit db after may by about (inr added) = inr (
  may,
  record {
    row = audit_row now audit;
    added = added;
    by_actor = ap null_if_empty by;
    about = about;
    at_time = refl;
  },
)

-- The permission and the shape of the id are tested before anything else.
gated {ℓ} :
    {A : Type ℓ} (permission : String) (now : ℕ) (actor : Actor) (user_id : Bytes) (db : Db)
    (rest : Result A × Db)
    → (can actor permission ≡ true → IsAudited permission now actor user_id db rest.1)
    → IsAudited permission now actor user_id db
        (checked
          (require_permission actor permission)
          db
          (checked (require_user_id user_id) db rest)).1
gated permission now actor user_id db rest h =
    checked_keeps (IsAudited permission now actor user_id db) (require_permission actor permission)
      db _ (inl refl)
      (λ may.
        checked_keeps (IsAudited permission now actor user_id db) (require_user_id user_id) db rest
          (inl refl) (λ shaped. h (permitted actor permission may)))

role_change-IsAudited :
    (now : ℕ) (actor : Actor) (user_id : Bytes) (key : String) (audit : NewAuditEntry) (db : Db)
    (change : Admin.RoleChange × Db)
    → can actor admin_roles_manage ≡ true
    → audit.actor_user_id ≡ actor.user_id
    → audit.entity_id ≡ user_id
    → Logged now audit db change.1
    → IsAudited admin_roles_manage now actor user_id db (after_role_change user_id key change).1
role_change-IsAudited now actor user_id key audit db change may by about logged =
    rw (after_change_db user_id key change)
      (Logged-IsAudited admin_roles_manage now actor user_id audit db change.1 may by about logged)

-- Every operation of an operator on an account either changes nothing at all, or the operator holds
-- the permission that the operation requires and the audit log grows by exactly one row, which names
-- the operator, the account and the time.
pub run-IsAudited :
    (env : AuthEnv) (now : ℕ) (actor : Actor) (user_id : Bytes) (operation : Operation) (db : Db)
    → IsAudited
        (required_permission operation)
        now
        actor
        user_id
        db
        (run env now actor user_id operation db)
unfolding run
run-IsAudited env now actor user_id (quota bytes) db =
    let audit = audit_for actor "user.quota.changed" user_id (("quotaBytes", int bytes) ∷ []) in
    gated admin_users_manage now actor user_id db _ (λ may.
      elim (Bool-cases (ltb_ℤ bytes (pos 0))) [
        | inl negative ↦ rw negative (inl refl)
        | inr fits ↦ rw fits (
            Logged-IsAudited admin_users_manage now actor user_id audit db _ may refl refl
              (quota-Logged now user_id audit db bytes))
      ])
run-IsAudited env now actor user_id (active b) db =
    let action = if b then "user.activated" else "user.deactivated" in
    let audit = audit_for actor action user_id [] in
    gated admin_users_manage now actor user_id db _ (λ may.
      checked_keeps (IsAudited admin_users_manage now actor user_id db)
        (check_deactivation actor user_id b db) db _ (inl refl)
        (λ safe.
          Logged-IsAudited admin_users_manage now actor user_id audit db _ may refl refl
            (active-Logged now user_id audit db b)))
run-IsAudited env now actor user_id (temporary_password password) db =
    let audit = audit_for actor "user.password.temporary_set" user_id [] in
    gated admin_users_manage now actor user_id db _ (λ may. elim (Bool-cases (owns actor user_id)) [
      | inl own ↦ rw own (inl refl)
      | inr other ↦ rw other (elim (Result-cases (env.hash_password password)) [
        | inr (e, failed) ↦ rw failed (inl refl)
        | inl (hash, hashed) ↦ rw hashed (
            Logged-IsAudited admin_users_manage now actor user_id audit db _ may refl refl
              (password-Logged now user_id audit db hash))
      ])
    ])
run-IsAudited env now actor user_id (grant key) db =
    let audit = audit_for actor "user.role.granted" user_id (("role", lit key) ∷ []) in
    gated admin_roles_manage now actor user_id db _ (λ may.
      role_change-IsAudited now actor user_id key audit db _ may refl refl
        (grant-Logged now user_id audit db key))
run-IsAudited env now actor user_id (revoke key) db =
    let audit = audit_for actor "user.role.revoked" user_id (("role", lit key) ∷ []) in
    gated admin_roles_manage now actor user_id db _ (λ may.
      checked_keeps (IsAudited admin_roles_manage now actor user_id db)
        (refuse_if_last_administrator user_id db) db _ (inl refl)
        (λ safe.
          role_change-IsAudited now actor user_id key audit db _ may refl refl
            (revoke-Logged now user_id audit db key)))

-- ===== src/Administration/Statements.antt =====
-- src/repositories/postgres/PgAdminRepositories.cpp: the statements that take nothing from an
-- administrator.
use custom_game_launcher_bac.Base.{
  ℕ, ◌≤◌, inl, inr, String, true, ◌∷◌, arith, ℤ, Bytes, Option-cases, count_rows_mono,
  count_rows-le-update_rows,
}
use custom_game_launcher_bac.Domain.Actor.{admin_users_manage}
use custom_game_launcher_bac.Database.{NewAuditEntry, Db}
use custom_game_launcher_bac.Database.Users.{find_by_id, has_id}
use custom_game_launcher_bac.Database.Tokens.{revoke_all_for_user, invalidate_all}
use custom_game_launcher_bac.Database.Admin
use custom_game_launcher_bac.Database.Admin.{reaches, count_other_holders_of}
use custom_game_launcher_bac.Administration.Administrators.{administrators, granted_keeps}

module _ (now : ℕ) (user_id : Bytes) (audit : NewAuditEntry) (db : Db) where
  pub quota_keeps :
      (quota : ℤ)
      → administrators db ≤ administrators (Admin.set_upload_quota now user_id quota audit db).1
  unfolding administrators Admin.set_upload_quota
  quota_keeps quota = elim (Option-cases (find_by_id db user_id)) [
    | inl lost ↦ rw (lost, Admin.set_upload_quota) (omega arith)
    | inr (u, e) ↦
        rw (e, Admin.set_upload_quota)
          (count_rows-le-update_rows _ (has_id user_id) (Admin.set_quota quota) db.users (λ u h. h))
  ]

  pub activation_keeps :
      administrators db ≤ administrators (Admin.set_active now user_id true audit db).1
  unfolding administrators Admin.set_active
  activation_keeps = elim (Option-cases (find_by_id db user_id)) [
    | inl lost ↦ rw (lost, Admin.set_active) (omega arith)
    | inr (u, e) ↦
        rw (e, Admin.set_active)
          (count_rows-le-update_rows _ (has_id user_id) (Admin.activate true) db.users
            (λ u h. ground arith))
  ]

  pub password_keeps :
      (hash : Bytes)
      → administrators db
        ≤ administrators (Admin.set_temporary_password now user_id hash audit db).1
  unfolding administrators Admin.set_temporary_password revoke_all_for_user invalidate_all
  password_keeps hash = elim (Option-cases (find_by_id db user_id)) [
    | inl lost ↦ rw (lost, Admin.set_temporary_password) (omega arith)
    | inr (u, e) ↦
        rw (e, Admin.set_temporary_password)
          (count_rows-le-update_rows _ (has_id user_id) (Admin.give_password hash) db.users
            (λ u h. h))
  ]

  pub grant_keeps :
      (role_key : String)
      → administrators db ≤ administrators (Admin.grant_role now user_id role_key audit db).1
  unfolding administrators Admin.grant_role
  grant_keeps role_key =
      let kept : administrators db
          ≤ administrators (record db { user_roles = (user_id, role_key) ∷ db.user_roles }) =
        count_rows_mono _ _ db.users
          (λ u h. ground (arith, granted_keeps db user_id role_key admin_users_manage u.id)) in
      elim (Option-cases (find_by_id db user_id)) [
        | inl lost ↦ rw (lost, Admin.grant_role) (omega arith)
        | inr (u, e) ↦ rw (e, Admin.grant_role) (ground arith)
      ]

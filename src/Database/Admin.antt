-- ===== src/Database/Admin.antt =====
-- src/repositories/postgres/PgAdminRepositories.cpp: the statements on accounts that an operator runs.
-- Each writes its audit row where its change took effect. `created_at` of an account is not modelled.
use text.Mathlib.Text.{◌==◌ as eq_text}
use custom_game_launcher_bac.Base.{
  ℕ, String, Bool, true, ◌&&◌, not, List, [], ◌∷◌, ◌++◌, map, none, some, Option, any, is_empty,
  if◌then◌else◌, ℤ, Bytes, codes, eq_bytes, sort_by, count_rows, delete_rows, select_rows,
}
use custom_game_launcher_bac.Domain.Manifest.{split}
use custom_game_launcher_bac.Database.{User, password_reset, NewAuditEntry, Db}
use custom_game_launcher_bac.Database.Users.{find_by_id, update_user, permissions_of_roles}
use custom_game_launcher_bac.Database.Tokens.{revoke_all_for_user, invalidate_all}
use custom_game_launcher_bac.Database.Accounts.{append_audit}

-- string_agg(r.key, ',' ORDER BY r.key).
unfoldable pub keys_of : List (Bytes × String) → Bytes → List String
keys_of [] user_id = []
keys_of ((id, key) ∷ rest) user_id =
    (if eq_bytes id user_id then key ∷ [] else []) ++ keys_of rest user_id

unfoldable pub join : ℕ → List Bytes → Bytes
join separator [] = []
join separator (x ∷ []) = x
join separator (x ∷ y ∷ ys) = x ++ separator ∷ join separator (y ∷ ys)

unfoldable pub role_keys : Db → Bytes → Bytes
unfolding keys_of join
role_keys db user_id = join b',' (map codes (sort_by codes (keys_of db.user_roles user_id)))

-- The loop over std::getline, which drops the empty pieces.
unfoldable pub split_roles : Bytes → List Bytes
split_roles packed = select_rows (λ role. not (is_empty role)) (split b',' packed)

pub record AdminUserSummary : Type 0 where
  pub user : User
  pub roles : List Bytes

-- The password hash is not selected.
unfoldable pub summary_of : Db → User → AdminUserSummary
unfolding role_keys split_roles
summary_of db u = record {
  user = record u { password_hash = [] };
  roles = split_roles (role_keys db u.id);
}

unfoldable pub find_summary : Db → Bytes → Option AdminUserSummary
unfolding summary_of
find_summary db user_id = elim (find_by_id db user_id) [
  | none ↦ none
  | some u ↦ some (summary_of db u)
]

abbrev pub set_quota : ℤ → User → User
set_quota quota u = record u { upload_quota_bytes = quota }

unfoldable pub set_upload_quota : ℕ → Bytes → ℤ → NewAuditEntry → Db → Option AdminUserSummary × Db
unfolding summary_of
set_upload_quota now user_id quota audit db = elim (find_by_id db user_id) [
  | none ↦ (none, db)
  | some u ↦ (
    some (summary_of db (set_quota quota u)),
    append_audit now audit (update_user user_id (set_quota quota) db),
  )
]

abbrev pub activate : Bool → User → User
activate active u = record u { is_active = active }

unfoldable pub set_active : ℕ → Bytes → Bool → NewAuditEntry → Db → Option AdminUserSummary × Db
unfolding summary_of revoke_all_for_user
set_active now user_id active audit db = elim (find_by_id db user_id) [
  | none ↦ (none, db)
  | some u ↦ (
    some (summary_of db (activate active u)),
    append_audit now audit (
        update_user user_id (activate active)
          (if active then db else revoke_all_for_user now user_id db)),
  )
]

abbrev pub give_password : Bytes → User → User
give_password hash u = record u { password_hash = hash; password_change_required = true }

unfoldable pub set_temporary_password :
    ℕ → Bytes → Bytes → NewAuditEntry → Db → Option AdminUserSummary × Db
unfolding summary_of revoke_all_for_user invalidate_all
set_temporary_password now user_id hash audit db = elim (find_by_id db user_id) [
  | none ↦ (none, db)
  | some u ↦ (
    some (summary_of db (give_password hash u)),
    append_audit now audit (
        update_user user_id (give_password hash)
          (revoke_all_for_user now user_id (invalidate_all now user_id password_reset db))),
  )
]

pub data RoleChange : Type 0 where
  applied already_in_that_state no_such_user no_such_role : RoleChange

abbrev pub role_exists : String → Db → Bool
role_exists role_key db = any (λ ((key, _) : String × List String). eq_text key role_key) db.roles

abbrev pub is_grant : Bytes → String → Bytes × String → Bool
is_grant user_id role_key (id, key) = eq_bytes id user_id && eq_text key role_key

unfoldable pub grant_role : ℕ → Bytes → String → NewAuditEntry → Db → RoleChange × Db
grant_role now user_id role_key audit db = elim (find_by_id db user_id) [
  | none ↦ (no_such_user, db)
  | some u ↦
      if not (role_exists role_key db)
      then (no_such_role, db)
      else if any (is_grant user_id role_key) db.user_roles
      then (already_in_that_state, db)
      else (
        applied,
        append_audit now audit (record db { user_roles = (user_id, role_key) ∷ db.user_roles }),
      )
]

unfoldable pub revoke_role : ℕ → Bytes → String → NewAuditEntry → Db → RoleChange × Db
revoke_role now user_id role_key audit db = elim (find_by_id db user_id) [
  | none ↦ (no_such_user, db)
  | some u ↦
      if not (role_exists role_key db)
      then (no_such_role, db)
      else if any (is_grant user_id role_key) db.user_roles
      then (
        applied,
        append_audit now audit
            (record db { user_roles = delete_rows (is_grant user_id role_key) db.user_roles }),
      )
      else (already_in_that_state, db)
]

-- The account reaches the permission through some role.
unfoldable pub reaches : Db → String → Bytes → Bool
unfolding permissions_of_roles
reaches db permission_key user_id =
    any (λ p. eq_text p permission_key) (permissions_of_roles db.user_roles db.roles user_id)

-- The ids of users are a primary key: an account is counted once.
unfoldable pub count_other_holders_of : Db → String → Bytes → ℕ
unfolding reaches
count_other_holders_of db permission_key excluding_user_id =
    count_rows
      (λ (u : User).
        u.is_active && (not (eq_bytes u.id excluding_user_id) && reaches db permission_key u.id))
      db.users

-- ===== src/Database/Users.antt =====
-- src/repositories/postgres/PgRepositories.cpp: users, roles and permissions.
use text.Mathlib.Text.{◌==◌ as eq_text}
use custom_game_launcher_bac.Base.{
  ℕ, String, Bool, true, false, ◌&&◌, not, List, [], ◌∷◌, ◌++◌, map, Option, none, some, ltb_ℤ,
  if◌then◌else◌, any, is_some, ℤ, pos, ◌+ℤ◌, ◌-ℤ◌, Bytes, codes, eq_bytes, sort_by, Result, ok,
  failure, conflict, lit, find_row, update_rows,
}
use custom_game_launcher_bac.Domain.Validation.{to_lower}
use custom_game_launcher_bac.Database.{User, Db}

-- citext compares case-insensitively.
unfoldable pub eq_citext : Bytes → Bytes → Bool
unfolding to_lower
eq_citext a b = eq_bytes (map to_lower a) (map to_lower b)

abbrev pub has_id : Bytes → User → Bool
has_id id u = eq_bytes u.id id

unfoldable pub find_by_id : Db → Bytes → Option User
find_by_id db id = find_row (has_id id) db.users

unfoldable pub find_by_email : Db → Bytes → Option User
find_by_email db email = find_row (λ u. eq_citext u.email email) db.users

-- The row that the INSERT makes, with the defaults of the table.
unfoldable pub new_user : Bytes → Bytes → Bytes → Bytes → User
new_user id email display_name password_hash = record {
  id = id;
  email = email;
  display_name = display_name;
  password_hash = password_hash;
  email_verified = false;
  is_active = true;
  password_change_required = false;
  upload_quota_bytes = pos 5368709120;
  upload_used_bytes = pos 0;
  last_login_at = none;
}

-- INSERT … ON CONFLICT (email) DO NOTHING. `id` is the gen_random_uuid() of the row.
unfoldable pub create : Bytes → Bytes → Bytes → Bytes → Db → Result User × Db
unfolding find_by_email new_user
create id email display_name password_hash db = elim (find_by_email db email) [
  | some taken ↦ (failure conflict (lit "that email address is already registered" ∷ []), db)
  | none ↦
      let user = new_user id email display_name password_hash in
      (ok user, record db { users = user ∷ db.users })
]

abbrev pub update_user : Bytes → (User → User) → Db → Db
update_user id f db = record db { users = update_rows (has_id id) f db.users }

unfoldable pub mark_email_verified : Bytes → Db → Db
mark_email_verified user_id = update_user user_id (λ u. record u { email_verified = true })

unfoldable pub update_password_hash : Bytes → Bytes → Db → Db
update_password_hash user_id password_hash =
    update_user user_id
      (λ u. record u { password_hash = password_hash; password_change_required = false })

unfoldable pub rehash_password : Bytes → Bytes → Db → Db
rehash_password user_id password_hash =
    update_user user_id (λ u. record u { password_hash = password_hash })

unfoldable pub record_successful_login : ℕ → Bytes → Db → Db
record_successful_login now user_id =
    update_user user_id (λ u. record u { last_login_at = some now })

-- upload_used_bytes + $2 <= upload_quota_bytes.
abbrev pub has_room : ℤ → User → Bool
has_room bytes u = not (ltb_ℤ u.upload_quota_bytes (u.upload_used_bytes +ℤ bytes))

abbrev pub charge : ℤ → User → User
charge bytes u = record u { upload_used_bytes = u.upload_used_bytes +ℤ bytes }

-- GREATEST(0, upload_used_bytes - $2).
abbrev pub release : ℤ → User → User
release bytes u = record u {
  upload_used_bytes =
      if ltb_ℤ (u.upload_used_bytes -ℤ bytes) (pos 0) then pos 0 else u.upload_used_bytes -ℤ bytes;
}

-- The id and the quota test stand in one WHERE clause; the answer is whether it matched a row.
unfoldable pub charge_upload : Bytes → ℤ → Db → Bool × Db
charge_upload user_id bytes db =
    let may_charge = λ (u : User). has_id user_id u && has_room bytes u in
    (
      is_some (find_row may_charge db.users),
      record db { users = update_rows may_charge (charge bytes) db.users },
    )

unfoldable pub release_upload : Bytes → ℤ → Db → Db
release_upload user_id bytes = update_user user_id (release bytes)

unfoldable pub role_permissions : List (String × List String) → String → List String
role_permissions [] key = []
role_permissions ((k, permissions) ∷ rest) key =
    if eq_text k key then permissions else role_permissions rest key

-- The permissions of the roles of a user: DISTINCT, ORDER BY key.
unfoldable pub permissions_of_roles :
    List (Bytes × String) → List (String × List String) → Bytes → List String
unfolding role_permissions
permissions_of_roles [] roles user_id = []
permissions_of_roles ((id, key) ∷ rest) roles user_id =
    (if eq_bytes id user_id then role_permissions roles key else [])
    ++ permissions_of_roles rest roles user_id

unfoldable pub distinct : List String → List String
distinct [] = []
distinct (p ∷ ps) = let rest = distinct ps in if any (λ q. eq_text q p) ps then rest else p ∷ rest

unfoldable pub permissions_for_user : Db → Bytes → List String
unfolding permissions_of_roles distinct
permissions_for_user db user_id =
    sort_by codes (distinct (permissions_of_roles db.user_roles db.roles user_id))

-- The grant is a no-op where the role does not exist or is held already.
unfoldable pub assign_role : Bytes → String → Db → Db
assign_role user_id role_key db =
    if any (λ ((key, _) : String × List String). eq_text key role_key) db.roles
      && not (
          any (λ ((id, key) : Bytes × String). eq_bytes id user_id && eq_text key role_key)
            db.user_roles)
    then record db { user_roles = (user_id, role_key) ∷ db.user_roles }
    else db

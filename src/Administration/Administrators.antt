-- ===== src/Administration/Administrators.antt =====
-- src/services/AdminUserService.cpp and AccountService.cpp: who is left to manage users after a call.
use text.Mathlib.Text.{◌==◌ as eq_text}
use custom_game_launcher_bac.Base.{
  ℕ, ◌≤◌, ◌≡◌, refl, inl, inr, String, Bool, true, false, ◌&&◌, not, List, [], ◌∷◌, ◌++◌, arith,
  any, Bytes, eq_bytes, eq_bytes_iff, Bool-cases, Option-cases, count_rows, delete_rows,
  count_rows_mono, count_rows-update_rows-same, count_rows-eq_of_same, if◌then◌else◌, ap, find_row,
  update_rows, &&-eq-true,
}
use custom_game_launcher_bac.Domain.Actor.{admin_users_manage}
use custom_game_launcher_bac.Database.{User, NewAuditEntry, Db}
use custom_game_launcher_bac.Database.Users.{
  permissions_of_roles, role_permissions, find_by_id, update_user,
}
use custom_game_launcher_bac.Database.Tokens.{revoke_all_for_user}
use custom_game_launcher_bac.Database.Accounts.{ErasedIdentity, append_audit}
use custom_game_launcher_bac.Database.Accounts
use custom_game_launcher_bac.Database.Admin
use custom_game_launcher_bac.Database.Admin.{reaches, count_other_holders_of, is_grant}

-- The active accounts that can manage users.
unfoldable pub administrators : Db → ℕ
unfolding reaches
administrators db =
    count_rows (λ (u : User). u.is_active && reaches db admin_users_manage u.id) db.users

pub others-le-administrators :
    (db : Db) (user_id : Bytes)
    → count_other_holders_of db admin_users_manage user_id ≤ administrators db
unfolding count_other_holders_of administrators
others-le-administrators db user_id = count_rows_mono _ _ db.users (λ u h. ground arith)

any-append {ℓ} :
    {A : Type ℓ} (p : A → Bool) (xs ys : List A) → any p ys ≡ true → any p (xs ++ ys) ≡ true
any-append p [] ys h = h
any-append p (x ∷ xs) ys h = ground (arith, any-append p xs ys h)

-- A role that is taken from one account leaves the permissions of the others.
revoked_other :
    (grants : List (Bytes × String)) (roles : List (String × List String)) (user_id : Bytes)
    (role_key : String) (other : Bytes)
    → eq_bytes other user_id ≡ false
    → permissions_of_roles (delete_rows (is_grant user_id role_key) grants) roles other
      ≡ permissions_of_roles grants roles other
unfolding permissions_of_roles delete_rows
revoked_other [] roles user_id role_key other h = refl
revoked_other ((id, key) ∷ grants) roles user_id role_key other h =
    elim (Bool-cases (is_grant user_id role_key (id, key))) [
      | inl hit ↦
          let apart : eq_bytes id other ≡ false =
            ground (arith, eq_bytes_iff id user_id, eq_bytes_iff id other) in
          rw (hit, delete_rows)
            (rw (apart, permissions_of_roles) (revoked_other grants roles user_id role_key other h))
      | inr miss ↦
          rw (miss, delete_rows)
            (ap (λ ps. (if eq_bytes id other then role_permissions roles key else []) ++ ps)
              (revoked_other grants roles user_id role_key other h))
    ]

pub granted_keeps :
    (db : Db) (user_id : Bytes) (role_key : String) (p : String) (id : Bytes)
    → reaches db p id ≡ true
    → reaches (record db { user_roles = (user_id, role_key) ∷ db.user_roles }) p id ≡ true
unfolding reaches
granted_keeps db user_id role_key p id h =
    any-append (λ q. eq_text q p)
      (if eq_bytes user_id id then role_permissions db.roles role_key else [])
      (permissions_of_roles db.user_roles db.roles id) h

-- The condition of countOtherHoldersOf on a row of users.
abbrev pub is_other : List (Bytes × String) → List (String × List String) → Bytes → User → Bool
is_other grants roles user_id u =
    u.is_active
    && (not (eq_bytes u.id user_id)
        && any (λ p. eq_text p admin_users_manage) (permissions_of_roles grants roles u.id))

updated_others :
    (grants : List (Bytes × String)) (roles : List (String × List String)) (user_id : Bytes)
    (p : User → Bool) (f : User → User) (users : List User)
    → ((u : User) → p u ≡ true → eq_bytes u.id user_id ≡ true)
    → ((u : User) → (f u).id ≡ u.id)
    → count_rows (is_other grants roles user_id) (update_rows p f users)
      ≡ count_rows (is_other grants roles user_id) users
updated_others grants roles user_id p f users h same =
    count_rows-update_rows-same _ p f users (λ u hit. ground (arith, h u, same u))

abbrev pub others : Bytes → Db → ℕ
others user_id db = count_other_holders_of db admin_users_manage user_id

-- The statements leave the other holders as they are.
module _ (now : ℕ) (user_id : Bytes) (audit : NewAuditEntry) (db : Db) where
  pub set_active-others :
      (active : Bool)
      → others user_id (Admin.set_active now user_id active audit db).1 ≡ others user_id db
  unfolding count_other_holders_of reaches Admin.set_active revoke_all_for_user
  set_active-others active = elim (Option-cases (find_by_id db user_id)) [
    | inl lost ↦ rw (lost, Admin.set_active)
    | inr (u, e) ↦ rw (e, Admin.set_active) (changed active)
  ]
    where
      changed :
          (b : Bool)
          → others user_id (
              append_audit now audit (
                update_user user_id
                  (Admin.activate b)
                  (if b then db else revoke_all_for_user now user_id db)))
            ≡ others user_id db
      changed true =
          updated_others db.user_roles db.roles user_id _ (Admin.activate true) db.users (λ u h. h)
            (λ u. refl)
      changed false =
          updated_others db.user_roles db.roles user_id _ (Admin.activate false) db.users (λ u h. h)
            (λ u. refl)

  pub revoke_role-others :
      (role_key : String)
      → others user_id (Admin.revoke_role now user_id role_key audit db).1 ≡ others user_id db
  unfolding count_other_holders_of reaches Admin.revoke_role
  revoke_role-others role_key = elim (Option-cases (find_by_id db user_id)) [
    | inl lost ↦ rw (lost, Admin.revoke_role)
    | inr (u, e) ↦
        rw (e, Admin.revoke_role)
          (ground (
            arith,
            count_rows-eq_of_same
                (is_other (delete_rows (is_grant user_id role_key) db.user_roles) db.roles user_id)
                (is_other db.user_roles db.roles user_id) db.users same,
          ))
  ]
    where
      same :
          (u : User)
          → is_other (delete_rows (is_grant user_id role_key) db.user_roles) db.roles user_id u
            ≡ is_other db.user_roles db.roles user_id u
      same u = elim (Bool-cases (eq_bytes u.id user_id)) [
        | inl self ↦ ground arith
        | inr apart ↦ rw (revoked_other db.user_roles db.roles user_id role_key u.id apart) refl
      ]

  pub erase-others :
      (identity : ErasedIdentity)
      → others user_id (Accounts.erase now user_id identity audit db).1 ≡ others user_id db
  unfolding count_other_holders_of reaches Accounts.erase
  erase-others identity =
      elim (Option-cases (find_row (Accounts.is_erasable user_id identity) db.users)) [
        | inl lost ↦ rw (lost, Accounts.erase)
        | inr (u, e) ↦
            rw (e, Accounts.erase)
              (updated_others db.user_roles db.roles user_id (Accounts.is_erasable user_id identity)
                (Accounts.anonymise identity) db.users (λ u h. (&&-eq-true _ _ h).0) (λ u. refl))
      ]

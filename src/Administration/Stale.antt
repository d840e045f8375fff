-- ===== src/Administration/Stale.antt =====
-- src/services/AccountService.cpp: an erasure with an access token that is older than the roles of its
-- account.
use native.Mathlib.Nat.{le_trans}
use custom_game_launcher_bac.Base.{
  eq_bytes_refl, ◌&&◌, find_row_narrow, find_row-count_rows-pos, List, String, [], ◌∷◌, lit,
  failure, conflict, VoidResult, length, some, ltb, ℕ, ◌≤◌, ◌≡◌, refl, inl, inr, true, false, arith,
  Bytes, eq_bytes_iff, Option-cases, success, find_row, find_row_holds, count_rows, count_rows_mono,
  count_rows-update_rows_unique, subst, sym, &&-eq-true,
}
use custom_game_launcher_bac.Domain.Actor.{Actor, can, admin_users_manage}
use custom_game_launcher_bac.Domain.Validation.{is_uuid}
use custom_game_launcher_bac.Database.{User, NewAuditEntry, Db}
use custom_game_launcher_bac.Database.Users.{find_by_id, has_id, eq_citext}
use custom_game_launcher_bac.Database.Accounts
use custom_game_launcher_bac.Database.Accounts.{ErasedIdentity, is_erasable, anonymise}
use custom_game_launcher_bac.Database.Admin.{reaches, count_other_holders_of}
use custom_game_launcher_bac.Auth.{AuthEnv}
use custom_game_launcher_bac.Administration.Erasure.{
  EraseAccountCommand, erase, erase_user, is_last_administrator, identity_for, erasure_audit,
  max_erasure_reason_length, erased_email_for,
}
use custom_game_launcher_bac.Administration.Administrators.{administrators, others}

module _ (now : ℕ) (user_id : Bytes) (identity : ErasedIdentity) (audit : NewAuditEntry)
    (db : Db) where
  -- Who is left are the others, where ids are unique.
  erase_leaves :
      count_rows (has_id user_id) db.users ≤ 1
      → (Accounts.erase now user_id identity audit db).0 ≡ true
      → administrators (Accounts.erase now user_id identity audit db).1 ≤ others user_id db
  unfolding administrators count_other_holders_of reaches Accounts.erase
  erase_leaves unique done =
      elim (Option-cases (find_row (is_erasable user_id identity) db.users)) [
        | inl lost ↦ ground arith
        | inr (u, found) ↦
            rw (found, Accounts.erase)
              (le_trans
                (count_rows-update_rows_unique _ (is_erasable user_id identity) (has_id user_id)
                  (anonymise identity) db.users u (λ y h. (&&-eq-true _ _ h).0) (λ y. refl) unique
                  found)
                (count_rows_mono _ _ db.users (λ y h. ground arith)))
      ]

erase_user_stale :
    (now : ℕ) (actor : Actor) (user : User) (command : EraseAccountCommand) (db : Db)
    → can actor admin_users_manage ≡ false
    → count_rows (has_id user.id) db.users ≤ 1
    → (erase_user now actor user command db).0 ≡ success
    → administrators (erase_user now actor user command db).1 ≤ others user.id db
unfolding erase_user is_last_administrator
erase_user_stale now actor user command db stale unique done =
    ground
      (arith, erase_leaves now user.id (identity_for user command) (erasure_audit user) db unique)

nobody_left :
    (env : AuthEnv) (now : ℕ) (actor : Actor) (command : EraseAccountCommand) (db : Db)
    → can actor admin_users_manage ≡ false
    → count_rows (has_id actor.user_id) db.users ≤ 1
    → others actor.user_id db ≡ 0
    → (erase env now actor command db).0 ≡ success
    → administrators (erase env now actor command db).1 ≡ 0
unfolding erase find_by_id
nobody_left env now actor command db stale unique last done =
    elim (Option-cases (find_by_id db actor.user_id)) [
      | inl lost ↦ ground arith
      | inr (user, found) ↦
          let same : user.id ≡ actor.user_id =
            (eq_bytes_iff user.id actor.user_id).0
              (find_row_holds (has_id actor.user_id) db.users user found) in
          let one : count_rows (has_id user.id) db.users ≤ 1 =
            subst (λ i. count_rows (has_id i) db.users ≤ 1) (sym same) unique in
          let alone : others user.id db ≡ 0 = subst (λ i. others i db ≡ 0) (sym same) last in
          ground (arith, erase_user_stale now actor user command db stale one)
    ]

abbrev pub holder : Bytes → List String → Actor
holder user_id permissions = record { user_id = user_id; permissions = permissions }

-- The answer to the last account that can manage users.
abbrev pub last_one_stays : VoidResult
last_one_stays =
    failure conflict
      (lit "this is the only active account that can manage users; grant another one first" ∷ [])

-- An owner who passes the checks of an erasure that do not read the permission.
pub record MayLeave (env : AuthEnv) (user_id : Bytes) (command : EraseAccountCommand) (db : Db)
    (user : User) : Type 0 where
  pub uuid : is_uuid user_id ≡ true
  pub short : ltb max_erasure_reason_length (length command.reason) ≡ false
  pub found : find_by_id db user_id ≡ some user
  pub verified : env.verify_password command.password user.password_hash ≡ true
  pub unerased : eq_citext user.email (erased_email_for user.id) ≡ false

-- The active account that holds the permission, where no other does.
pub record IsLast (user_id : Bytes) (db : Db) (user : User) : Type 0 where
  pub active : user.is_active ≡ true
  pub holds : reaches db admin_users_manage user_id ≡ true
  pub alone : others user_id db ≡ 0
  pub unique : count_rows (has_id user_id) db.users ≤ 1

module _ (env : AuthEnv) (now : ℕ) (user_id : Bytes) (command : EraseAccountCommand) (db : Db)
    (user : User) (may : MayLeave env user_id command db user) where
  checks_passed :
      (permissions : List String)
      → erase env now (holder user_id permissions) command db
        ≡ erase_user now (holder user_id permissions) user command db
  unfolding erase
  checks_passed permissions = rw (may.uuid, may.short, erase) (rw may.found (rw may.verified refl))

  -- The row that the statement changes.
  erasable_found : find_row (is_erasable user.id (identity_for user command)) db.users ≡ some user
  unfolding find_by_id
  erasable_found =
      let same =
        (eq_bytes_iff user.id user_id).0
          (find_row_holds (has_id user_id) db.users user may.found) in
      let found : find_row (has_id user.id) db.users ≡ some user =
        subst (λ i. find_row (has_id i) db.users ≡ some user) (sym same) may.found in
      find_row_narrow (has_id user.id) (is_erasable user.id (identity_for user command)) db.users
        user (λ y h. (&&-eq-true _ _ h).0) (rw (eq_bytes_refl user.id, may.unerased) refl) found

  stale_succeeds :
      (permissions : List String)
      → can (holder user_id permissions) admin_users_manage ≡ false
      → (erase env now (holder user_id permissions) command db).0 ≡ success
  unfolding erase_user is_last_administrator Accounts.erase
  stale_succeeds permissions stale =
      rw (checks_passed permissions)
        (rw (stale, erase_user) (rw (erasable_found, Accounts.erase) refl))

  last_administers : IsLast user_id db user → 1 ≤ administrators db
  unfolding administrators find_by_id
  last_administers last =
      let here : has_id user_id user ≡ true =
        find_row_holds (has_id user_id) db.users user may.found in
      let same = (eq_bytes_iff user.id user_id).0 here in
      let holds : reaches db admin_users_manage user.id ≡ true =
        subst (λ i. reaches db admin_users_manage i ≡ true) (sym same) last.holds in
      let meets : (has_id user_id user && (user.is_active && reaches db admin_users_manage user.id))
          ≡ true =
        rw (here, last.active, holds) refl in
      let found =
        find_row_narrow (has_id user_id)
          (λ (u : User). has_id user_id u && (u.is_active && reaches db admin_users_manage u.id))
          db.users user (λ y h. (&&-eq-true _ _ h).0) meets may.found in
      find_row-count_rows-pos _ _ db.users user (λ y h. (&&-eq-true _ _ h).1) found

  fresh_refused :
      (permissions : List String)
      → can (holder user_id permissions) admin_users_manage ≡ true
      → others user_id db ≡ 0
      → erase env now (holder user_id permissions) command db ≡ (last_one_stays, db)
  unfolding erase_user is_last_administrator
  fresh_refused permissions fresh alone =
      rw (checks_passed permissions) (rw (fresh, alone, erase_user) refl)

-- The last active account that can manage users erases itself with a right password, and ids are
-- unique. With a token that shows the permission it is refused, and nothing changes. With one that does
-- not, such as one issued before the account was granted it, it succeeds: somebody could manage users
-- before, and nobody can afterwards.
pub erase_stale :
    (env : AuthEnv) (now : ℕ) (user_id : Bytes) (stale fresh : List String)
    (command : EraseAccountCommand) (db : Db) (user : User)
    → MayLeave env user_id command db user
    → IsLast user_id db user
    → can (holder user_id stale) admin_users_manage ≡ false
    → can (holder user_id fresh) admin_users_manage ≡ true
    → (erase env now (holder user_id fresh) command db ≡ (last_one_stays, db))
      × (1 ≤ administrators db)
      × ((erase env now (holder user_id stale) command db).0 ≡ success)
      × (administrators (erase env now (holder user_id stale) command db).1 ≡ 0)
erase_stale env now user_id stale fresh command db user may last old current =
    let done = stale_succeeds env now user_id command db user may stale old in
    (
      fresh_refused env now user_id command db user may fresh current last.alone,
      last_administers env now user_id command db user may last,
      done,
      nobody_left env now (holder user_id stale) command db old last.unique last.alone done,
    )

-- ===== src/Administration/Erased.antt =====
-- src/services/AccountService.cpp: what an erasure leaves of an account.
use custom_game_launcher_bac.Base.{
  Bool, ◌≤◌, is_some, &&-eq-true, count_rows_mono, count_rows_none, count_rows-update_rows_unique,
  ℕ, ◌≡◌, ◌≢◌, refl, inl, inr, true, not, ◌&&◌, arith, Bytes, eq_bytes, eq_bytes_iff, eq_bytes_refl,
  Bool-cases, Option-cases, success, find_row, find_row_holds, count_rows,
  count_rows-delete_rows_self, count_rows-update_rows-zero, find_row-none_counted, subst, sym, ◌∙◌,
  ap,
}
use custom_game_launcher_bac.Domain.Actor.{Actor}
use custom_game_launcher_bac.Database.{User, RefreshToken, UserToken, Db}
use custom_game_launcher_bac.Database.Users.{find_by_id, has_id, eq_citext}
use custom_game_launcher_bac.Database.Accounts
use custom_game_launcher_bac.Database.Accounts.{
  ErasedIdentity, is_erasable, anonymise, forget_user, is_event_of,
}
use custom_game_launcher_bac.Auth.{AuthEnv}
use custom_game_launcher_bac.Administration.Erasure.{
  EraseAccountCommand, erase, erase_user, is_last_administrator, identity_for, erasure_audit,
  erased_email_for, erased_display_name, erased_password_hash,
}

-- The columns of the row that are about the person are those of the placeholder.
unfoldable pub keeps_nothing : Bytes → User → Bool
keeps_nothing user_id u =
    (eq_citext u.email (erased_email_for user_id)
      && (eq_bytes u.display_name erased_display_name
          && eq_bytes u.password_hash erased_password_hash))
    && (not u.email_verified && (not u.is_active && not (is_some u.last_login_at)))

-- No session, no link, no library entry, no download under the account's name, and no row with its id
-- that says who it was, or under which it could sign in.
pub record IsErased (user_id : Bytes) (db : Db) : Type 0 where
  pub no_session :
      count_rows (λ (t : RefreshToken). eq_bytes t.user_id user_id) db.refresh_tokens ≡ 0
  pub no_link : count_rows (λ (t : UserToken). eq_bytes t.user_id user_id) db.user_tokens ≡ 0
  pub no_library : count_rows (λ ((id, _) : Bytes × Bytes). eq_bytes id user_id) db.user_games ≡ 0
  pub no_download : count_rows (is_event_of user_id) db.download_events ≡ 0
  pub no_person :
      count_rows (λ (u : User). has_id user_id u && not (keeps_nothing user_id u)) db.users ≡ 0

eq_citext_refl : (a : Bytes) → eq_citext a a ≡ true
unfolding eq_citext
eq_citext_refl a = eq_bytes_refl _

least : {n m : ℕ} → n ≤ m → m ≡ 0 → n ≡ 0
least h e = omega arith

module _ (now : ℕ) (user : User) (command : EraseAccountCommand) (db : Db) where
  anonymised : (y : User) → keeps_nothing user.id (anonymise (identity_for user command) y) ≡ true
  unfolding keeps_nothing
  anonymised y =
      rw
        (
          eq_citext_refl (erased_email_for user.id),
          eq_bytes_refl erased_display_name,
          eq_bytes_refl erased_password_hash,
        )
        refl

  row-IsErased :
      count_rows (has_id user.id) db.users ≤ 1
      → (Accounts.erase now user.id (identity_for user command) (erasure_audit user) db).0 ≡ true
      → IsErased user.id
          (Accounts.erase now user.id (identity_for user command) (erasure_audit user) db).1
  unfolding Accounts.erase
  row-IsErased unique done =
      let identity = identity_for user command in
      elim (Option-cases (find_row (is_erasable user.id identity) db.users)) [
        | inl lost ↦ ground arith
        | inr (u, found) ↦
            rw (found, Accounts.erase)
              (record {
                no_session = count_rows-delete_rows_self _ db.refresh_tokens;
                no_link = count_rows-delete_rows_self _ db.user_tokens;
                no_library = count_rows-delete_rows_self _ db.user_games;
                no_download =
                    count_rows-update_rows-zero (is_event_of user.id) (is_event_of user.id)
                      forget_user db.download_events (λ e. refl) (λ e h. h);
                no_person =
                    least
                      (count_rows-update_rows_unique
                        (λ (y : User). has_id user.id y && not (keeps_nothing user.id y))
                        (is_erasable user.id identity) (has_id user.id) (anonymise identity)
                        db.users u (λ y h. (&&-eq-true _ _ h).0)
                        (λ y. rw (anonymised y) (ground arith)) unique found)
                      (count_rows_none _ db.users (λ y. ground arith));
              })
      ]

  erase_user-IsErased :
      (actor : Actor)
      → count_rows (has_id user.id) db.users ≤ 1
      → (erase_user now actor user command db).0 ≡ success
      → IsErased user.id (erase_user now actor user command db).1
  unfolding erase_user
  erase_user-IsErased actor unique done = elim (Bool-cases (is_last_administrator actor db)) [
    | inl last ↦ ground arith
    | inr more ↦ rw (more, erase_user) (row-IsErased unique (ground arith))
  ]

  no_erasable :
      count_rows (λ (u : User). has_id user.id u && not (keeps_nothing user.id u)) db.users ≡ 0
      → count_rows (is_erasable user.id (identity_for user command)) db.users ≡ 0
  unfolding keeps_nothing
  no_erasable h = least (count_rows_mono _ _ db.users (λ u hit. ground arith)) h

  -- A row that is erased is not erased again.
  erase_user_again :
      (actor : Actor) → IsErased user.id db → (erase_user now actor user command db).0 ≢ success
  unfolding erase_user Accounts.erase
  erase_user_again actor erased done = ground (
    arith,
    find_row-none_counted (is_erasable user.id (identity_for user command)) db.users
        (no_erasable erased.no_person),
  )

module _ (env : AuthEnv) (actor : Actor) where
  -- An erasure that succeeds has passed every check.
  erase_accepted :
      (now : ℕ) (command : EraseAccountCommand) (db : Db)
      → (erase env now actor command db).0 ≡ success
      → (user : User) × (user.id ≡ actor.user_id)
        × (erase env now actor command db ≡ erase_user now actor user command db)
  unfolding erase find_by_id
  erase_accepted now command db done = elim (Option-cases (find_by_id db actor.user_id)) [
    | inl lost ↦ absurd (ground arith)
    | inr (user, found) ↦ (
      user,
      (eq_bytes_iff user.id actor.user_id).0
          (find_row_holds (has_id actor.user_id) db.users user found),
      ground arith,
    )
  ]

  erase-IsErased :
      (now : ℕ) (command : EraseAccountCommand) (db : Db)
      → count_rows (has_id actor.user_id) db.users ≤ 1
      → (erase env now actor command db).0 ≡ success
      → IsErased actor.user_id (erase env now actor command db).1
  erase-IsErased now command db unique done =
      let (user, same, passed) = erase_accepted now command db done in
      let left : IsErased user.id (erase_user now actor user command db).1 =
        erase_user-IsErased now user command db actor
          (subst (λ i. count_rows (has_id i) db.users ≤ 1) (sym same) unique)
          (sym (ap (λ r. r.0) passed) ∙ done) in
      rw passed (subst (λ i. IsErased i (erase_user now actor user command db).1) same left)

  -- Ids are unique. After an erasure that succeeds the account has no session, no link, no library entry
  -- and no download under its name, and its row is inactive and keeps no address, name, password hash
  -- or time of a login of its own. Another erasure by the same actor, at any time, does not succeed.
  pub erase_once :
      (now later : ℕ) (command another : EraseAccountCommand) (db : Db)
      → count_rows (has_id actor.user_id) db.users ≤ 1
      → (erase env now actor command db).0 ≡ success
      → let after = (erase env now actor command db).1 in
        IsErased actor.user_id after × ((erase env later actor another after).0 ≢ success)
  erase_once now later command another db unique done =
      let after = (erase env now actor command db).1 in
      let erased = erase-IsErased now command db unique done in
      (
        erased,
        λ again.
            let (user, same, passed) = erase_accepted later another after again in
            erase_user_again later user another after actor
              (subst (λ i. IsErased i after) (sym same) erased)
              (sym (ap (λ r. r.0) passed) ∙ again),
      )

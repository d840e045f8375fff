-- ===== src/Auth/Families.antt =====
-- src/services/AuthService.cpp: the families of refresh tokens, and the statements that add a token to
-- one.
pub mod Calls
pub mod Reach
use custom_game_launcher_bac.Base.{
  ℕ, ◌+◌, ◌≤◌, ◌≡◌, refl, sym, ◌∙◌, ap, ◌⊎◌, inl, inr, Bool, true, false, ◌&&◌, not, List, [], ◌∷◌,
  Option, none, some, arith, if◌then◌else◌, is_some, Bytes, eq_bytes, eq_bytes_iff, eq_bytes_refl,
  Result, ok, err, find_row, find_row_holds, update_rows, count_rows, count_rows-update_rows-le,
  count_rows-update_rows-lt, count_rows-delete_rows-le, count_rows_mono, Bool-cases, Option-cases,
  Result-cases,
}
use custom_game_launcher_bac.Domain.Validation.{normalize_email}
use custom_game_launcher_bac.Database.{User, RefreshToken, password_reset, Db}
use custom_game_launcher_bac.Database.Users.{
  find_by_id, find_by_email, record_successful_login, rehash_password, update_password_hash,
}
use custom_game_launcher_bac.Database.Tokens.{
  NewRefreshToken, refresh_token_row, issue_refresh_token, find_by_hash, is_live, is_expired,
  revoke, replace, rotate, revoke_where, revoke_by_id, revoke_family, revoke_all_for_user,
  delete_expired, invalidate_all, consume,
}
use custom_game_launcher_bac.Auth.{AuthEnv, Draws, ClientContext, World}
use custom_game_launcher_bac.Auth.Session.{
  login, refresh, refresh_for_user, logout, open_session, issue_session, new_refresh_token,
  upgrade_hash,
}
use custom_game_launcher_bac.Auth.Account.{
  change_password, store_changed_password, reset_password, store_reset_password, verify_email,
}

abbrev pub in_family : Bytes → RefreshToken → Bool
in_family family_id t = eq_bytes t.family_id family_id

abbrev pub live_in : Bytes → RefreshToken → Bool
live_in family_id t = in_family family_id t && is_live t

-- How many live tokens a family has.
abbrev pub live_tokens : Db → Bytes → ℕ
live_tokens db family_id = count_rows (live_in family_id) db.refresh_tokens

abbrev pub SingleLive : Db → Type 0
SingleLive db = (family_id : Bytes) → live_tokens db family_id ≤ 1

-- randomUuid has not drawn this family id before.
abbrev pub IsFresh : Bytes → Db → Type 0
IsFresh family_id db = count_rows (in_family family_id) db.refresh_tokens ≡ 0

pub revoke_where-le :
    (now : ℕ) (p : RefreshToken → Bool) (db : Db) (f : Bytes)
    → live_tokens (revoke_where now p db) f ≤ live_tokens db f
revoke_where-le now p db f =
    count_rows-update_rows-le (live_in f) (λ t. p t && is_live t) (revoke now) db.refresh_tokens
      (λ t h. ground arith)

-- A new token in a family with none.
pub issue-SingleLive :
    (now : ℕ) (id : Bytes) (row : NewRefreshToken) (db : Db)
    → IsFresh row.family_id db
    → SingleLive db
    → SingleLive (issue_refresh_token now id row db)
unfolding issue_refresh_token count_rows
issue-SingleLive now id row db fresh s f = elim (Bool-cases (eq_bytes row.family_id f)) [
  | inr other ↦ rw other (s f)
  | inl same ↦ rw same (
      let e : row.family_id ≡ f = (eq_bytes_iff row.family_id f).0 same in
      omega (
        arith,
        count_rows_mono (live_in row.family_id) (in_family row.family_id) db.refresh_tokens
            (λ t h. ground arith),
        fresh,
        ap (live_tokens db) e,
      ))
]

-- A new token in the family of one that is revoked by the same statement.
pub rotate-SingleLive :
    (now : ℕ) (id : Bytes) (stored : RefreshToken) (row : NewRefreshToken) (db : Db) (hash : Bytes)
    → find_by_hash db hash ≡ some stored
    → is_live stored ≡ true
    → row.family_id ≡ stored.family_id
    → SingleLive db
    → SingleLive (rotate now id stored.id row db)
unfolding rotate count_rows find_by_hash
rotate-SingleLive now id stored row db hash found live same s f =
    elim (Bool-cases (eq_bytes row.family_id f)) [
      | inr other ↦ rw other (
          omega (
            arith,
            count_rows-update_rows-le (live_in f) (λ t. eq_bytes t.id stored.id && is_live t)
                (replace now id) db.refresh_tokens (λ t h. ground arith),
            s f,
          ))
      | inl hit ↦ rw hit (
          omega (
            arith,
            count_rows-update_rows-lt (live_in f) (λ t. eq_bytes t.id stored.id && is_live t)
                (λ t. eq_bytes t.token_hash hash) (replace now id) db.refresh_tokens stored found
                (rw (eq_bytes_refl stored.id) live) (rw (← same) (rw hit live)) (λ t. ground arith),
            s f,
          ))
    ]

pub same_tokens :
    (db after : Db) → after.refresh_tokens ≡ db.refresh_tokens → SingleLive db → SingleLive after
same_tokens db after e s f = rw e (s f)

module _ {ℓ} (env : AuthEnv) (draws : Draws) (P : Db → Type ℓ) where
  -- What a login or a refresh leaves, by cases.
  pub login_cases :
      (email password : Bytes) (client : ClientContext) (db : Db)
      → P db
      → ((user : User) → P (open_session env draws user password client db).1)
      → P (login env draws email password client db).1
  unfolding login
  login_cases email password client db same opened =
      elim (Option-cases (find_by_email db (normalize_email email))) [
        | inl lost ↦ rw (lost, login) same
        | inr (user, e) ↦ rw (e, login) (ground (arith, opened user))
      ]

  pub refresh_cases :
      (token : Bytes) (client : ClientContext) (db : Db)
      → P db
      → ((p : RefreshToken → Bool) → P (revoke_where draws.now p db))
      → ((user : User) (stored : RefreshToken)
          → find_by_hash db (env.sha256_hex token) ≡ some stored
          → is_live stored ≡ true
          → P (
              rotate draws.now draws.row_id stored.id
                (new_refresh_token env draws user stored.family_id client)
                db))
      → P (refresh env draws token client db).1
  unfolding refresh revoke_family revoke_by_id revoke_all_for_user
  refresh_cases token client db same revoked rotated =
      elim (Option-cases (find_by_hash db (env.sha256_hex token))) [
        | inl lost ↦ rw (lost, refresh) same
        | inr (stored, e) ↦ elim (Bool-cases (is_live stored)) [
          | inr dead ↦ rw (e, refresh) (rw dead (revoked (in_family stored.family_id)))
          | inl live ↦ elim (Option-cases (find_by_id db stored.user_id)) [
            | inl gone ↦
                rw (e, refresh)
                  (rw live (
                    rw (gone, refresh_for_user)
                      (ground (
                        arith,
                        revoked (in_family stored.family_id),
                        revoked (λ (t : RefreshToken). eq_bytes t.id stored.id),
                      ))))
            | inr (user, at) ↦
                rw (e, refresh)
                  (rw live (
                    rw (at, refresh_for_user)
                      (ground (
                        arith,
                        revoked (λ (t : RefreshToken). eq_bytes t.user_id user.id),
                        revoked (λ (t : RefreshToken). eq_bytes t.id stored.id),
                        rotated user stored e live,
                      ))))
          ]
        ]
      ]

-- ===== src/Database/Accounts.antt =====
-- src/repositories/postgres/PgRepositories.cpp: the erasure of an account, and the audit row that a
-- statement writes beside its change.
use custom_game_launcher_bac.Base.{
  ℕ, ◌&&◌, Bool, true, false, not, ◌∷◌, Option, none, some, is_empty, if◌then◌else◌, Bytes,
  eq_bytes, find_row, update_rows, delete_rows,
}
use custom_game_launcher_bac.Database.{
  User, RefreshToken, UserToken, DownloadEvent, NewAuditEntry, AuditRow, Db,
}
use custom_game_launcher_bac.Database.Users.{has_id, eq_citext}

-- NULLIF(value, '').
abbrev pub null_if_empty : Bytes → Option Bytes
null_if_empty value = if is_empty value then none else some value

abbrev pub audit_row : ℕ → NewAuditEntry → AuditRow
audit_row now entry = record {
  actor_user_id = null_if_empty entry.actor_user_id;
  action = entry.action;
  entity_type = entry.entity_type;
  entity_id = entry.entity_id;
  metadata = entry.metadata;
  created_at = now;
}

abbrev pub append_audit : ℕ → NewAuditEntry → Db → Db
append_audit now entry db = record db { audit_log = audit_row now entry ∷ db.audit_log }

pub record ErasedIdentity : Type 0 where
  pub email : Bytes
  pub display_name : Bytes
  pub password_hash : Bytes
  pub reason : Bytes

abbrev pub anonymise : ErasedIdentity → User → User
anonymise identity u = record u {
  email = identity.email;
  display_name = identity.display_name;
  password_hash = identity.password_hash;
  email_verified = false;
  last_login_at = none;
  is_active = false;
}

abbrev pub forget_user : DownloadEvent → DownloadEvent
forget_user e = record e { user_id = none }

abbrev pub is_event_of : Bytes → DownloadEvent → Bool
is_event_of user_id e = elim e.user_id [ none ↦ false | some id ↦ eq_bytes id user_id ]

-- id = $1 AND email <> $2.
abbrev pub is_erasable : Bytes → ErasedIdentity → User → Bool
is_erasable user_id identity u = has_id user_id u && not (eq_citext u.email identity.email)

-- Every arm of the statement reads the row that the first one changed.
unfoldable pub erase : ℕ → Bytes → ErasedIdentity → NewAuditEntry → Db → Bool × Db
erase now user_id identity audit db = elim (find_row (is_erasable user_id identity) db.users) [
  | none ↦ (false, db)
  | some u ↦ (
    true,
    record db {
      users = update_rows (is_erasable user_id identity) (anonymise identity) db.users;
      refresh_tokens =
          delete_rows (λ (t : RefreshToken). eq_bytes t.user_id user_id) db.refresh_tokens;
      user_tokens = delete_rows (λ (t : UserToken). eq_bytes t.user_id user_id) db.user_tokens;
      user_games = delete_rows (λ ((id, _) : Bytes × Bytes). eq_bytes id user_id) db.user_games;
      download_events = update_rows (is_event_of user_id) forget_user db.download_events;
      account_deletion_requests =
          record { user_id = u.id; reason = identity.reason; processed_at = now }
          ∷ db.account_deletion_requests;
      audit_log = audit_row now audit ∷ db.audit_log;
    },
  )
]

-- ===== src/Tests/Auth.antt =====
-- The theorems on src/services/AuthService.cpp at one account, with one session and one reset link.
use custom_game_launcher_bac.Base.{
  sym, subst, ◌∙◌, ℕ, ◌≡◌, ◌≢◌, ◌↔◌, refl, true, false, [], ◌∷◌, none, some, arith, is_ok, pos,
  Bytes, codes, eq_bytes, eq_bytes_iff, if◌then◌else◌, success, ok, find_row, count_rows,
}
use custom_game_launcher_bac.Domain.Validation.{
  normalize_email, validate_password, trim, is_whitespace,
}
use custom_game_launcher_bac.Database.{User, RefreshToken, UserToken, password_reset, Db}
use custom_game_launcher_bac.Database.Users.{find_by_id, find_by_email, eq_citext}
use custom_game_launcher_bac.Database.Tokens.{find_by_hash, is_live, consume}
use custom_game_launcher_bac.Auth.{AuthTokens, AuthEnv, AuthSettings, Draws, ClientContext}
use custom_game_launcher_bac.Auth.Session.{login, refresh, session_tokens, invalid_refresh_token}
use custom_game_launcher_bac.Auth.Account.{reset_password, store_reset_password}
use custom_game_launcher_bac.Auth.Families.{SingleLive, IsFresh, live_tokens}
use custom_game_launcher_bac.Auth.Families.Reach.{here, next, logs_in, refreshes, Reach-SingleLive}
use custom_game_launcher_bac.Auth.Rotation.{Rotates, refresh-Rotates, refresh_reuse, refresh_replay}
use custom_game_launcher_bac.Auth.Recovery.{
  is_session_of, is_reset_link_of, reset_password_ends_sessions, reset_password_once,
}
use custom_game_launcher_bac.Auth.Login.{MayLogIn, login_iff}

abbrev pub settings : AuthSettings
settings = record {
  require_verified_email = true;
  refresh_token_ttl = 1000;
  email_verification_ttl = 100;
  password_reset_ttl = 100;
  default_role = "player";
  mail_enabled = false;
}

-- A digest and a password hash that leave their argument as it is.
abbrev pub env : AuthEnv
env = record {
  settings = settings;
  sha256_hex = λ b. b;
  hash_password = λ p. ok p;
  verify_password = eq_bytes;
  needs_rehash = λ h. false;
  issue_access_token = λ claims. claims.user_id;
  access_token_ttl = 900;
  deliver = λ m. success;
}

abbrev draws_at : ℕ → Bytes → Bytes → Draws
draws_at now token family_id = record {
  now = now;
  token = token;
  family_id = family_id;
  row_id = token;
}

abbrev first : Draws
first = draws_at 10 (codes "t1") (codes "f1")

abbrev second : Draws
second = draws_at 20 (codes "t2") (codes "f2")

abbrev third : Draws
third = draws_at 30 (codes "t3") (codes "f3")

abbrev client : ClientContext
client = record { user_agent = codes "launcher"; ip_address = codes "::1" }

abbrev alice : User
alice = record {
  id = codes "alice";
  email = codes "a@b.cd";
  display_name = codes "Alice";
  password_hash = codes "secret-password";
  email_verified = true;
  is_active = true;
  password_change_required = false;
  upload_quota_bytes = pos 100;
  upload_used_bytes = pos 0;
  last_login_at = none;
}

abbrev session : RefreshToken
session = record {
  id = codes "s0";
  user_id = codes "alice";
  family_id = codes "f0";
  token_hash = codes "t0";
  expires_at = 500;
  revoked_at = none;
  replaced_by = none;
  user_agent = codes "launcher";
  ip_address = codes "::1";
}

abbrev reset_link : UserToken
reset_link = record {
  user_id = codes "alice";
  purpose = password_reset;
  token_hash = codes "link";
  expires_at = 100;
  consumed_at = none;
}

abbrev db_with : RefreshToken → Db
db_with token = record {
  users = alice ∷ [];
  user_roles = [];
  roles = [];
  refresh_tokens = token ∷ [];
  user_tokens = reset_link ∷ [];
  blobs = [];
  upload_sessions = [];
  builds = [];
  build_files = [];
  download_events = [];
  games = [];
  game_versions = [];
  user_games = [];
  account_deletion_requests = [];
  audit_log = [];
}

abbrev signed_in : Db
signed_in = db_with session

abbrev revoked : RefreshToken
revoked = record session { revoked_at = some 5 }

signed_in-SingleLive : SingleLive signed_in
unfolding count_rows
signed_in-SingleLive family_id = ground arith

second-IsFresh : IsFresh (codes "f1") signed_in
unfolding count_rows eq_bytes
second-IsFresh = refl

-- Alice signs in once more, and both of her sessions are refreshed.
abbrev after_login : Db
after_login = (login env first (codes "A@b.cd") (codes "secret-password") client signed_in).1

abbrev after_refresh : Db
after_refresh = (refresh env second (codes "t0") client after_login).1

Reach-SingleLive_example : SingleLive (refresh env third (codes "t1") client after_refresh).1
Reach-SingleLive_example = Reach-SingleLive env signed_in-SingleLive (
    next
      (next
        (next here (logs_in first (codes "A@b.cd") (codes "secret-password") client second-IsFresh))
        (refreshes second (codes "t0") client))
      (refreshes third (codes "t1") client))

signed_in-Rotates : Rotates env 20 (codes "t0") signed_in session alice
unfolding find_by_hash find_by_id find_row eq_bytes
signed_in-Rotates = record {
  found = refl;
  live = refl;
  unexpired = refl;
  owner = refl;
  active = refl;
}

t2-ne-t0 : codes "t2" ≢ codes "t0"
unfolding eq_bytes
t2-ne-t0 same =
    let clash : false ≡ true = (eq_bytes_iff (codes "t2") (codes "t0")).1 same in absurd cc

refresh-Rotates_example :
    let (answer, after) = refresh env second (codes "t0") client signed_in in
    (answer ≡ ok (session_tokens env second alice signed_in))
    × ((issued : RefreshToken) × (find_by_hash after (codes "t2") ≡ some issued)
        × (is_live issued ≡ true)
        × (issued.user_id ≡ codes "alice")
        × (issued.family_id ≡ codes "f0"))
    × ((old : RefreshToken) × (find_by_hash after (codes "t0") ≡ some old)
        × (is_live old ≡ false)
        × (old.family_id ≡ codes "f0"))
refresh-Rotates_example =
    refresh-Rotates env second (codes "t0") client signed_in session alice signed_in-Rotates
      t2-ne-t0

revoked-found : find_by_hash (db_with revoked) (codes "t0") ≡ some revoked
unfolding find_by_hash find_row eq_bytes
revoked-found = refl

refresh_reuse_example :
    let (answer, after) = refresh env second (codes "t0") client (db_with revoked) in
    (answer ≡ invalid_refresh_token)
    × (live_tokens after (codes "f0") ≡ (
        if eq_bytes (codes "f0") (codes "f0")
        then 0
        else live_tokens (db_with revoked) (codes "f0")))
refresh_reuse_example =
    refresh_reuse env second (codes "t0") client (db_with revoked) revoked (codes "f0")
      revoked-found refl

refresh_replay_example :
    let after = (refresh env second (codes "t0") client signed_in).1 in
    let (replayed, burnt) = refresh env third (codes "t0") client after in
    (replayed ≡ invalid_refresh_token)
    × (live_tokens burnt (codes "f0") ≡ 0)
    × ((refresh env third (codes "t2") client burnt).0 ≡ invalid_refresh_token)
refresh_replay_example =
    refresh_replay env second third third (codes "t0") client client client signed_in session alice
      signed_in-Rotates t2-ne-t0

reset-succeeds :
    (reset_password env first (codes "link") (codes "another-password") signed_in).0 ≡ success
unfolding reset_password store_reset_password consume find_row eq_bytes validate_password trim
    is_whitespace
reset-succeeds = refl

reset_password_ends_sessions_example :
    let after = (reset_password env first (codes "link") (codes "another-password") signed_in).1 in
    (user_id : Bytes) × ((consume 10 (codes "link") password_reset signed_in).0 ≡ some user_id)
    × (count_rows (is_session_of user_id) after.refresh_tokens ≡ 0)
    × (count_rows (is_reset_link_of user_id) after.user_tokens ≡ 0)
reset_password_ends_sessions_example =
    reset_password_ends_sessions env first (codes "link") (codes "another-password") signed_in
      reset-succeeds

reset_password_once_example :
    let after = (reset_password env first (codes "link") (codes "another-password") signed_in).1 in
    ((reset_password env second (codes "link") (codes "third-password") after).0 ≢ success)
    × ((reset_password env second (codes "link") (codes "third-password") after).1.users
        ≡ after.users)
reset_password_once_example =
    reset_password_once env first second (codes "link") (codes "another-password")
      (codes "third-password") signed_in (omega arith) reset-succeeds

alice-found : find_by_email signed_in (normalize_email (codes "a@b.cd")) ≡ some alice
unfolding find_by_email eq_citext normalize_email find_row eq_bytes trim is_whitespace
alice-found = refl

some_inj : {A : Type 0} {a b : A} → some a ≡ some b → a ≡ b
some_inj h = cc

alice-by_id :
    (user : User)
    → find_by_email signed_in (normalize_email (codes "a@b.cd")) ≡ some user
    → find_by_id signed_in user.id ≡ some user
unfolding find_by_id find_row eq_bytes
alice-by_id user found =
    let same : alice ≡ user = some_inj (sym alice-found ∙ found) in
    subst (λ (u : User). find_by_id signed_in u.id ≡ some u) same refl

login_iff_example :
    let answer = login env first (codes "a@b.cd") (codes "secret-password") client signed_in in
    ((tokens : AuthTokens) × (answer.0 ≡ ok tokens)
      × (is_ok (refresh env second tokens.refresh_token client answer.1).0 ≡ true))
    ↔ ((user : User) × (find_by_email signed_in (normalize_email (codes "a@b.cd")) ≡ some user)
        × MayLogIn env (codes "secret-password") user)
login_iff_example =
    login_iff env first second (codes "a@b.cd") (codes "secret-password") client client signed_in
      alice-by_id (omega arith)

-- ===== src/Tests/Administration.antt =====
-- The theorems on src/services/AdminUserService.cpp and AccountService.cpp at two operators.
use custom_game_launcher_bac.Base.{
  ◌≤◌, ◌≡◌, ◌≢◌, refl, true, false, [], ◌∷◌, none, arith, pos, Bytes, codes, eq_bytes, success,
  count_rows, find_row, update_rows, map,
}
use custom_game_launcher_bac.Domain.Actor.{Actor, can, admin_users_manage, admin_roles_manage}
use custom_game_launcher_bac.Domain.Validation.{is_uuid, is_hex_digit}
use custom_game_launcher_bac.Database.{User, Db}
use custom_game_launcher_bac.Database.Users.{find_by_id, has_id, eq_citext, permissions_of_roles}
use custom_game_launcher_bac.Database.Admin.{count_other_holders_of, reaches}
use custom_game_launcher_bac.Administration.{revoke_role}
use custom_game_launcher_bac.Administration.Erasure.{EraseAccountCommand, erase, erased_email_for}
use custom_game_launcher_bac.Administration.Administrators.{administrators}
use custom_game_launcher_bac.Administration.Reach.{
  here, next, revokes_role, erases, Reach-administrators,
}
use custom_game_launcher_bac.Administration.Audited.{revoke, run, IsAudited, run-IsAudited}
use custom_game_launcher_bac.Administration.Stale.{
  MayLeave, IsLast, holder, last_one_stays, erase_stale,
}
use custom_game_launcher_bac.Administration.Erased.{IsErased, erase_once}
use custom_game_launcher_bac.Tests.Auth.{env}

abbrev ann_id : Bytes
ann_id = codes "00000000-0000-0000-0000-00000000000a"

abbrev ben_id : Bytes
ben_id = codes "00000000-0000-0000-0000-00000000000b"

abbrev operator_user : Bytes → Bytes → User
operator_user id email = record {
  id = id;
  email = email;
  display_name = codes "Operator";
  password_hash = codes "secret";
  email_verified = true;
  is_active = true;
  password_change_required = false;
  upload_quota_bytes = pos 0;
  upload_used_bytes = pos 0;
  last_login_at = none;
}

abbrev ann : Actor
ann = record { user_id = ann_id; permissions = "admin.users.manage" ∷ "admin.roles.manage" ∷ [] }

-- The token of ben was issued before the role was granted.
abbrev ben_before : Actor
ben_before = record { user_id = ben_id; permissions = [] }

abbrev pub two_operators : Db
two_operators = record {
  users = operator_user ann_id (codes "ann@b.cd") ∷ operator_user ben_id (codes "ben@b.cd") ∷ [];
  user_roles = (ann_id, "admin") ∷ (ben_id, "admin") ∷ [];
  roles = ("admin", "admin.users.manage" ∷ "admin.roles.manage" ∷ []) ∷ [];
  refresh_tokens = [];
  user_tokens = [];
  blobs = [];
  upload_sessions = [];
  builds = [];
  build_files = [];
  download_events = [];
  games = [];
  game_versions = [];
  user_games = (ben_id, codes "g1") ∷ [];
  account_deletion_requests = [];
  audit_log = [];
}

abbrev goodbye : EraseAccountCommand
goodbye = record { password = codes "secret"; reason = codes " bye " }

-- Ann takes the role of ben, and then tries to leave.
abbrev ben_revoked : Db
ben_revoked = (revoke_role 10 ann ben_id "admin" two_operators).1

ann-can : can ann admin_users_manage ≡ true
unfolding can
ann-can = refl

two_administer : administrators two_operators ≡ 2
unfolding administrators count_rows permissions_of_roles eq_bytes
two_administer = refl

Reach-administrators_example : 1 ≤ administrators (erase env 20 ann goodbye ben_revoked).1
Reach-administrators_example =
    Reach-administrators env (omega (arith, two_administer))
      (next (next here (revokes_role 10 ann ben_id "admin")) (erases 20 ann goodbye (λ h. ann-can)))

run-IsAudited_example :
    IsAudited admin_roles_manage 10 ann ben_id two_operators
      (run env 10 ann ben_id (revoke "admin") two_operators)
run-IsAudited_example = run-IsAudited env 10 ann ben_id (revoke "admin") two_operators

-- The revocation takes effect and is logged.
revoked_logged : map (λ r. r.entity_id) ben_revoked.audit_log ≡ ben_id ∷ []
unfolding revoke_role count_rows count_other_holders_of permissions_of_roles eq_bytes can is_uuid
    is_hex_digit find_by_id find_row
revoked_logged = refl

ben_erased : (erase env 10 ben_before goodbye two_operators).0 ≡ success
unfolding erase eq_bytes is_uuid is_hex_digit find_by_id find_row can eq_citext erased_email_for
ben_erased = refl

ben_unique : count_rows (has_id ben_id) two_operators.users ≤ 1
unfolding count_rows eq_bytes
ben_unique = omega arith

erase_once_example :
    let after = (erase env 10 ben_before goodbye two_operators).1 in
    IsErased ben_id after × ((erase env 20 ben_before goodbye after).0 ≢ success)
erase_once_example =
    erase_once env ben_before 10 20 goodbye goodbye two_operators ben_unique ben_erased

-- Ann has left, and ben still holds the token from before the grant.
abbrev ben_alone : Db
ben_alone = (erase env 10 ann goodbye two_operators).1

ben_alone-MayLeave : MayLeave env ben_id goodbye ben_alone (operator_user ben_id (codes "ben@b.cd"))
unfolding erase eq_bytes is_uuid is_hex_digit find_by_id find_row can eq_citext erased_email_for
    update_rows count_rows permissions_of_roles count_other_holders_of
ben_alone-MayLeave = record {
  uuid = refl;
  short = refl;
  found = refl;
  verified = refl;
  unerased = refl;
}

ben_alone-IsLast : IsLast ben_id ben_alone (operator_user ben_id (codes "ben@b.cd"))
unfolding erase count_rows permissions_of_roles eq_bytes is_uuid can count_other_holders_of
    eq_citext erased_email_for is_hex_digit find_by_id find_row update_rows reaches
ben_alone-IsLast = record { active = refl; holds = refl; alone = refl; unique = omega arith }

stale-cannot : can (holder ben_id []) admin_users_manage ≡ false
unfolding can
stale-cannot = refl

fresh-can : can (holder ben_id ("admin.users.manage" ∷ [])) admin_users_manage ≡ true
unfolding can
fresh-can = refl

erase_stale_example :
    (erase env 20 (holder ben_id ("admin.users.manage" ∷ [])) goodbye ben_alone
      ≡ (last_one_stays, ben_alone))
    × (1 ≤ administrators ben_alone)
    × ((erase env 20 (holder ben_id []) goodbye ben_alone).0 ≡ success)
    × (administrators (erase env 20 (holder ben_id []) goodbye ben_alone).1 ≡ 0)
erase_stale_example =
    erase_stale env 20 ben_id [] ("admin.users.manage" ∷ []) goodbye ben_alone
      (operator_user ben_id (codes "ben@b.cd")) ben_alone-MayLeave ben_alone-IsLast stale-cannot
      fresh-can

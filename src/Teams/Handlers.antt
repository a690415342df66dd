-- ===== src/Teams/Handlers.antt =====
-- handlers/teams.rs: the handlers that change teams, without the e-mails and the response bodies. A
-- handler takes the caller's claims, the path, the body, and what the code takes from outside: the
-- users' table, a new random token, and the clock `now`, in seconds.
use ullav_user_management.Prelude.{
  ℕ, ◌+◌, ◌*◌, String, Bool, true, false, not, ◌&&◌, Option, none, some, List, ◌==◌, ltb, Chars,
  any, select, same,
}
use ullav_user_management.Errors
use ullav_user_management.Errors.{
  AppError, Result, ok, err, conflict, forbidden, invalid_token, not_found, validation,
}
use ullav_user_management.Exec.{Exec, pure, lift, gets, fail_if, or_fail, ◌>>=◌, ◌>>◌}
use ullav_user_management.Accounts.{User, Claims, caller_id, get_user_by_id, get_user_by_email}
use ullav_user_management.Words.{trim}
use ullav_user_management.Checks.{is_nil, resolve_app_url, validate_product_role}
use ullav_user_management.Teams.{TeamRole, TeamDb, is_active, is_invited}
use ullav_user_management.Teams.Store
use ullav_user_management.Teams.Store.{TeamUpdate, get_team_ownership}
use ullav_user_management.Teams.Members.{
  get_team_membership, get_team_member_by_token, accept_team_invitation, decline_team_invitation,
  remove_team_member, refresh_invite_token, invite_team_member,
}
use ullav_user_management.Teams.Roles

-- What the handlers read of `AppState`.
pub record Config : Type 0 where
  pub allowed_app_urls : List String
  pub app_base_url : String
  pub confirmation_token_ttl_minutes : ℕ

-- A membership of any other status, and no membership, are refused alike.
unfoldable pub require_active_member : ℕ → ℕ → Exec TeamDb (Unit {0})
unfolding get_team_membership
require_active_member team_id user_id = do
  row ← gets (get_team_membership team_id user_id)
  m ← or_fail row forbidden
  fail_if (not (is_active m.status)) forbidden

unfoldable pub list_team_roles : Option Claims → ℕ → Exec TeamDb (List TeamRole)
unfolding caller_id require_active_member
list_team_roles claims team_id = do
  user_id ← lift (caller_id claims)
  require_active_member team_id user_id
  gets (λ db. select (λ r. r.team_id == team_id) db.roles)

abbrev pub permits : String → Option Claims → Result (Unit {0})
permits permission none = err invalid_token
permits permission (some claims) =
    Errors.fail_if (not (any (λ p. same p permission) claims.permissions)) forbidden

unfoldable pub create_team :
    (Chars → Chars)
    → List User
    → Option Claims
    → Chars
    → Option String
    → Option String
    → Option String
    → ℕ
    → Exec TeamDb ℕ
unfolding caller_id Store.create_team trim
create_team to_lowercase users claims name description purpose avatar_url now = do
  lift (permits "teams:create" claims)
  owner_id ← lift (caller_id claims)
  fail_if (is_nil (trim name)) (validation "name must not be empty")
  Store.create_team to_lowercase users (trim name) description purpose avatar_url owner_id none now

-- The check of a proposed leader.
unfoldable pub check_leader : ℕ → Option ℕ → Exec TeamDb (Unit {0})
unfolding get_team_membership
check_leader team_id none = pure tt
check_leader team_id (some new_leader) = do
  row ← gets (get_team_membership team_id new_leader)
  m ← or_fail row (validation "proposed leader is not an active team member")
  fail_if (not (is_active m.status)) (validation "proposed leader is not an active team member")

abbrev pub is_some : {A : Type 0} → Option A → Bool
is_some none = false
is_some (some a) = true

unfoldable pub update_team : Option Claims → ℕ → TeamUpdate → Exec TeamDb (Unit {0})
unfolding caller_id get_team_ownership check_leader Store.update_team
update_team claims team_id body = do
  user_id ← lift (caller_id claims)
  (owner_id, leader_id) ← get_team_ownership team_id
  fail_if (not (user_id == owner_id) && not (user_id == leader_id)) forbidden
  fail_if (is_some body.leader_id && not (user_id == owner_id)) forbidden
  check_leader team_id body.leader_id
  Store.update_team team_id body

-- The handlers that only the owner may call begin so.
unfoldable pub owner_only : ℕ → ℕ → Exec TeamDb (Unit {0})
unfolding get_team_ownership
owner_only user_id team_id = do
  (owner_id, leader_id) ← get_team_ownership team_id
  fail_if (not (user_id == owner_id)) forbidden

-- And so those for the owner and the leader.
unfoldable pub owner_or_leader : ℕ → ℕ → Exec TeamDb (Unit {0})
unfolding get_team_ownership
owner_or_leader user_id team_id = do
  (owner_id, leader_id) ← get_team_ownership team_id
  fail_if (not (user_id == owner_id) && not (user_id == leader_id)) forbidden

unfoldable pub delete_team : Option Claims → ℕ → Exec TeamDb (Unit {0})
unfolding caller_id owner_only Store.delete_team
delete_team claims team_id = do
  user_id ← lift (caller_id claims)
  owner_only user_id team_id
  Store.delete_team team_id

-- `Utc::now() + Duration::minutes(ttl)`
abbrev pub expiry : Config → ℕ → ℕ
expiry config now = now + config.confirmation_token_ttl_minutes * 60

-- The fields of the body are the address of the invitee and `app_url`.
unfoldable pub invite_member :
    Config
    → List User
    → Option Claims
    → ℕ
    → String
    → Option String
    → String
    → ℕ
    → Exec TeamDb (Unit {0})
unfolding caller_id owner_or_leader resolve_app_url get_user_by_email get_team_membership
    invite_team_member
invite_member config users claims team_id email app_url token now = do
  inviter_id ← lift (caller_id claims)
  owner_or_leader inviter_id team_id
  lift (resolve_app_url app_url config.allowed_app_urls config.app_base_url)
  invitee ← lift (get_user_by_email users email)
  known ← gets (λ db. is_some (get_team_membership team_id invitee.id db))
  fail_if known conflict
  invite_team_member team_id invitee.id inviter_id token (expiry config now) now

unfoldable pub remove_member : Option Claims → ℕ → ℕ → Exec TeamDb (Unit {0})
unfolding caller_id get_team_ownership remove_team_member
remove_member claims team_id target_user_id = do
  caller ← lift (caller_id claims)
  (owner_id, leader_id) ← get_team_ownership team_id
  fail_if (not (caller == target_user_id) && not (caller == owner_id) && not (caller == leader_id))
      forbidden
  fail_if (target_user_id == owner_id)
      (validation "the team owner cannot be removed; transfer ownership or delete the team")
  remove_team_member team_id target_user_id

abbrev pub expired : ℕ → Option ℕ → Bool
expired now none = false
expired now (some expires_at) = ltb expires_at now

unfoldable pub accept_invitation : Option Claims → String → ℕ → Exec TeamDb (Unit {0})
unfolding caller_id get_team_member_by_token accept_team_invitation
accept_invitation claims token now = do
  caller ← lift (caller_id claims)
  member ← get_team_member_by_token token
  fail_if (not (member.user_id == caller)) forbidden
  fail_if (expired now member.invite_token_expires_at) invalid_token
  accept_team_invitation member.id now

unfoldable pub decline_invitation : Option Claims → String → Exec TeamDb (Unit {0})
unfolding caller_id get_team_member_by_token decline_team_invitation
decline_invitation claims token = do
  caller ← lift (caller_id claims)
  member ← get_team_member_by_token token
  fail_if (not (member.user_id == caller)) forbidden
  decline_team_invitation member.id

-- The invitee is looked up after the new token is written.
unfoldable pub resend_invitation :
    Config → List User → Option Claims → ℕ → ℕ → Option String → String → ℕ → Exec TeamDb (Unit {0})
unfolding caller_id owner_or_leader get_team_membership resolve_app_url refresh_invite_token
    get_user_by_id
resend_invitation config users claims team_id invitee_id app_url new_token now = do
  caller ← lift (caller_id claims)
  owner_or_leader caller team_id
  row ← gets (get_team_membership team_id invitee_id)
  membership ← or_fail row not_found
  fail_if (not (is_invited membership.status)) (validation "member is not in invited status")
  lift (resolve_app_url app_url config.allowed_app_urls config.app_base_url)
  refresh_invite_token team_id invitee_id new_token (expiry config now) now
  lift (get_user_by_id users invitee_id)
  pure tt

unfoldable pub create_team_role : Option Claims → ℕ → Chars → Option String → Exec TeamDb ℕ
unfolding caller_id owner_only trim Roles.create_team_role
create_team_role claims team_id name description = do
  user_id ← lift (caller_id claims)
  owner_only user_id team_id
  fail_if (is_nil (trim name)) (validation "name must not be empty")
  Roles.create_team_role team_id (trim name) description

unfoldable pub trimmed : Option Chars → Option Chars
unfolding trim
trimmed none = none
trimmed (some name) = some (trim name)

abbrev pub is_blank : Option Chars → Bool
is_blank none = false
is_blank (some name) = is_nil name

unfoldable pub update_team_role :
    Option Claims → ℕ → ℕ → Option Chars → Option String → Exec TeamDb (Unit {0})
unfolding caller_id owner_only trimmed Roles.update_team_role
update_team_role claims team_id role_id name description = do
  user_id ← lift (caller_id claims)
  owner_only user_id team_id
  fail_if (is_blank (trimmed name)) (validation "name must not be empty")
  Roles.update_team_role team_id role_id (trimmed name) description

unfoldable pub delete_team_role : Option Claims → ℕ → ℕ → Exec TeamDb (Unit {0})
unfolding caller_id owner_only Roles.delete_team_role
delete_team_role claims team_id role_id = do
  user_id ← lift (caller_id claims)
  owner_only user_id team_id
  Roles.delete_team_role team_id role_id

unfoldable pub assign_member_role : Option Claims → ℕ → ℕ → ℕ → Exec TeamDb (Unit {0})
unfolding caller_id owner_or_leader Roles.assign_member_role
assign_member_role claims team_id target_user_id role_id = do
  caller ← lift (caller_id claims)
  owner_or_leader caller team_id
  Roles.assign_member_role team_id target_user_id role_id

unfoldable pub unassign_member_role : Option Claims → ℕ → ℕ → ℕ → Exec TeamDb (Unit {0})
unfolding caller_id owner_or_leader Roles.unassign_member_role
unassign_member_role claims team_id target_user_id role_id = do
  caller ← lift (caller_id claims)
  owner_or_leader caller team_id
  Roles.unassign_member_role team_id target_user_id role_id

unfoldable pub assign_member_product_role :
    Option Claims → ℕ → ℕ → String → String → Exec TeamDb (Unit {0})
unfolding caller_id owner_only validate_product_role Roles.assign_member_product_role
assign_member_product_role claims team_id target_user_id product_slug role = do
  caller ← lift (caller_id claims)
  owner_only caller team_id
  lift (validate_product_role product_slug role)
  Roles.assign_member_product_role team_id target_user_id product_slug role caller

unfoldable pub revoke_member_product_role : Option Claims → ℕ → ℕ → String → Exec TeamDb (Unit {0})
unfolding caller_id owner_only Roles.revoke_member_product_role
revoke_member_product_role claims team_id target_user_id product_slug = do
  caller ← lift (caller_id claims)
  owner_only caller team_id
  Roles.revoke_member_product_role team_id target_user_id product_slug

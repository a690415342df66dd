-- ===== src/Teams/Admin.antt =====
-- handlers/admin.rs: the handlers under /admin that change teams. The middleware's permission check
-- comes before them and is not modelled.
use Prim.Native.String.{◌++◌}
use ullav_user_management.Prelude.{
  ℕ, String, Bool, not, ◌||◌, Option, none, some, List, same, any, if◌then◌else◌, Chars, codes,
}
use ullav_user_management.Errors
use ullav_user_management.Errors.{Result, ok, err, forbidden, invalid_token, validation}
use ullav_user_management.Exec.{Exec, lift, fail_if, ◌>>=◌, ◌>>◌}
use ullav_user_management.Accounts.{User, Claims, caller_id}
use ullav_user_management.Words.{trim}
use ullav_user_management.Checks.{is_nil}
use ullav_user_management.Teams.{TeamDb}
use ullav_user_management.Teams.Store
use ullav_user_management.Teams.Store.{get_team_ownership}
use ullav_user_management.Teams.Members
use ullav_user_management.Teams.Members.{add_team_member_active}
use ullav_user_management.Teams.Roles
use ullav_user_management.Teams.Support.{AdminTeamUpdate, admin_update_team}

unfoldable pub create_team :
    (Chars → Chars)
    → List User
    → Chars
    → Option String
    → Option String
    → Option String
    → ℕ
    → ℕ
    → Exec TeamDb ℕ
unfolding Store.create_team trim
create_team to_lowercase users name description purpose avatar_url owner_id now = do
  fail_if (is_nil (trim name)) (validation "name must not be empty")
  Store.create_team to_lowercase users (trim name) description purpose avatar_url owner_id none now

unfoldable pub update_team : ℕ → AdminTeamUpdate → Exec TeamDb (Unit {0})
unfolding admin_update_team
update_team team_id body = admin_update_team team_id body

unfoldable pub delete_team : ℕ → Exec TeamDb (Unit {0})
unfolding Store.delete_team
delete_team team_id = Store.delete_team team_id

unfoldable pub add_team_member : List User → ℕ → ℕ → ℕ → Exec TeamDb (Unit {0})
unfolding get_team_ownership add_team_member_active
add_team_member users team_id user_id now = do
  _ ← get_team_ownership team_id
  add_team_member_active users team_id user_id user_id now

unfoldable pub remove_team_member : ℕ → ℕ → Exec TeamDb (Unit {0})
unfolding Members.remove_team_member
remove_team_member team_id user_id = Members.remove_team_member team_id user_id

abbrev may_manage : Claims → Bool
may_manage claims =
    any (λ p. same p "obair:manage") claims.permissions
    || any (λ p. same p "togra:manage") claims.permissions

unfoldable pub check_manage : Option Claims → Result (Unit {0})
check_manage none = err invalid_token
check_manage (some claims) = Errors.fail_if (not (may_manage claims)) forbidden

unfoldable pub enable_team_product : Option Claims → ℕ → String → Exec TeamDb (Unit {0})
unfolding check_manage caller_id Roles.enable_team_product
enable_team_product claims team_id product_slug = do
  lift (check_manage claims)
  admin_id ← lift (caller_id claims)
  Roles.enable_team_product team_id product_slug admin_id

unfoldable pub disable_team_product : Option Claims → ℕ → String → Exec TeamDb (Unit {0})
unfolding check_manage Roles.disable_team_product
disable_team_product claims team_id product_slug = do
  lift (check_manage claims)
  Roles.disable_team_product team_id product_slug

-- The variant of handlers/admin.rs, which checks the roles of "togra" too.
unfoldable pub validate_product_role : String → String → Result (Unit {0})
unfolding trim
validate_product_role product_slug role =
    if same product_slug "obair" || same product_slug "togra"
    then (if not (same role "admin" || same role "lead" || same role "member")
        then err (
            validation (
              "invalid " ++ product_slug ++ " role '" ++ role
              ++ "': must be admin, lead, or member"))
        else ok tt)
    else if is_nil (trim (codes role))
    then err (validation "role must not be empty")
    else ok tt

unfoldable pub assign_member_product_role :
    Option Claims → ℕ → ℕ → String → String → Exec TeamDb (Unit {0})
unfolding caller_id validate_product_role Roles.assign_member_product_role
assign_member_product_role claims team_id user_id product_slug role = do
  admin_id ← lift (caller_id claims)
  lift (validate_product_role product_slug role)
  Roles.assign_member_product_role team_id user_id product_slug role admin_id

unfoldable pub revoke_member_product_role : ℕ → ℕ → String → Exec TeamDb (Unit {0})
unfolding Roles.revoke_member_product_role
revoke_member_product_role team_id user_id product_slug =
    Roles.revoke_member_product_role team_id user_id product_slug

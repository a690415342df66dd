-- ===== src/Users/Handlers.antt =====
-- handlers/users.rs, handlers/profile.rs, and the handlers of handlers/admin.rs on users, roles and
-- permissions, without the e-mails. `starts_with` and `contains` are written out.
use Prim.Native.String.{len}
use ullav_user_management.Prelude.{
  ℕ, ◌+◌, ◌*◌, String, Bool, true, false, not, ◌&&◌, ◌||◌, Option, none, some, [], ◌∷◌, ◌==◌, ltb,
  any, Chars, codes, if◌then◌else◌,
}
use ullav_user_management.Errors
use ullav_user_management.Errors.{Result, ok, err, validation, forbidden, not_found}
use ullav_user_management.Exec.{Exec, gets, pure, lift, fail_if, ◌>>=◌, ◌>>◌}
use ullav_user_management.Accounts.{User, Claims, caller_id, get_user_by_id}
use ullav_user_management.Checks.{resolve_app_url, validate_password}
use ullav_user_management.Words.{trim}
use ullav_user_management.Teams.Organizations.{is_empty}
use ullav_user_management.Teams.Roles.{user_has_product_access}
use ullav_user_management.Users.{UserDb}
use ullav_user_management.Users.Context.{UserContext}
use ullav_user_management.Users.Store.{
  create_user as insert_inactive, admin_create_user, set_confirmation_token, update_user_profile,
  AdminUpdateUserRequest, admin_update_user,
}
use ullav_user_management.Users.Roles.{assign_role}
use ullav_user_management.Users.Roles as Roles

pub record CreateUserRequest : Type 0 where
  pub email : String
  pub username : String
  pub password : String
  pub first_name : Option String
  pub last_name : Option String
  pub app_url : Option String

-- The checks that both registrations make.
unfoldable pub check_registration : CreateUserRequest → Result (Unit {0})
check_registration body = Errors.and_then (validate_password body.password) λ _.
    Errors.and_then
      (Errors.fail_if (is_empty (codes body.email) || not (any (λ c. c == b'@') (codes body.email)))
        (validation "invalid email address"))
      λ _. Errors.fail_if (is_empty (codes body.username)) (validation "username must not be empty")

module _ (context : UserContext) where
  -- The answer holds the confirmation token.
  unfoldable pub create_user : CreateUserRequest → String → ℕ → Exec UserDb String
  create_user body token now = do
    lift (check_registration body)
    base_url ← lift (resolve_app_url body.app_url context.allowed_app_urls context.app_base_url)
    hash ← lift (context.hash_password body.password)
    user ← insert_inactive body.email body.username hash body.first_name body.last_name
    set_confirmation_token user.id token (now + context.confirmation_token_ttl_minutes * 60)
    assign_role user.id "user"
    pure token

  unfoldable pub admin_create : CreateUserRequest → Exec UserDb User
  admin_create body = do
    lift (check_registration body)
    hash ← lift (context.hash_password body.password)
    user ← admin_create_user body.email body.username hash body.first_name body.last_name
    assign_role user.id "user"
    pure user

unfoldable pub get_user_email : Option Claims → ℕ → Exec UserDb String
get_user_email claims target_id = do
  caller ← lift (caller_id claims)
  access ← gets λ db. user_has_product_access caller "cunav" db.teams
  fail_if (not access) forbidden
  users ← gets λ db. db.users
  user ← lift (get_user_by_id users target_id)
  pure user.email

abbrev pub avatar_url_max_len : ℕ
avatar_url_max_len = 2048

abbrev pub starts_with : Chars → Chars → Bool
starts_with [] s = true
starts_with (p ∷ prefix) [] = false
starts_with (p ∷ prefix) (c ∷ s) = p == c && starts_with prefix s

-- `len` counts bytes.
unfoldable pub validate_avatar_url : String → Result (Unit {0})
validate_avatar_url url =
    if not (starts_with (codes "https://") (codes url))
    then err (validation "avatar_url must use HTTPS")
    else if ltb avatar_url_max_len (len url)
    then err (validation "avatar_url must be at most 2048 characters")
    else ok tt

unfoldable pub get_me : Option Claims → Exec UserDb User
get_me claims = do
  user_id ← lift (caller_id claims)
  users ← gets λ db. db.users
  lift (get_user_by_id users user_id)

abbrev pub check_avatar : Option (Option String) → Result (Unit {0})
check_avatar none = ok tt
check_avatar (some none) = ok tt
check_avatar (some (some url)) = validate_avatar_url url

unfoldable pub update_me :
    Option Claims → Option String → Option String → Option (Option String) → Exec UserDb User
update_me claims first_name last_name avatar_url = do
  user_id ← lift (caller_id claims)
  lift (check_avatar avatar_url)
  update_user_profile user_id first_name last_name avatar_url

unfoldable pub update_user : ℕ → AdminUpdateUserRequest → Exec UserDb User
update_user id body = admin_update_user id body

unfoldable pub add_user_role : ℕ → String → Exec UserDb (Unit {0})
add_user_role user_id role_name = assign_role user_id role_name

unfoldable pub remove_user_role : ℕ → String → Exec UserDb (Unit {0})
remove_user_role user_id role_name = Roles.remove_role user_id role_name

-- `trim` is Rust's, on strings.
unfoldable pub create_role : (String → String) → String → Exec UserDb (Unit {0})
create_role trim name = do
  fail_if (is_empty (codes (trim name))) (validation "role name must not be empty")
  Roles.create_role (trim name)

unfoldable pub create_permission : (String → String) → String → Exec UserDb (Unit {0})
create_permission trim name = do
  fail_if (is_empty (codes (trim name))) (validation "permission name must not be empty")
  Roles.create_permission (trim name)

unfoldable pub delete_role : String → Exec UserDb (Unit {0})
delete_role name = Roles.delete_role name

unfoldable pub add_role_permission : String → String → Exec UserDb (Unit {0})
add_role_permission role permission = Roles.add_permission_to_role role permission

unfoldable pub remove_role_permission : String → String → Exec UserDb (Unit {0})
remove_role_permission role permission = Roles.remove_permission_from_role role permission

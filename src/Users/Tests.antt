-- ===== src/Users/Tests.antt =====
-- Runs of the account handlers, and the theorems at concrete tables.
use ullav_user_management.Prelude.{
  ℕ, String, ◌≡◌, ◌≢◌, ◌⊎◌, refl, true, false, none, some, [], ◌∷◌, ◌==◌, same, update_where,
  eq_iff, ap, arith,
}
use ullav_user_management.Errors.{AppError, ok, err, invalid_token, not_found}
use ullav_user_management.Accounts.{User, Claims, get_user_by_id, get_user_by_email}
use ullav_user_management.Checks.{validate_password, resolve_app_url}
use ullav_user_management.Slug.Ascii.{ascii_lower, ascii_laws}
use ullav_user_management.Teams.Organizations.Clann.{InClann, TooLong}
use ullav_user_management.Users.{PasswordResetToken, UserDb}
use ullav_user_management.Users.Context.{UserContext}
use ullav_user_management.Users.Store.{
  get_user_by_confirmation_token, get_reset_token, update_password, consume_reset_token,
  activate_user,
}
use ullav_user_management.Users.Roles.{add_permission_to_role}
use ullav_user_management.Users.Auth.{
  LoginResponse, login, change_password, confirm_password_reset, activate_by_token,
  request_password_reset,
}
use ullav_user_management.Users.Reset.{confirm_password_reset_once, confirm_password_reset-login}
use ullav_user_management.Users.Rights.{Entitled, change_password_cases}
use ullav_user_management.Users.Confirm.{activate_by_token_ends}

abbrev context : UserContext
context = record {
  hash_password = λ password. ok password;
  verify_password = λ password hash. ok (same password hash);
  to_lowercase = ascii_lower;
  token_hash_of = λ raw. raw;
  mint_identity_token = λ db u. ok "jwt";
  allowed_app_urls = [];
  app_base_url = "https://example.org";
  confirmation_token_ttl_minutes = 60;
  reset_token_ttl_minutes = 30;
}

abbrev bob : User
bob = record {
  id = 5;
  email = "bob@example.org";
  username = "bob";
  password_hash = "forgotten";
  is_active = false;
  first_name = some "Bob";
  last_name = none;
  avatar_url = none;
  confirmation_token = some "welcome";
  confirmation_token_expires_at = some 500;
}

abbrev reset_row : PasswordResetToken
reset_row = record { id = 6; user_id = 5; token = "reset"; expires_at = 500; used = false }

abbrev db : UserDb
db = record {
  users = bob ∷ [];
  reset_tokens = reset_row ∷ [];
  roles = "admin" ∷ [];
  permissions = "health:read" ∷ [];
  role_permissions = [];
  user_roles = [];
  products = [];
  subscriptions = [];
  teams = record {
    teams = [];
    organizations = [];
    members = [];
    roles = [];
    member_roles = [];
    product_access = [];
    product_roles = [];
    next_id = 0;
  };
  oauth = record { auth_codes = []; refresh_tokens = []; sessions = [] };
  next_id = 10;
}

-- To grant a permission that the role has is `NotFound`.
granted_twice :
    (add_permission_to_role "admin" "health:read"
      (add_permission_to_role "admin" "health:read" db).1).0
    ≡ err not_found
unfolding add_permission_to_role
granted_twice = refl

-- A login with an unknown address is `NotFound`, not `InvalidCredentials`.
unknown_login : (login context "eve@example.org" "guess" "cookie" 100 db).0 ≡ err not_found
unfolding login get_user_by_email
unknown_login = refl

unknown_reset : request_password_reset context "eve@example.org" none "t" 100 db ≡ (ok tt, db)
unfolding request_password_reset get_user_by_email resolve_app_url
unknown_reset = refl

reset_test : (confirm_password_reset context "reset" "longenough" 100 db).0 ≡ ok tt
unfolding confirm_password_reset get_reset_token update_password consume_reset_token activate_user
    validate_password
reset_test = refl

confirm_password_reset_once_example :
    (confirm_password_reset context "reset" "otherpassword" 200
      (confirm_password_reset context "reset" "longenough" 100 db).1).0
    ≢ ok tt
confirm_password_reset_once_example =
    confirm_password_reset_once context "reset" "longenough" "otherpassword" 100 200 db reset_test

hash_law :
    (password hash : String)
    → context.hash_password password ≡ ok hash
    → context.verify_password password hash ≡ ok true
hash_law password hash h = ap ok (ground (arith, h, eq_iff password hash))

bob_known : get_user_by_email db.users "bob@example.org" ≡ ok bob
unfolding get_user_by_email
bob_known = refl

confirm_password_reset-login_example :
    (r : LoginResponse) × ((login context "bob@example.org" "longenough" "cookie" 200
        (confirm_password_reset context "reset" "longenough" 100 db).1).0
      ≡ ok r)
    × (r.user.id ≡ 5)
confirm_password_reset-login_example =
    confirm_password_reset-login context hash_law (λ d u. ("jwt", refl)) "reset" "longenough"
      "cookie" "bob@example.org" 100 200 bob reset_row db bob_known refl refl reset_test

abbrev bobs_claims : Claims
bobs_claims = record { sub = some 5; permissions = [] }

change_password_cases_example :
    ((e : AppError) × (change_password context
          (some bobs_claims)
          5
          (some "forgotten")
          "longenough"
          db
        ≡ (err e, db)))
    ⊎ ((c : Claims) × (u : User) × (new_hash : String) × (some bobs_claims ≡ some c)
        × (get_user_by_id db.users 5 ≡ ok u)
        × Entitled context c 5 (some "forgotten") u
        × (validate_password "longenough" ≡ ok tt)
        × (ok "longenough" ≡ ok new_hash)
        × (change_password context (some bobs_claims) 5 (some "forgotten") "longenough" db ≡ (
          ok tt,
          record db {
            users =
                update_where (λ v. v.id == 5) (λ v. record v { password_hash = new_hash }) db.users;
          },
        )))
change_password_cases_example =
    change_password_cases context (some bobs_claims) 5 (some "forgotten") "longenough" db

bob_awaited : (get_user_by_confirmation_token "welcome" db).0 ≡ ok bob
unfolding get_user_by_confirmation_token
bob_awaited = refl

confirmed : (activate_by_token context "welcome" 100 db).0 ≡ ok tt
unfolding activate_by_token get_user_by_confirmation_token activate_user
confirmed = refl

activate_by_token_ends_example :
    ((v : User)
      → get_user_by_id (activate_by_token context "welcome" 100 db).1.users 5 ≡ ok v
      → v.is_active ≡ true)
    × (InClann bob (activate_by_token context "welcome" 100 db).1.teams
        ⊎ TooLong context.to_lowercase bob db.teams)
    × ((later : ℕ)
        → (activate_by_token context "welcome" later
            (activate_by_token context "welcome" 100 db).1).0
          ≡ err invalid_token)
activate_by_token_ends_example =
    activate_by_token_ends context ascii_laws "welcome" 100 bob db bob_awaited refl confirmed

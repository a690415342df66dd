-- ===== src/Users.antt =====
-- Accounts: the tables of the migrations 001, 002 and 003, beside those that registration and login
-- reach. The functions of db/mod.rs are in Users/Store.antt and Users/Roles.antt, the handlers of
-- handlers/auth.rs in Users/Auth.antt, those of users.rs, profile.rs and admin.rs in
-- Users/Handlers.antt. A row of `roles` or `permissions` is known by its name, which is unique and is
-- never changed.
pub mod Store
pub mod Roles
pub mod Context
pub mod Auth
pub mod Handlers
pub mod Reset
pub mod Rights
pub mod Confirm
mod Tests
use ullav_user_management.Prelude.{
  ℕ, ◌+◌, String, Bool, true, false, ◌||◌, Option, none, some, List, [], ◌∷◌, ◌==◌, same, any,
  Chars,
}
use ullav_user_management.Errors.{AppError, Result, ok, err}
use ullav_user_management.Exec.{Exec}
use ullav_user_management.Accounts.{User}
use ullav_user_management.Billing.{Product, Subscription, BillingDb}
use ullav_user_management.Oauth.{OauthDb}
use ullav_user_management.Teams.{TeamDb}

-- A row of `password_reset_tokens`.
pub record PasswordResetToken : Type 0 where
  pub id : ℕ
  pub user_id : ℕ
  pub token : String
  pub expires_at : ℕ
  pub used : Bool

pub record UserRole : Type 0 where
  pub user_id : ℕ
  pub role : String

pub record RolePermission : Type 0 where
  pub role : String
  pub permission : String

pub record UserDb : Type 0 where
  pub users : List User
  pub reset_tokens : List PasswordResetToken
  pub roles : List String
  pub permissions : List String
  pub role_permissions : List RolePermission
  pub user_roles : List UserRole
  pub products : List Product
  pub subscriptions : List Subscription
  pub teams : TeamDb
  pub oauth : OauthDb
  pub next_id : ℕ

-- The tables of subscriptions, and what an action on them leaves.
abbrev pub billing_of : UserDb → BillingDb
billing_of db = record {
  users = db.users;
  products = db.products;
  subscriptions = db.subscriptions;
  next_id = db.next_id;
}

abbrev pub with_billing : UserDb → BillingDb → UserDb
with_billing db b = record db { subscriptions = b.subscriptions; next_id = b.next_id }

-- A call whose error is only logged.
abbrev pub ignore_billing : {A : Type 0} → Exec BillingDb A → Exec UserDb (Unit {0})
ignore_billing call db = (ok tt, with_billing db (call (billing_of db)).1)

abbrev pub ignore_teams : {A : Type 0} → Exec TeamDb A → Exec UserDb (Unit {0})
ignore_teams call db = (ok tt, record db { teams = (call db.teams).1 })

abbrev pub ignore_oauth : {A : Type 0} → Exec OauthDb A → Exec UserDb (Unit {0})
ignore_oauth call db = (ok tt, record db { oauth = (call db.oauth).1 })

-- Two users may not share an e-mail address or a username.
abbrev pub rivals : User → User → Bool
rivals u v = same u.email v.email || same u.username v.username

abbrev pub has_id : List User → ℕ → Bool
has_id users id = any (λ u. u.id == id) users

-- ===== src/Accounts.antt =====
-- The `users` table of db/mod.rs with its two queries, and the claims of a request. created_at and
-- updated_at, which nothing tests, are left out.
use ullav_user_management.Prelude.{ℕ, String, Bool, Option, none, some, List, ◌==◌, same, find, any}
use ullav_user_management.Errors.{Result, err, not_found, invalid_token, or_fail}

pub record User : Type 0 where
  pub id : ℕ
  pub email : String
  pub username : String
  pub password_hash : String
  pub is_active : Bool
  pub first_name : Option String
  pub last_name : Option String
  pub avatar_url : Option String
  pub confirmation_token : Option String
  pub confirmation_token_expires_at : Option ℕ

unfoldable pub get_user_by_id : List User → ℕ → Result User
get_user_by_id users id = or_fail (find (λ u. u.id == id) users) not_found

unfoldable pub get_user_by_email : List User → String → Result User
get_user_by_email users email = or_fail (find (λ u. same u.email email) users) not_found

-- A row that a foreign key may refer to.
abbrev pub has_user : List User → ℕ → Bool
has_user users user_id = any (λ u. u.id == user_id) users

-- What handlers read of the JWT: the subject, as `Uuid::parse_str` reads it, and the permissions.
pub record Claims : Type 0 where
  pub sub : Option ℕ
  pub permissions : List String

-- `claims_from_req` and then `Uuid::parse_str(&claims.sub)`.
unfoldable pub caller_id : Option Claims → Result ℕ
caller_id none = err invalid_token
caller_id (some claims) = or_fail claims.sub invalid_token

-- ===== src/Users/Context.antt =====
-- What the handlers of accounts take from outside: Argon2, which hashes with a random salt, and Rust's
-- `to_lowercase`; from other parts: the outcome of `build_identity_claims` and `create_jwt_rs256`; and
-- the part of `AppState` that they read.
use ullav_user_management.Prelude.{ℕ, String, Bool, List, Chars}
use ullav_user_management.Errors.{Result}
use ullav_user_management.Accounts.{User}
use ullav_user_management.Users.{UserDb}

pub record UserContext : Type 0 where
  pub hash_password : String → Result String
  -- The password, then the hash.
  pub verify_password : String → String → Result Bool
  pub to_lowercase : Chars → Chars
  pub token_hash_of : String → String
  pub mint_identity_token : UserDb → User → Result String
  pub allowed_app_urls : List String
  pub app_base_url : String
  pub confirmation_token_ttl_minutes : ℕ
  pub reset_token_ttl_minutes : ℕ

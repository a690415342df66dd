-- ===== src/Oauth.antt =====
-- The OAuth2 server: the tables of migration 019 with the functions of db/oauth2.rs on authorization
-- codes, refresh tokens and sessions. The code grant of handlers/oauth2.rs is in Oauth/Grants.antt.
-- A token is known by its hash. `now` is the clock of the statement, in seconds.
pub mod Grants
pub mod Replay
pub mod Redirects
pub mod Clients
pub mod Denials
pub mod Service
pub mod Scopes
pub mod Refresh
pub mod Authorize
pub mod Rotation
mod Tests
use ullav_user_management.Prelude.{
  ℕ, ◌+◌, ◌*◌, String, Bool, true, false, not, ◌&&◌, Option, none, some, List, [], ◌∷◌, same, ltb,
  any, find, select, update_where,
}
use ullav_user_management.Errors.{database, invalid_token}
use ullav_user_management.Exec.{Exec, pure, gets, modify, fail_if, or_fail, ◌>>=◌, ◌>>◌}

-- A row of `oauth2_auth_codes`.
pub record AuthCode : Type 0 where
  pub code : String
  pub client_id : String
  pub user_id : ℕ
  pub redirect_uri : String
  pub scope : String
  pub resource : String
  pub code_challenge : String
  pub expires_at : ℕ
  pub used_at : Option ℕ

-- A row of `oauth2_refresh_tokens`.
pub record RefreshToken : Type 0 where
  pub token_hash : String
  pub client_id : String
  pub user_id : ℕ
  pub scope : String
  pub resource : String
  pub expires_at : ℕ
  pub rotated_at : Option ℕ

-- A row of `user_sessions`.
pub record UserSession : Type 0 where
  pub token_hash : String
  pub user_id : ℕ
  pub expires_at : ℕ

pub record OauthDb : Type 0 where
  pub auth_codes : List AuthCode
  pub refresh_tokens : List RefreshToken
  pub sessions : List UserSession

abbrev pub is_null : Option ℕ → Bool
is_null none = true
is_null (some t) = false

-- `code` is the primary key. The client and the user exist: the handler read them.
unfoldable pub create_auth_code :
    String → String → ℕ → String → String → String → String → ℕ → ℕ → Exec OauthDb (Unit {0})
create_auth_code code client_id user_id redirect_uri scope resource code_challenge ttl_minutes now =
    do
      taken ← gets λ db. any (λ c. same c.code code) db.auth_codes
      fail_if taken (database "unique_violation")
      modify λ db. record db {
        auth_codes =
            record {
              code = code;
              client_id = client_id;
              user_id = user_id;
              redirect_uri = redirect_uri;
              scope = scope;
              resource = resource;
              code_challenge = code_challenge;
              expires_at = now + ttl_minutes * 60;
              used_at = none;
            }
            ∷ db.auth_codes;
      }

-- The WHERE of the update: the code, unused and not expired.
abbrev pub is_usable : ℕ → String → AuthCode → Bool
is_usable now code c = same c.code code && is_null c.used_at && ltb now c.expires_at

unfoldable pub consume_auth_code : ℕ → String → Exec OauthDb AuthCode
consume_auth_code now code = do
  row ← gets λ db. find (is_usable now code) db.auth_codes
  modify λ db. record db {
    auth_codes =
        update_where (is_usable now code) (λ c. record c { used_at = some now }) db.auth_codes;
  }
  or_fail row invalid_token

-- `token_hash` is the primary key.
unfoldable pub create_refresh_token :
    String → String → ℕ → String → String → ℕ → ℕ → Exec OauthDb (Unit {0})
create_refresh_token token_hash client_id user_id scope resource ttl_days now = do
  taken ← gets λ db. any (λ t. same t.token_hash token_hash) db.refresh_tokens
  fail_if taken (database "unique_violation")
  modify λ db. record db {
    refresh_tokens =
        record {
          token_hash = token_hash;
          client_id = client_id;
          user_id = user_id;
          scope = scope;
          resource = resource;
          expires_at = now + ttl_days * 86400;
          rotated_at = none;
        }
        ∷ db.refresh_tokens;
  }

abbrev pub is_current : ℕ → String → RefreshToken → Bool
is_current now token_hash t =
    same t.token_hash token_hash && is_null t.rotated_at && ltb now t.expires_at

unfoldable pub rotate_refresh_token : ℕ → String → Exec OauthDb RefreshToken
rotate_refresh_token now token_hash = do
  row ← gets λ db. find (is_current now token_hash) db.refresh_tokens
  modify λ db. record db {
    refresh_tokens =
        update_where (is_current now token_hash) (λ t. record t { rotated_at = some now })
          db.refresh_tokens;
  }
  or_fail row invalid_token

abbrev pub is_unrotated : String → RefreshToken → Bool
is_unrotated token_hash t = same t.token_hash token_hash && is_null t.rotated_at

-- Also an expired token is marked; no row to mark is no error.
unfoldable pub revoke_refresh_token : ℕ → String → Exec OauthDb (Unit {0})
revoke_refresh_token now token_hash = modify λ db. record db {
  refresh_tokens =
      update_where (is_unrotated token_hash) (λ t. record t { rotated_at = some now })
        db.refresh_tokens;
}

unfoldable pub create_user_session : String → ℕ → ℕ → ℕ → Exec OauthDb (Unit {0})
create_user_session token_hash user_id ttl_days now = do
  taken ← gets λ db. any (λ s. same s.token_hash token_hash) db.sessions
  fail_if taken (database "unique_violation")
  modify λ db. record db {
    sessions =
        record { token_hash = token_hash; user_id = user_id; expires_at = now + ttl_days * 86400 }
        ∷ db.sessions;
  }

abbrev pub is_live : ℕ → String → UserSession → Bool
is_live now token_hash s = same s.token_hash token_hash && ltb now s.expires_at

unfoldable pub get_user_session : ℕ → String → Exec OauthDb UserSession
get_user_session now token_hash = do
  row ← gets λ db. find (is_live now token_hash) db.sessions
  or_fail row invalid_token

unfoldable pub delete_user_session : String → Exec OauthDb (Unit {0})
delete_user_session token_hash =
    modify
      λ db. record db { sessions = select (λ s. not (same s.token_hash token_hash)) db.sessions }

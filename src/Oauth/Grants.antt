-- ===== src/Oauth/Grants.antt =====
-- handlers/oauth2.rs: the match of redirect URIs and the grant for an authorization code. The random
-- refresh token is an argument, as are the hash, the PKCE digest, the `url` crate's parser and the
-- outcome of `mint_access_token`. The audit log, whose failure is ignored, is left out.
use ullav_user_management.Prelude.{
  ℕ, String, Bool, false, not, ◌&&◌, ◌||◌, Option, none, some, List, [], ◌∷◌, same, any,
  if◌then◌else◌,
}
use ullav_user_management.Errors.{Result, invalid_token, validation}
use ullav_user_management.Exec.{Exec, pure, lift, fail_if, or_fail, ◌>>=◌, ◌>>◌}
use ullav_user_management.Accounts.{User, get_user_by_id}
use ullav_user_management.Oauth.{AuthCode, OauthDb, consume_auth_code, create_refresh_token}

-- What the code reads of a parsed `Url`.
pub record Url : Type 0 where
  pub scheme : String
  pub host : Option String
  pub path : String

abbrev pub is_local_host : Option String → Bool
is_local_host none = false
is_local_host (some host) = same host "localhost" || same host "127.0.0.1"

abbrev pub is_loopback : Url → Bool
is_loopback url = same url.scheme "http" && is_local_host url.host

abbrev pub matches_loopback : Url → Option Url → Bool
matches_loopback requested none = false
matches_loopback requested (some registered) =
    is_loopback registered && same registered.path requested.path

module _ (parse_url : String → Option Url) where
  -- One round of the loop: a registered URI that the request may use.
  abbrev pub matches_registered : String → Url → String → Bool
  matches_registered requested url registered =
      if is_loopback url
      then matches_loopback url (parse_url registered)
      else same url.scheme "https" && same registered requested

  abbrev pub matches_any : List String → String → Option Url → Bool
  matches_any client_uris requested none = false
  matches_any client_uris requested (some url) = any (matches_registered requested url) client_uris

  unfoldable pub redirect_uri_allowed : List String → String → Bool
  redirect_uri_allowed client_uris requested =
      matches_any client_uris requested (parse_url requested)

abbrev pub refresh_token_ttl_days : ℕ
refresh_token_ttl_days = 30

-- The fields of `TokenForm` that the grant reads.
pub record TokenForm : Type 0 where
  pub code : Option String
  pub redirect_uri : Option String
  pub client_id : Option String
  pub code_verifier : Option String

pub record TokenResponse : Type 0 where
  pub access_token : String
  pub scope : String
  pub refresh_token : String

-- What the grant takes from outside.
pub record GrantContext : Type 0 where
  pub parse_url : String → Option Url
  pub challenge_of : String → String
  pub token_hash_of : String → String
  pub mint_access_token : User → AuthCode → Result String

module _ (context : GrantContext) (users : List User) where
  unfoldable pub auth_code_grant : TokenForm → String → ℕ → Exec OauthDb TokenResponse
  unfolding consume_auth_code redirect_uri_allowed get_user_by_id create_refresh_token
  auth_code_grant form refresh_raw now = do
    code ← or_fail form.code (validation "code required")
    redirect_uri ← or_fail form.redirect_uri (validation "redirect_uri required")
    client_id ← or_fail form.client_id (validation "client_id required")
    verifier ← or_fail form.code_verifier (validation "code_verifier required")
    auth_code ← consume_auth_code now code
    fail_if (not (same auth_code.client_id client_id)) invalid_token
    fail_if
        (not (redirect_uri_allowed context.parse_url (auth_code.redirect_uri ∷ []) redirect_uri))
        (validation "redirect_uri does not match the one used in the authorization request")
    fail_if (not (same (context.challenge_of verifier) auth_code.code_challenge)) invalid_token
    user ← lift (get_user_by_id users auth_code.user_id)
    access_token ← lift (context.mint_access_token user auth_code)
    create_refresh_token (context.token_hash_of refresh_raw) client_id user.id auth_code.scope
        auth_code.resource refresh_token_ttl_days now
    pure (record {
      access_token = access_token;
      scope = auth_code.scope;
      refresh_token = refresh_raw;
    })

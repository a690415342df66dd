-- ===== src/Oauth/Tests.antt =====
-- Runs of the grants, and the theorems at concrete tables.
use ullav_user_management.Prelude.{
  ◌≡◌, ◌≢◌, ◌<◌, ◌↔◌, refl, true, Option, none, some, List, [], ◌∷◌, arith, same, String, Any,
  Chars, codes, Mem, ◌⊎◌, false, if◌then◌else◌,
}
use ullav_user_management.Errors.{ok, err, invalid_token}
use ullav_user_management.Accounts.{User, get_user_by_id}
use ullav_user_management.Oauth.{
  AuthCode, RefreshToken, OauthDb, consume_auth_code, create_refresh_token, rotate_refresh_token,
  revoke_refresh_token,
}
use ullav_user_management.Oauth.Grants.{
  Url, TokenForm, TokenResponse, GrantContext, redirect_uri_allowed, auth_code_grant,
}
use ullav_user_management.Oauth.Replay.{
  consume_auth_code_once, rotate_refresh_token_once, auth_code_grant_checked, auth_code_grant_once,
}
use ullav_user_management.Words.{split_whitespace, join}
use ullav_user_management.Teams.{TeamDb, active}
use ullav_user_management.Teams.Roles.{user_has_product_access}
use ullav_user_management.Oauth.Clients.{Client, ServiceClient, get_service_client}
use ullav_user_management.Oauth.Service.{
  ServiceContext, ServiceToken, ResourceUrl, resource_to_product_gate, client_credentials_grant,
}
use ullav_user_management.Oauth.Scopes.{client_credentials_grant_scope}
use ullav_user_management.Oauth.Refresh.{RefreshContext, refresh_token_grant}
use ullav_user_management.Oauth.Rotation.{refresh_token_grant_once, refresh_token_grant_checked}
use ullav_user_management.Oauth.Redirects.{Admits, redirect_uri_allowed_iff}

abbrev callback : Url
callback = record { scheme = "http"; host = some "localhost"; path = "/callback" }

-- A parser that knows one URI with two ports.
abbrev parse_url : String → Option Url
parse_url s =
    if same s "http://localhost/callback"
    then some callback
    else if same s "http://localhost:3000/callback"
    then some callback
    else none

abbrev context : GrantContext
context = record {
  parse_url = parse_url;
  challenge_of = λ s. s;
  token_hash_of = λ s. s;
  mint_access_token = λ user code. ok "access";
}

abbrev users : List User
users =
    record {
      id = 7;
      email = "b@example.org";
      username = "b";
      password_hash = "h";
      is_active = true;
      first_name = none;
      last_name = none;
      avatar_url = none;
      confirmation_token = none;
      confirmation_token_expires_at = none;
    }
    ∷ []

abbrev issued : AuthCode
issued = record {
  code = "c";
  client_id = "app";
  user_id = 7;
  redirect_uri = "http://localhost/callback";
  scope = "openid";
  resource = "https://example.org/mcp";
  code_challenge = "v";
  expires_at = 700;
  used_at = none;
}

abbrev tables : OauthDb
tables = record {
  auth_codes = issued ∷ [];
  refresh_tokens =
      record {
        token_hash = "r";
        client_id = "app";
        user_id = 7;
        scope = "openid";
        resource = "https://example.org/togra/mcp";
        expires_at = 900;
        rotated_at = none;
      }
      ∷ [];
  sessions = [];
}

abbrev form : TokenForm
form = record {
  code = some "c";
  redirect_uri = some "http://localhost:3000/callback";
  client_id = some "app";
  code_verifier = some "v";
}

abbrev response : TokenResponse
response = record { access_token = "access"; scope = "openid"; refresh_token = "new" }

grant_test : (auth_code_grant context users form "new" 200 tables).0 ≡ ok response
unfolding auth_code_grant consume_auth_code create_refresh_token redirect_uri_allowed get_user_by_id
grant_test = refl

consumed_twice_test :
    (consume_auth_code 300 "c" (consume_auth_code 200 "c" tables).1).0 ≡ err invalid_token
consumed_twice_test = consume_auth_code_once 200 300 "c" tables (omega arith)

rotate_refresh_token_once_example :
    ((rotate_refresh_token 300 "r" (rotate_refresh_token 200 "r" tables).1).0 ≡ err invalid_token)
    × ((rotate_refresh_token 300 "r" (revoke_refresh_token 200 "r" tables).1).0 ≡ err invalid_token)
rotate_refresh_token_once_example = rotate_refresh_token_once 200 300 "r" tables (omega arith)

auth_code_grant_checked_example :
    (issued.client_id ≡ "app")
    × (redirect_uri_allowed context.parse_url
          (issued.redirect_uri ∷ [])
          "http://localhost:3000/callback"
        ≡ true)
    × (context.challenge_of "v" ≡ issued.code_challenge)
    × (200 < issued.expires_at)
    × (issued.used_at ≡ none)
auth_code_grant_checked_example =
    auth_code_grant_checked context users form "c" "http://localhost:3000/callback" "app" "v" refl
      refl refl refl "new" 200 tables issued response refl grant_test

auth_code_grant_once_example :
    (auth_code_grant context users form "other" 300
      (auth_code_grant context users form "new" 200 tables).1).0
    ≢ ok response
auth_code_grant_once_example =
    auth_code_grant_once context users form "c" "http://localhost:3000/callback" "app" "v" refl refl
      refl refl "new" 200 300 tables (omega arith) form "other" refl response

redirect_uri_allowed_iff_example :
    (redirect_uri_allowed parse_url
        ("http://localhost/callback" ∷ [])
        "http://localhost:3000/callback"
      ≡ true)
    ↔ Any
        (Admits parse_url "http://localhost:3000/callback" callback)
        ("http://localhost/callback" ∷ [])
redirect_uri_allowed_iff_example =
    redirect_uri_allowed_iff parse_url "http://localhost:3000/callback" callback
      ("http://localhost/callback" ∷ []) refl

-- A team of the user with the product of `/togra/mcp`.
abbrev teams : TeamDb
teams = record {
  teams = [];
  organizations = [];
  members =
      record {
        id = 3;
        team_id = 0;
        user_id = 7;
        status = active;
        invited_by = none;
        invite_token = none;
        invite_token_expires_at = none;
        invited_at = 100;
        joined_at = some 100;
      }
      ∷ [];
  roles = [];
  member_roles = [];
  product_access = record { team_id = 0; product_slug = "obair"; granted_by = some 1 } ∷ [];
  product_roles = [];
  next_id = 4;
}

abbrev togra : String
togra = "https://example.org/togra/mcp"

abbrev parse_resource : String → Option ResourceUrl
parse_resource s =
    if same s togra
    then some (record { host = some (codes "example.org"); port = none; path = "/togra/mcp" })
    else none

abbrev service_context : ServiceContext
service_context = record {
  parse_resource = parse_resource;
  to_lowercase = λ s. s;
  verify_password = λ password hash. ok (same password hash);
  debug = λ s. s;
  mint_access_token = λ user scope resource client. ok "access";
}

abbrev clients : List Client
clients =
    record {
      client_id = "svc";
      client_name = "Service";
      redirect_uris = [];
      allowed_scopes = codes "repo:read" ∷ [];
      first_party = false;
      registered_by = none;
      client_secret_hash = some "secret";
      service_account_user_id = some 7;
    }
    ∷ []

abbrev service_token : ServiceToken
service_token = record { access_token = "access"; scope = codes "repo:read obair:tools" }

client_credentials_test :
    client_credentials_grant service_context clients users teams
      (some "svc")
      (some "secret")
      (some togra)
      (some (codes "admin repo:read"))
    ≡ ok service_token
unfolding client_credentials_grant get_service_client get_user_by_id user_has_product_access
    resource_to_product_gate split_whitespace join
client_credentials_test = refl

client_credentials_grant_scope_example :
    (c : ServiceClient) × (get_service_client clients "svc" ≡ ok c)
    × (service_context.verify_password "secret" c.client_secret_hash ≡ ok true)
    × ((w : Chars)
        → Mem w (split_whitespace service_token.scope)
        → Mem w c.allowed_scopes
          ⊎ ((product : String) × (resource_to_product_gate service_context togra
                ≡ some (product, w))
              × (user_has_product_access c.service_account_user_id product teams ≡ true)))
client_credentials_grant_scope_example =
    client_credentials_grant_scope service_context clients users teams "svc" "secret" togra
      (some (codes "admin repo:read")) service_token client_credentials_test

abbrev refresh_context : RefreshContext
refresh_context = record {
  gate = service_context;
  token_hash_of = λ s. s;
  mint_access_token = λ user token. ok "access";
}

abbrev refreshed_response : TokenResponse
refreshed_response = record { access_token = "access"; scope = "openid"; refresh_token = "new" }

refresh_test :
    (refresh_token_grant refresh_context users teams (some "r") (some "app") "new" 200 tables).0
    ≡ ok refreshed_response
unfolding refresh_token_grant rotate_refresh_token create_refresh_token get_user_by_id
    resource_to_product_gate user_has_product_access
refresh_test = refl

refresh_token_grant_once_example :
    (refresh_token_grant refresh_context users teams
      (some "r")
      (some "other")
      "again"
      300
      (refresh_token_grant refresh_context users teams
        (some "r")
        (some "app")
        "new"
        200
        tables).1).0
    ≢ ok refreshed_response
refresh_token_grant_once_example =
    refresh_token_grant_once refresh_context users teams "r" "app" "new" "other" "again" 200 300
      tables refreshed_response (omega arith) refresh_test refreshed_response

refresh_token_grant_checked_example :
    (t : RefreshToken) × Mem t tables.refresh_tokens
    × (t.token_hash ≡ "r")
    × (t.rotated_at ≡ none)
    × (200 < t.expires_at)
    × (t.client_id ≡ "app")
    × ((product : String) (scope : Chars)
        → resource_to_product_gate service_context t.resource ≡ some (product, scope)
        → user_has_product_access t.user_id product teams ≡ true)
refresh_token_grant_checked_example =
    refresh_token_grant_checked refresh_context users teams "r" "app" "new" 200 tables
      refreshed_response refresh_test

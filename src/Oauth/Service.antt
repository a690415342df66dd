-- ===== src/Oauth/Service.antt =====
-- handlers/oauth2.rs: the product of a resource, and the grant for client credentials. The `url`
-- crate's parser, Rust's `to_lowercase`, Argon2 and the outcome of `mint_access_token` are arguments.
-- The audit log, whose failure is ignored, is left out.
use ullav_user_management.Prelude.{
  ℕ, String, Bool, true, false, not, ◌&&◌, ◌||◌, Option, none, some, List, [], ◌∷◌, ◌++◌, ◌==◌,
  same, any, select, if◌then◌else◌, Chars, codes, same_chars,
}
use ullav_user_management.Errors.{
  Result, ok, err, invalid_token, validation, oauth2, or_fail, fail_if, ◌>>=◌, ◌>>◌,
}
use ullav_user_management.Accounts.{User, get_user_by_id}
use ullav_user_management.Words.{split_whitespace, join}
use ullav_user_management.Teams.{TeamDb}
use ullav_user_management.Teams.Roles.{user_has_product_access}
use ullav_user_management.Oauth.Denials.{service_denial}
use ullav_user_management.Oauth.Clients.{Client, ServiceClient, get_service_client}

-- What the gate reads of a parsed `Url`.
pub record ResourceUrl : Type 0 where
  pub host : Option Chars
  pub port : Option ℕ
  pub path : String

pub record ServiceContext : Type 0 where
  pub parse_resource : String → Option ResourceUrl
  pub to_lowercase : Chars → Chars
  -- The password, then the hash.
  pub verify_password : String → String → Result Bool
  -- A text as `{:?}` shows it.
  pub debug : String → String
  -- The user, the scope, the resource, the client.
  pub mint_access_token : User → Chars → String → String → Result String

abbrev pub starts_with : Chars → Chars → Bool
starts_with [] s = true
starts_with (p ∷ prefix) [] = false
starts_with (p ∷ prefix) (c ∷ s) = p == c && starts_with prefix s

-- `contains`
abbrev pub contains : Chars → Chars → Bool
contains word [] = starts_with word []
contains word (c ∷ s) = starts_with word (c ∷ s) || contains word s

abbrev pub is_port : ℕ → Option ℕ → Bool
is_port n none = false
is_port n (some p) = p == n

abbrev pub host_or_empty : Option Chars → Chars
host_or_empty none = []
host_or_empty (some host) = host

-- The product of a resource and its scope, by the path, the host and the port.
abbrev pub product_gate : Chars → Option ℕ → String → Option (String × Chars)
product_gate host port path =
    if same path "/cunav/mcp" || contains (codes "cunav") host
    then some ("cunav", codes "cunav:tools")
    else if same path "/togra/mcp"
    then some ("obair", codes "obair:tools")
    else if not (same path "/mcp")
    then none
    else if contains (codes "comad") host || contains (codes "dam") host || is_port 8080 port
    then some ("comad", codes "dam:tools")
    else if contains (codes "tack") host
    then some ("tack", codes "tack:tools")
    else if contains (codes "collection") host || is_port 8087 port
    then some ("collection", codes "collection:tools")
    else some ("obair", codes "obair:tools")

abbrev pub is_empty : Chars → Bool
is_empty [] = true
is_empty (c ∷ s) = false

abbrev pub with_scope : Chars → Chars → Chars
with_scope scope product_scope =
    if any (λ s. same_chars s product_scope) (split_whitespace scope)
    then scope
    else if is_empty scope
    then product_scope
    else scope ++ 0x20 ∷ product_scope

-- The requested scopes that the client may have.
abbrev pub granted_scopes : List Chars → Chars → List Chars
granted_scopes allowed_scopes requested =
    select (λ s. any (λ a. same_chars a s) allowed_scopes) (split_whitespace requested)

abbrev pub text_or_empty : Option Chars → Chars
text_or_empty none = []
text_or_empty (some s) = s

pub record ServiceToken : Type 0 where
  pub access_token : String
  pub scope : Chars

module _ (context : ServiceContext) where
  abbrev pub gate_of : Option ResourceUrl → Option (String × Chars)
  gate_of none = none
  gate_of (some url) =
      product_gate (context.to_lowercase (host_or_empty url.host)) url.port url.path

  unfoldable pub resource_to_product_gate : String → Option (String × Chars)
  resource_to_product_gate resource = gate_of (context.parse_resource resource)

  -- With a gate, the account must have the product, and its scope is added.
  abbrev pub gated : TeamDb → String → ℕ → Chars → Option (String × Chars) → Result Chars
  gated teams client_id user_id scope none = ok scope
  gated teams client_id user_id scope (some (product_slug, product_scope)) =
      if user_has_product_access user_id product_slug teams
      then ok (with_scope scope product_scope)
      else err (oauth2 (service_denial (context.debug client_id) product_slug))

  -- `.map_err(|_| AppError::InvalidToken)`
  abbrev pub or_invalid : Result ServiceClient → Result ServiceClient
  or_invalid (ok client) = ok client
  or_invalid (err e) = err invalid_token

  unfoldable pub client_credentials_grant :
      List Client
      → List User
      → TeamDb
      → Option String
      → Option String
      → Option String
      → Option Chars
      → Result ServiceToken
  client_credentials_grant clients users teams form_client_id form_secret form_resource form_scope =
      or_fail form_client_id (validation "client_id required") >>= λ client_id.
      or_fail form_secret (validation "client_secret required") >>= λ client_secret.
      or_fail form_resource (validation "resource is required (RFC 8707)") >>= λ resource.
      or_invalid (get_service_client clients client_id) >>= λ client.
      context.verify_password client_secret client.client_secret_hash >>= λ valid.
      fail_if (not valid) invalid_token
      >> (gated teams client_id client.service_account_user_id
            (join (granted_scopes client.allowed_scopes (text_or_empty form_scope)))
            (resource_to_product_gate resource)
          >>= λ scope. get_user_by_id users client.service_account_user_id >>= λ user.
              context.mint_access_token user scope resource client_id >>= λ token.
              ok (record { access_token = token; scope = scope }))

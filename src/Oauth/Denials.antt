-- ===== src/Oauth/Denials.antt =====
-- handlers/oauth2.rs: the messages of a refusal at the gate of a product.
use Prim.Native.String.{◌++◌}
use ullav_user_management.Prelude.{String}

-- In build_code_redirect.
abbrev pub login_denial : String → String
login_denial product_slug =
    "access_denied: your account does not have access to the \"" ++ product_slug ++ "\" product"

-- In client_credentials_grant, with the client in the format of `{:?}`.
abbrev pub service_denial : String → String → String
service_denial client_id product_slug =
    "access_denied: service account for client " ++ client_id ++ " does not have access to the \""
    ++ product_slug ++ "\" product"

-- In refresh_token_grant.
abbrev pub refresh_denial : String → String
refresh_denial product_slug =
    "access_denied: user no longer has access to the \"" ++ product_slug ++ "\" product"

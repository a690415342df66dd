-- ===== src/Oauth/Authorize.antt =====
-- handlers/oauth2.rs: the checks of an authorization request, and the code that it ends with. The
-- random code is an argument.
use ullav_user_management.Prelude.{
  ℕ, String, not, Option, none, some, ◌∷◌, ◌++◌, same, if◌then◌else◌, Chars, codes,
}
use ullav_user_management.Errors.{Result, ok, err, validation, oauth2, fail_if, ◌>>◌}
use ullav_user_management.Teams.{TeamDb}
use ullav_user_management.Teams.Roles.{user_has_product_access}
use ullav_user_management.Oauth.Denials.{login_denial}
use ullav_user_management.Oauth.Service.{ServiceContext, resource_to_product_gate}

-- The fields that the checks and the code read.
pub record AuthorizeParams : Type 0 where
  pub response_type : String
  pub client_id : String
  pub redirect_uri : String
  pub scope : Option Chars
  pub code_challenge : String
  pub code_challenge_method : String
  pub resource : String

unfoldable pub validate_authorize_params : AuthorizeParams → Result (Unit {0})
validate_authorize_params p =
    fail_if (not (same p.response_type "code")) (validation "response_type must be 'code'")
    >> (fail_if (not (same p.code_challenge_method "S256"))
          (validation "code_challenge_method must be 'S256'")
        >> (fail_if (same p.code_challenge "") (validation "code_challenge is required")
            >> fail_if (same p.resource "") (validation "resource is required (RFC 8707)")))

abbrev pub base_scope : Option Chars → Chars
base_scope none = codes "mcp:tools"
base_scope (some scope) = scope

-- The scope of the code: the product's scope is added to the requested one, for a user with the product.
abbrev pub gated_scope : TeamDb → ℕ → Chars → Option (String × Chars) → Result Chars
gated_scope teams user_id scope none = ok scope
gated_scope teams user_id scope (some (product_slug, product_scope)) =
    if user_has_product_access user_id product_slug teams
    then ok (scope ++ 0x20 ∷ product_scope)
    else err (oauth2 (login_denial product_slug))

unfoldable pub code_scope : ServiceContext → TeamDb → ℕ → AuthorizeParams → Result Chars
code_scope context teams user_id params =
    gated_scope teams user_id (base_scope params.scope)
      (resource_to_product_gate context params.resource)

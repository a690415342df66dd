-- ===== src/Oauth/Refresh.antt =====
-- handlers/oauth2.rs: the grant for a refresh token, and the revocation. The new random token, the hash
-- and the outcome of `mint_access_token` are arguments. The audit log, whose failure is ignored, is
-- left out.
use ullav_user_management.Prelude.{
  ℕ, String, not, Option, none, some, List, same, if◌then◌else◌, Chars,
}
use ullav_user_management.Errors.{Result, ok, err, invalid_token, validation, oauth2}
use ullav_user_management.Exec.{Exec, pure, lift, fail_if, or_fail, ◌>>=◌, ◌>>◌}
use ullav_user_management.Accounts.{User, get_user_by_id}
use ullav_user_management.Teams.{TeamDb}
use ullav_user_management.Teams.Roles.{user_has_product_access}
use ullav_user_management.Oauth.{
  RefreshToken, OauthDb, rotate_refresh_token, create_refresh_token, revoke_refresh_token,
}
use ullav_user_management.Oauth.Grants.{TokenResponse, refresh_token_ttl_days}
use ullav_user_management.Oauth.Denials.{refresh_denial}
use ullav_user_management.Oauth.Service.{ServiceContext, resource_to_product_gate}

-- What the grant takes from outside; the URL parser is that of the gate.
pub record RefreshContext : Type 0 where
  pub gate : ServiceContext
  pub token_hash_of : String → String
  pub mint_access_token : User → RefreshToken → Result String

-- The user must still have the product of the resource.
abbrev pub check_gate : TeamDb → ℕ → Option (String × Chars) → Result (Unit {0})
check_gate teams user_id none = ok tt
check_gate teams user_id (some (product_slug, product_scope)) =
    if user_has_product_access user_id product_slug teams
    then ok tt
    else err (oauth2 (refresh_denial product_slug))

module _ (context : RefreshContext) (users : List User) (teams : TeamDb) where
  -- After the rotation.
  abbrev pub refreshed : String → String → ℕ → RefreshToken → Exec OauthDb TokenResponse
  refreshed client_id new_raw now old = do
    fail_if (not (same old.client_id client_id)) invalid_token
    lift (check_gate teams old.user_id (resource_to_product_gate context.gate old.resource))
    user ← lift (get_user_by_id users old.user_id)
    access_token ← lift (context.mint_access_token user old)
    create_refresh_token (context.token_hash_of new_raw) client_id user.id old.scope old.resource
        refresh_token_ttl_days now
    pure (record { access_token = access_token; scope = old.scope; refresh_token = new_raw })

  unfoldable pub refresh_token_grant :
      Option String → Option String → String → ℕ → Exec OauthDb TokenResponse
  refresh_token_grant form_refresh_token form_client_id new_raw now = do
    raw ← or_fail form_refresh_token (validation "refresh_token required")
    client_id ← or_fail form_client_id (validation "client_id required")
    old ← rotate_refresh_token now (context.token_hash_of raw)
    refreshed client_id new_raw now old

  -- Always 200.
  unfoldable pub revoke : String → ℕ → OauthDb → ℕ × OauthDb
  revoke token now db = (200, (revoke_refresh_token now (context.token_hash_of token) db).1)

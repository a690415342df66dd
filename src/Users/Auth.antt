-- ===== src/Users/Auth.antt =====
-- handlers/auth.rs: login, passwords and the confirmation of e-mail addresses, without the e-mails.
-- A generated token or cookie is an argument. `claims.sub` is the printed UUID of a user.
use ullav_user_management.Prelude.{
  ℕ, String, Bool, true, false, not, ◌&&◌, ◌||◌, Option, none, some, ◌==◌, same, ltb, any, Chars,
  codes,
}
use ullav_user_management.Prelude.Int.{pos}
use ullav_user_management.Errors
use ullav_user_management.Errors.{
  Result, ok, err, validation, forbidden, invalid_token, invalid_credentials, not_found,
}
use ullav_user_management.Exec.{Exec, gets, pure, lift, fail_if, or_fail, ◌>>=◌, ◌>>◌}
use ullav_user_management.Accounts.{User, Claims, caller_id, get_user_by_id, get_user_by_email}
use ullav_user_management.Checks.{resolve_app_url, validate_password}
use ullav_user_management.Billing.Store.{admin_create_subscription}
use ullav_user_management.Oauth.{create_user_session}
use ullav_user_management.Teams.Organizations.{ensure_clann_team}
use ullav_user_management.Users.{UserDb, ignore_billing, ignore_teams, ignore_oauth}
use ullav_user_management.Users.Context.{UserContext}
use ullav_user_management.Users.Store.{
  update_password, create_reset_token, get_reset_token, consume_reset_token,
  get_user_by_confirmation_token, activate_user,
}

-- The token and the user of the answer.
pub record LoginResponse : Type 0 where
  pub token : String
  pub user : User

module _ (context : UserContext) where
  unfoldable pub login : String → String → String → ℕ → Exec UserDb LoginResponse
  login email password session_raw now = do
    users ← gets λ db. db.users
    user ← lift (get_user_by_email users email)
    fail_if (not user.is_active) invalid_credentials
    valid ← lift (context.verify_password password user.password_hash)
    fail_if (not valid) invalid_credentials
    minted ← gets λ db. context.mint_identity_token db user
    token ← lift minted
    ignore_oauth (create_user_session (context.token_hash_of session_raw) user.id 30 now)
    pure (record { token = token; user = user })

  unfoldable pub refresh : Option Claims → Exec UserDb LoginResponse
  refresh claims = do
    user_id ← lift (caller_id claims)
    users ← gets λ db. db.users
    user ← lift (get_user_by_id users user_id)
    minted ← gets λ db. context.mint_identity_token db user
    token ← lift minted
    pure (record { token = token; user = user })

  abbrev pub is_sub : ℕ → Option ℕ → Bool
  is_sub user_id none = false
  is_sub user_id (some sub) = sub == user_id

  abbrev pub is_admin : Claims → Bool
  is_admin claims = any (λ p. same p "users:change_any_password") claims.permissions

  -- The owner of the account gives the current password.
  abbrev pub check_current : Bool → Option String → String → Result (Unit {0})
  check_current false current_password password_hash = ok tt
  check_current true none password_hash = err (validation "current_password is required")
  check_current true (some current) password_hash =
      Errors.and_then (context.verify_password current password_hash)
        λ valid. Errors.fail_if (not valid) invalid_credentials

  unfoldable pub change_password :
      Option Claims → ℕ → Option String → String → Exec UserDb (Unit {0})
  change_password claims user_id current_password new_password = do
    claims ← or_fail claims invalid_token
    fail_if (not (is_sub user_id claims.sub) && not (is_admin claims)) forbidden
    lift (validate_password new_password)
    users ← gets λ db. db.users
    user ← lift (get_user_by_id users user_id)
    lift (check_current (is_sub user_id claims.sub) current_password user.password_hash)
    new_hash ← lift (context.hash_password new_password)
    update_password user_id new_hash

  abbrev pub issue_reset_token : Result User → String → ℕ → Exec UserDb (Unit {0})
  issue_reset_token (err unknown) token now = pure tt
  issue_reset_token (ok user) token now =
      create_reset_token user.id token context.reset_token_ttl_minutes now

  unfoldable pub request_password_reset :
      String → Option String → String → ℕ → Exec UserDb (Unit {0})
  request_password_reset email app_url token now = do
    base_url ← lift (resolve_app_url app_url context.allowed_app_urls context.app_base_url)
    users ← gets λ db. db.users
    issue_reset_token (get_user_by_email users email) token now

  -- The default subscription of a product; a conflict and any other error are passed over.
  abbrev pub provision_product : User → Chars → Exec UserDb (Unit {0})
  provision_product user product =
      ignore_billing
        (admin_create_subscription user.id product (codes "individual") (codes "active") (pos 1))

  abbrev pub activate_and_provision : User → ℕ → Bool → Exec UserDb (Unit {0})
  activate_and_provision user now true = pure tt
  activate_and_provision user now false = do
    activate_user user.id
    provision_product user (codes "clann")
    provision_product user (codes "comad")
    users ← gets λ db. db.users
    ignore_teams (ensure_clann_team context.to_lowercase users now user)

  unfoldable pub activate_by_token : String → ℕ → Exec UserDb (Unit {0})
  activate_by_token token now = do
    user ← get_user_by_confirmation_token token
    expires_at ← or_fail user.confirmation_token_expires_at invalid_token
    fail_if (ltb expires_at now) invalid_token
    activate_and_provision user now user.is_active

  unfoldable pub confirm_password_reset : String → String → ℕ → Exec UserDb (Unit {0})
  confirm_password_reset token new_password now = do
    lift (validate_password new_password)
    row ← get_reset_token token
    fail_if (row.used || ltb row.expires_at now) invalid_token
    new_hash ← lift (context.hash_password new_password)
    update_password row.user_id new_hash
    consume_reset_token token
    activate_user row.user_id

-- ===== src/Checks.antt =====
-- The request checks that stand on their own: utils/app_url.rs, `check_service_secret` of
-- utils/mod.rs, `validate_git_scopes` of models/mod.rs, `validate_ttl_secs` of handlers/pat.rs,
-- `validate_password` of utils/password.rs and `validate_product_role` of handlers/teams.rs.
pub mod Laws
mod Tests
use Prim.Native.String.{◌++◌, len}
use ullav_user_management.Prelude.{
  ℕ, ◌*◌, String, Bool, true, false, not, ◌&&◌, ◌||◌, Option, none, some, List, [], ◌∷◌, ltb, leb,
  same, if◌then◌else◌, any, codes,
}
use ullav_user_management.Errors.{Result, ok, err, validation, forbidden, ◌>>=◌, ◌>>◌}
use ullav_user_management.Prelude.Int.{ℤ, le_nat}
use ullav_user_management.Words.{trim}

abbrev pub is_nil {ℓ} : {A : Type ℓ} → List A → Bool
is_nil [] = true
is_nil (x ∷ xs) = false

-- The caller's URL is used only if an allowlist is configured and holds it.
unfoldable pub resolve_app_url : Option String → List String → String → Result String
resolve_app_url none allowed fallback = ok fallback
resolve_app_url (some url) allowed fallback =
    if not (is_nil allowed)
    then (if any (λ a. same a url) allowed
        then ok url
        else err (validation ("app_url '" ++ url ++ "' is not in the list of allowed URLs")))
    else ok fallback

unfoldable pub check_service_secret : Option String → Option String → Result (Unit {0})
check_service_secret none provided = ok tt
check_service_secret (some expected) none = err forbidden
check_service_secret (some expected) (some got) = if same expected got then ok tt else err forbidden

abbrev pub valid_git_scopes : List String
valid_git_scopes = "repo:read" ∷ "repo:write" ∷ []

-- The scope check `VALID_GIT_SCOPES.contains`.
abbrev pub is_git_scope : String → Bool
is_git_scope s = any (λ v. same v s) valid_git_scopes

-- The loop returns at the first scope that is not valid; `quote` is Rust's `{s:?}`.
pub check_scopes : (String → String) → List String → Result (Unit {0})
check_scopes quote [] = ok tt
check_scopes quote (s ∷ scopes) =
    let rest = check_scopes quote scopes in
    if not (is_git_scope s)
    then err (
        validation
          ("invalid scope " ++ quote s ++ " — must be one of [\"repo:read\", \"repo:write\"]"))
    else rest

abbrev pub or_default : Option (List String) → List String
or_default none = valid_git_scopes
or_default (some scopes) = scopes

-- The callers turn the message into `AppError::Validation`.
unfoldable pub validate_git_scopes : (String → String) → Option (List String) → Result (List String)
unfolding check_scopes
validate_git_scopes quote requested =
    let scopes = or_default requested in
    if is_nil scopes
    then err (
        validation
          "scopes must not be empty — omit the field entirely for the default (full access)")
    else (do check_scopes quote scopes; ok scopes)

-- Six hours, in seconds.
abbrev pub max_ephemeral_pat_ttl_secs : ℕ
max_ephemeral_pat_ttl_secs = 6 * 3600

unfoldable pub validate_ttl_secs : ℤ → Result (Unit {0})
validate_ttl_secs ttl_secs =
    if le_nat ttl_secs 0 || not (le_nat ttl_secs max_ephemeral_pat_ttl_secs)
    then err (validation "ttl_secs must be between 1 and 21600")
    else ok tt

-- `len` counts bytes.
unfoldable pub validate_password : String → Result (Unit {0})
validate_password password =
    if ltb (len password) 8
    then err (validation "password must be at least 8 characters")
    else ok tt

-- `role` is one of the three roles of the product "obair"; other products take any role that is
-- not blank.
unfoldable pub validate_product_role : String → String → Result (Unit {0})
validate_product_role product_slug role =
    if same product_slug "obair"
    then (if not (same role "admin" || same role "lead" || same role "member")
        then err
            (validation ("invalid obair role '" ++ role ++ "': must be admin, lead, or member"))
        else ok tt)
    else if is_nil (trim (codes role))
    then err (validation "role must not be empty")
    else ok tt

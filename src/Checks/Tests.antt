-- ===== src/Checks/Tests.antt =====
-- The checks at the inputs of the unit tests, and the theorems at concrete requests.
use Prim.Native.String.{◌++◌}
use ullav_user_management.Prelude.{
  ◌≡◌, ◌≢◌, refl, ◌↔◌, ◌⊎◌, ◌≤◌, String, Option, none, some, List, [], ◌∷◌, All, Any,
}
use ullav_user_management.Prelude.Int.{pos, negsuc, magnitude}
use ullav_user_management.Errors.{ok, err, validation}
use ullav_user_management.Checks.{
  resolve_app_url, check_service_secret, or_default, validate_git_scopes, validate_ttl_secs,
  max_ephemeral_pat_ttl_secs, validate_password, validate_product_role,
}
use ullav_user_management.Words.{trim}
use ullav_user_management.Checks.Laws.{
  IsGitScope, resolve_app_url_iff, check_service_secret_iff, validate_git_scopes_iff,
  validate_ttl_secs_iff,
}

abbrev quote : String → String
quote s = "\"" ++ s ++ "\""

app_url_tests :
    (resolve_app_url none [] "https://default" ≡ ok "https://default")
    × (resolve_app_url (some "https://evil") [] "https://default" ≡ ok "https://default")
    × (resolve_app_url (some "https://b") ("https://a" ∷ "https://b" ∷ []) "https://default"
        ≡ ok "https://b")
    × (resolve_app_url (some "https://a.evil") ("https://a" ∷ []) "https://default"
        ≡ err (validation "app_url 'https://a.evil' is not in the list of allowed URLs"))
unfolding resolve_app_url
app_url_tests = (refl, refl, refl, refl)

scope_tests :
    (validate_git_scopes quote none ≡ ok ("repo:read" ∷ "repo:write" ∷ []))
    × (validate_git_scopes quote (some ("admin" ∷ []))
        ≡ err
            (validation "invalid scope \"admin\" — must be one of [\"repo:read\", \"repo:write\"]"))
unfolding validate_git_scopes
scope_tests = (refl, refl)

ttl_tests :
    (validate_ttl_secs (pos 0) ≡ err (validation "ttl_secs must be between 1 and 21600"))
    × (validate_ttl_secs (negsuc 0) ≡ err (validation "ttl_secs must be between 1 and 21600"))
    × (validate_ttl_secs (pos 21601) ≡ err (validation "ttl_secs must be between 1 and 21600"))
    × (validate_ttl_secs (pos 21600) ≡ ok tt)
unfolding validate_ttl_secs
ttl_tests = (refl, refl, refl, refl)

other_tests :
    (validate_password "1234567" ≡ err (validation "password must be at least 8 characters"))
    × (validate_password "12345678" ≡ ok tt)
    × (validate_product_role "obair" "lead" ≡ ok tt)
    × (validate_product_role "cunav" "  " ≡ err (validation "role must not be empty"))
unfolding validate_password validate_product_role trim
other_tests = (refl, refl, refl, refl)

abbrev app_url : String
app_url = "https://b"

abbrev listed : List String
listed = app_url ∷ []

abbrev secret : Option String
secret = some "s3cret"

resolve_app_url_iff_example : (resolve_app_url (some app_url) listed "https://d" ≡ ok app_url) ↔ (
    ((some app_url ≡ none) ⊎ (listed ≡ [])) × (app_url ≡ "https://d")
    ⊎ (some app_url ≡ some app_url) × Any (λ a. a ≡ app_url) listed)
resolve_app_url_iff_example = resolve_app_url_iff (some app_url) listed "https://d" app_url

check_service_secret_iff_test :
    (check_service_secret secret secret ≡ ok tt) ↔ ((secret ≡ none) ⊎ (secret ≡ secret))
check_service_secret_iff_test = check_service_secret_iff secret secret

abbrev read_only : List String
read_only = "repo:read" ∷ []

validate_git_scopes_iff_test :
    (validate_git_scopes quote (some read_only) ≡ ok read_only)
    ↔ ((or_default (some read_only) ≡ read_only) × (read_only ≢ []) × All IsGitScope read_only)
validate_git_scopes_iff_test = validate_git_scopes_iff quote (some read_only) read_only

validate_ttl_secs_iff_test :
    (validate_ttl_secs (pos 1800) ≡ ok tt)
    ↔ ((1 ≤ magnitude (pos 1800)) × (magnitude (pos 1800) ≤ max_ephemeral_pat_ttl_secs))
validate_ttl_secs_iff_test = validate_ttl_secs_iff (pos 1800)

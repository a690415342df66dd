-- ===== src/Checks/Laws.antt =====
-- When each check accepts, and with what.
use ullav_user_management.Prelude.{
  ◌≤◌, String, ◌≡◌, ◌≢◌, refl, ap, ◌↔◌, ◌⊎◌, true, Option, none, some, List, [], ◌∷◌, arith, eq_iff,
  same, any, All, Any,
}
use ullav_user_management.Prelude.Int.{ℤ, pos, negsuc, magnitude}
use ullav_user_management.Errors.{Result, ok, err, ◌>>=◌}
use ullav_user_management.Checks.{
  resolve_app_url, check_service_secret, is_git_scope, valid_git_scopes, check_scopes, or_default,
  validate_git_scopes, max_ephemeral_pat_ttl_secs, validate_ttl_secs,
}

any-same_iff :
    (x : String) (xs : List String) → (any (λ a. same a x) xs ≡ true) ↔ Any (λ a. a ≡ x) xs
any-same_iff x [] = ground arith
any-same_iff x (y ∷ xs) = ground (arith, eq_iff y x, any-same_iff x xs)

-- The base URL of an email link is the configured one, unless the caller asked for a URL that a
-- configured allowlist holds; a request for another URL is refused if there is an allowlist.
pub resolve_app_url_iff :
    (requested : Option String) (allowed : List String) (fallback url : String)
    → (resolve_app_url requested allowed fallback ≡ ok url) ↔ (
        ((requested ≡ none) ⊎ (allowed ≡ [])) × (url ≡ fallback)
        ⊎ (requested ≡ some url) × Any (λ a. a ≡ url) allowed)
unfolding resolve_app_url
resolve_app_url_iff none allowed fallback url = ground arith
resolve_app_url_iff (some r) [] fallback url = ground arith
resolve_app_url_iff (some r) (a ∷ allowed) fallback url =
    ground (arith, any-same_iff r (a ∷ allowed), any-same_iff url (a ∷ allowed))

-- A call of an internal endpoint passes exactly when no secret is configured, or the caller sent it.
pub check_service_secret_iff :
    (configured provided : Option String)
    → (check_service_secret configured provided ≡ ok tt)
      ↔ ((configured ≡ none) ⊎ (configured ≡ provided))
unfolding check_service_secret
check_service_secret_iff none provided = ground arith
check_service_secret_iff (some expected) none = ground arith
check_service_secret_iff (some expected) (some got) = ground (arith, eq_iff expected got)

abbrev pub IsGitScope : String → Type 0
IsGitScope s = (s ≡ "repo:read") ⊎ (s ≡ "repo:write")

is_git_scope_iff : (s : String) → (is_git_scope s ≡ true) ↔ IsGitScope s
is_git_scope_iff s = ground (arith, eq_iff "repo:read" s, eq_iff "repo:write" s)

check_scopes_iff :
    (quote : String → String) (scopes : List String)
    → (check_scopes quote scopes ≡ ok tt) ↔ All IsGitScope scopes
unfolding check_scopes
check_scopes_iff quote [] = ground arith
check_scopes_iff quote (s ∷ scopes) =
    ground (arith, is_git_scope_iff s, check_scopes_iff quote scopes)

check_scopes-all :
    (quote : String → String) (xs scopes : List String)
    → xs ≢ []
    → ((check_scopes quote xs >>= λ _. ok xs) ≡ ok scopes)
      ↔ ((xs ≡ scopes) × (scopes ≢ []) × All IsGitScope scopes)
check_scopes-all quote xs scopes n =
    (forth, λ h. rw ((check_scopes_iff quote xs).1 (rw (← h.0) at h.2)) (ap ok h.0))
  where
    inverse : (r : Result (Unit {0})) → (r >>= λ _. ok xs) ≡ ok scopes → (r ≡ ok tt) × (xs ≡ scopes)
    inverse (ok tt) e = (refl, ground arith)
    inverse (err e') e = cc

    forth :
        (check_scopes quote xs >>= λ _. ok xs) ≡ ok scopes
        → (xs ≡ scopes) × (scopes ≢ []) × All IsGitScope scopes
    forth e =
        let (passed, eq) = inverse (check_scopes quote xs) e in
        (eq, rw (← eq) n, rw (← eq) ((check_scopes_iff quote xs).0 passed))

-- A scope list is granted as requested, or in full if none is requested, exactly when it is not
-- empty and every scope in it is "repo:read" or "repo:write".
pub validate_git_scopes_iff :
    (quote : String → String) (requested : Option (List String)) (scopes : List String)
    → (validate_git_scopes quote requested ≡ ok scopes)
      ↔ ((or_default requested ≡ scopes) × (scopes ≢ []) × All IsGitScope scopes)
unfolding validate_git_scopes
validate_git_scopes_iff quote none scopes =
    check_scopes-all quote valid_git_scopes scopes (λ e. cc e)
validate_git_scopes_iff quote (some []) scopes = ground arith
validate_git_scopes_iff quote (some (s ∷ r)) scopes =
    check_scopes-all quote (s ∷ r) scopes (λ e. cc e)

-- A lifetime is accepted exactly when it is at least one second and at most six hours.
pub validate_ttl_secs_iff :
    (ttl : ℤ)
    → (validate_ttl_secs ttl ≡ ok tt)
      ↔ ((1 ≤ magnitude ttl) × (magnitude ttl ≤ max_ephemeral_pat_ttl_secs))
unfolding validate_ttl_secs
validate_ttl_secs_iff (pos n) = ground arith
validate_ttl_secs_iff (negsuc n) = ground arith

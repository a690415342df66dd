-- ===== src/Pat/Handlers.antt =====
-- handlers/pat.rs. The random token, its hash, the outcome of `build_identity_claims` and
-- `create_git_access_jwt`, chrono's sum of days and the format of `{:?}` are arguments.
use Prim.Native.String.{◌++◌}
use ullav_user_management.Prelude.{
  ℕ, zero, suc, ◌+◌, String, Option, none, some, List, [], ◌∷◌, Chars, codes, if◌then◌else◌,
}
use ullav_user_management.Prelude.Int.{ℤ, le_nat, magnitude}
use ullav_user_management.Errors.{Result, ok, err, validation}
use ullav_user_management.Exec.{Exec, pure, lift, fail_if, ◌>>=◌, ◌>>◌}
use ullav_user_management.Accounts.{User, Claims, caller_id, get_user_by_id}
use ullav_user_management.Words.{trim}
use ullav_user_management.Checks.{
  is_nil, check_service_secret, validate_git_scopes, validate_ttl_secs,
}
use ullav_user_management.Pat.{
  Pat, PatDb, create_pat, create_ephemeral_pat, revoke_pat, get_active_pat_by_hash,
  touch_pat_last_used,
}

pub record PatContext : Type 0 where
  pub quote : String → String
  pub token_hash_of : Chars → String
  pub days_after : ℕ → ℕ → Result ℕ
  -- The user, the resource, the scopes in one text, the repository.
  pub create_git_access_jwt : User → String → String → Option ℕ → Result String
  pub git_service_shared_secret : Option String

pub record CreatePatRequest : Type 0 where
  pub name : Chars
  pub scopes : Option (List String)
  pub expires_in_days : Option ℤ

pub record MintEphemeralPatRequest : Type 0 where
  pub user_id : ℕ
  pub repo_id : ℕ
  pub scopes : Option (List String)
  pub ttl_secs : ℤ

pub record MintEphemeralPatResponse : Type 0 where
  pub token : Chars
  pub expires_at : ℕ

abbrev pub token_prefix : Chars
token_prefix = codes "lgn_pat_"

-- `chars().take(n)`
abbrev pub take : ℕ → Chars → Chars
take zero s = []
take (suc n) [] = []
take (suc n) (c ∷ s) = c ∷ take n s

abbrev pub append : Chars → Chars → Chars
append [] s = s
append (c ∷ p) s = c ∷ append p s

abbrev pub token_of : Chars → Chars
token_of raw = append token_prefix raw

-- `join(" ")`
abbrev pub join_scopes : List String → String
join_scopes [] = ""
join_scopes (s ∷ []) = s
join_scopes (s ∷ (t ∷ scopes)) = s ++ " " ++ join_scopes (t ∷ scopes)

abbrev pub positive_days : Option ℤ → Result (Option ℕ)
positive_days none = ok none
positive_days (some days) =
    if le_nat days 0
    then err (validation "expires_in_days must be positive")
    else ok (some (magnitude days))

-- An ephemeral token only reads, unless the request says otherwise.
abbrev pub or_read : Option (List String) → List String
or_read none = "repo:read" ∷ []
or_read (some scopes) = scopes

module _ (context : PatContext) (users : List User) where
  -- The response is read from the new row, with the token.
  unfoldable pub create_pat_handler :
      Option Claims → CreatePatRequest → Chars → ℕ → Exec PatDb (Chars × Pat)
  create_pat_handler claims body raw now = do
    user_id ← lift (caller_id claims)
    fail_if (is_nil (trim body.name)) (validation "name must not be empty")
    scopes ← lift (validate_git_scopes context.quote body.scopes)
    days ← lift (positive_days body.expires_in_days)
    pat ←
        create_pat context.days_after users user_id (trim body.name)
          (context.token_hash_of (token_of raw)) (take 12 (token_of raw)) scopes days now
    pure (token_of raw, pat)

  unfoldable pub revoke_pat_handler : Option Claims → ℕ → ℕ → Exec PatDb (Unit {0})
  revoke_pat_handler claims id now = do user_id ← lift (caller_id claims); revoke_pat now user_id id

  -- The token of the response.
  unfoldable pub exchange : Option String → Chars → String → ℕ → Exec PatDb String
  exchange secret credential resource now = do
    lift (check_service_secret context.git_service_shared_secret secret)
    fail_if (is_nil (trim (codes resource))) (validation "resource is required (RFC 8707)")
    resolved ← get_active_pat_by_hash now (context.token_hash_of credential)
    touch_pat_last_used now resolved.id
    user ← lift (get_user_by_id users resolved.user_id)
    lift
        (context.create_git_access_jwt user resource (join_scopes resolved.scopes) resolved.repo_id)

  unfoldable pub mint_ephemeral :
      Option String → MintEphemeralPatRequest → Chars → ℕ → Exec PatDb MintEphemeralPatResponse
  mint_ephemeral secret body raw now = do
    lift (check_service_secret context.git_service_shared_secret secret)
    lift (validate_ttl_secs body.ttl_secs)
    scopes ← lift (validate_git_scopes context.quote (some (or_read body.scopes)))
    lift (get_user_by_id users body.user_id)
    create_ephemeral_pat users body.user_id body.repo_id (context.token_hash_of (token_of raw))
        (take 12 (token_of raw)) scopes (now + magnitude body.ttl_secs) now
    pure (record { token = token_of raw; expires_at = now + magnitude body.ttl_secs })

-- A request with what it brings.
pub data PatRequest : Type 0 where
  create : Option Claims → CreatePatRequest → Chars → PatRequest
  revoke : Option Claims → ℕ → PatRequest
  exchange_token : Option String → Chars → String → PatRequest
  mint : Option String → MintEphemeralPatRequest → Chars → PatRequest

module _ (context : PatContext) (users : List User) where
  -- The tables after a request at a time.
  abbrev pub serve : ℕ → PatRequest → PatDb → PatDb
  serve now (create claims body raw) db =
      (create_pat_handler context users claims body raw now db).1
  serve now (revoke claims id) db = (revoke_pat_handler context users claims id now db).1
  serve now (exchange_token secret credential resource) db =
      (exchange context users secret credential resource now db).1
  serve now (mint secret body raw) db = (mint_ephemeral context users secret body raw now db).1

  abbrev pub serve_all : List (ℕ × PatRequest) → PatDb → PatDb
  serve_all [] db = db
  serve_all ((now, request) ∷ requests) db = serve_all requests (serve now request db)

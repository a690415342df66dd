-- ===== src/Pat/Tests.antt =====
-- Runs of the token handlers, and the theorems at concrete tables.
use Prim.Native.String.{◌++◌}
use ullav_user_management.Prelude.{
  ℕ, ltb, false, ◌+◌, ◌*◌, ◌≡◌, ◌≢◌, ◌≤◌, ◌<◌, refl, true, false, String, Option, none, some, List,
  [], ◌∷◌, inl, arith, Chars, codes, same_chars, if◌then◌else◌,
}
use ullav_user_management.Prelude.Int.{pos}
use ullav_user_management.Errors.{invalid_token, ok, err, conflict}
use ullav_user_management.Accounts.{User, Claims, caller_id, get_user_by_id}
use ullav_user_management.Words.{trim}
use ullav_user_management.Checks.{
  is_nil, check_service_secret, validate_git_scopes, validate_ttl_secs,
}
use ullav_user_management.Pat.{
  Pat, PatDb, create_pat, create_ephemeral_pat, get_active_pat_by_hash, touch_pat_last_used,
}
use ullav_user_management.Pat.Handlers.{
  PatContext, CreatePatRequest, MintEphemeralPatRequest, MintEphemeralPatResponse, join_scopes,
  create_pat_handler, revoke_pat_handler, exchange, mint_ephemeral, PatRequest, serve_all,
  exchange_token, revoke,
}
use ullav_user_management.Pat.Revoked.{revoke_pat_handler_ends}
use ullav_user_management.Pat.Exchange.{since, mint_ephemeral-exchange, mint_ephemeral_ends}

abbrev text_of : Chars → String
text_of s = if same_chars s (codes "lgn_pat_abcdef") then "h1" else "h2"

abbrev context : PatContext
context = record {
  quote = λ s. s;
  token_hash_of = text_of;
  days_after = λ now days. ok (now + days * 86400);
  create_git_access_jwt = λ user resource scopes repo. ok (resource ++ " " ++ scopes);
  git_service_shared_secret = some "secret";
}

abbrev owner : User
owner = record {
  id = 7;
  email = "b@example.org";
  username = "b";
  password_hash = "h";
  is_active = true;
  first_name = none;
  last_name = none;
  avatar_url = none;
  confirmation_token = none;
  confirmation_token_expires_at = none;
}

abbrev users : List User
users = owner ∷ []

abbrev claims : Option Claims
claims = some (record { sub = some 7; permissions = [] })

abbrev laptop : CreatePatRequest
laptop = record { name = codes " laptop "; scopes = none; expires_in_days = some (pos 1) }

abbrev row : Pat
row = record {
  id = 0;
  user_id = 7;
  name = codes "laptop";
  token_hash = "h1";
  token_prefix = codes "lgn_pat_abcd";
  scopes = "repo:read" ∷ "repo:write" ∷ [];
  expires_at = some 86500;
  last_used_at = none;
  created_at = 100;
  revoked_at = none;
  repo_id = none;
}

abbrev tables : PatDb
tables = record { pats = row ∷ []; next_id = 1 }

create_test :
    create_pat_handler context users claims laptop
      (codes "abcdef")
      100
      (record { pats = []; next_id = 0 })
    ≡ (ok (codes "lgn_pat_abcdef", row), tables)
unfolding create_pat_handler caller_id trim validate_git_scopes create_pat
create_test = refl

same_token_test :
    (create_pat_handler context users claims laptop (codes "abcdef") 200 tables).0 ≡ err conflict
unfolding create_pat_handler caller_id trim validate_git_scopes create_pat
same_token_test = refl

exchange_test :
    (exchange context users (some "secret") (codes "lgn_pat_abcdef") "lagan" 200 tables).0
    ≡ ok "lagan repo:read repo:write"
unfolding exchange check_service_secret trim get_active_pat_by_hash touch_pat_last_used
    get_user_by_id
exchange_test = refl

caller_test : caller_id claims ≡ ok 7
unfolding caller_id
caller_test = refl

revoke_pat_handler_ends_example :
    ((revoke_pat_handler context users claims 0 200 tables).0 ≡ ok tt)
    × ((requests : List (ℕ × PatRequest)) (secret : Option String) (credential : Chars)
          (resource : String) (later : ℕ) (token : String)
        → text_of credential ≡ "h1"
        → (exchange context users secret credential resource later (
            serve_all context users requests
              (revoke_pat_handler context users claims 0 200 tables).1)).0
          ≢ ok token)
revoke_pat_handler_ends_example =
    revoke_pat_handler_ends context users claims 7 0 200 tables row refl caller_test (inl refl) refl

abbrev run : MintEphemeralPatRequest
run = record { user_id = 7; repo_id = 40; scopes = none; ttl_secs = pos 1800 }

abbrev response : MintEphemeralPatResponse
response = record { token = codes "lgn_pat_run"; expires_at = 2000 }

mint_test :
    (mint_ephemeral context users (some "secret") run (codes "run") 200 tables).0 ≡ ok response
unfolding mint_ephemeral check_service_secret validate_ttl_secs validate_git_scopes get_user_by_id
    create_ephemeral_pat
mint_test = refl

-- Meanwhile the token is used, and another token is revoked.
abbrev meanwhile : List (ℕ × PatRequest)
meanwhile =
    (300, exchange_token (some "secret") (codes "lgn_pat_run") "lagan")
    ∷ (400, revoke claims 0)
    ∷ []

service_test : check_service_secret context.git_service_shared_secret (some "secret") ≡ ok tt
unfolding check_service_secret
service_test = refl

owner_test : get_user_by_id users 7 ≡ ok owner
unfolding get_user_by_id
owner_test = refl

resource_test : is_nil (trim (codes "lagan")) ≡ false
unfolding trim
resource_test = refl

mint_ephemeral-exchange_example :
    (scopes : List String) × (validate_git_scopes context.quote (some ("repo:read" ∷ []))
      ≡ ok scopes)
    × (200 < response.expires_at)
    × (response.expires_at ≤ 200 + 21600)
    × ((exchange context users
          (some "secret")
          response.token
          "lagan"
          1999
          (since context users (some "secret") run (codes "run") 200 tables users meanwhile)).0
        ≡ (if ltb 1999 response.expires_at
            then context.create_git_access_jwt owner "lagan" (join_scopes scopes) (some 40)
            else err invalid_token))
mint_ephemeral-exchange_example =
    mint_ephemeral-exchange context users (some "secret") run (codes "run") 200 tables users
      meanwhile users (some "secret") "lagan" 1999 response owner mint_test
      (tt, ((λ e. absurd (omega (arith, e))), tt)) service_test owner_test resource_test

mint_ephemeral_ends_example :
    (exchange context users
      (some "secret")
      response.token
      "lagan"
      2000
      (since context users (some "secret") run (codes "run") 200 tables users meanwhile)).0
    ≢ ok "lagan repo:read"
mint_ephemeral_ends_example =
    mint_ephemeral_ends context users (some "secret") run (codes "run") 200 tables users meanwhile
      users (some "secret") "lagan" 2000 response "lagan repo:read" mint_test (omega arith)

-- ===== src/Pat/Kept.antt =====
-- What each statement on the tokens keeps, each request keeps: handlers/pat.rs.
use ullav_user_management.Prelude.{
  ℕ, ◌+◌, String, inl, inr, Option, some, List, [], ◌∷◌, All, find, Option-cases, Chars, codes,
}
use ullav_user_management.Errors.{validation}
use ullav_user_management.Exec.{pure}
use ullav_user_management.Exec.Keeps.{after-guard, after-lift, after-then}
use ullav_user_management.Accounts.{User, Claims, caller_id, get_user_by_id}
use ullav_user_management.Words.{trim}
use ullav_user_management.Checks.{
  is_nil, check_service_secret, validate_git_scopes, validate_ttl_secs,
}
use ullav_user_management.Pat.{
  PatDb, NewPat, insert_pat, create_pat, expiry_of, create_ephemeral_pat, lasting, ephemeral,
  revoke_pat, is_live, get_active_pat_by_hash, touch_pat_last_used,
}
use ullav_user_management.Prelude.Int.{magnitude}
use ullav_user_management.Pat.Handlers.{
  PatContext, CreatePatRequest, MintEphemeralPatRequest, token_of, take, positive_days, or_read,
  create_pat_handler, revoke_pat_handler, exchange, mint_ephemeral, PatRequest, create, revoke,
  exchange_token, mint, serve, serve_all,
}

-- The requests that revoke only rows with an identifier that may be revoked.
abbrev pub Allowed : (ℕ → Type 0) → PatRequest → Type 0
Allowed May (revoke claims id) = May id
Allowed May _ = Unit

abbrev pub Free : ℕ → Type 0
Free id = Unit

pub any_requests : (requests : List (ℕ × PatRequest)) → All (λ r. Allowed Free r.1) requests
any_requests [] = tt
any_requests ((now, create claims body raw) ∷ requests) = (tt, any_requests requests)
any_requests ((now, revoke claims id) ∷ requests) = (tt, any_requests requests)
any_requests ((now, exchange_token secret credential resource) ∷ requests) =
    (tt, any_requests requests)
any_requests ((now, mint secret body raw) ∷ requests) = (tt, any_requests requests)

-- What holds of the tables after any allowed request, where the three statements keep it.
pub record IsKept (users : List User) (May : ℕ → Type 0) (P : PatDb → Type 0) : Type 0 where
  pub after_insert :
      (new : NewPat) (now : ℕ) (db : PatDb) → P db → P (insert_pat users new now db).1
  pub after_revoke :
      (now user_id id : ℕ) (db : PatDb) → May id → P db → P (revoke_pat now user_id id db).1
  pub after_touch : (now id : ℕ) (db : PatDb) → P db → P (touch_pat_last_used now id db).1

module _ (context : PatContext) (users : List User) (May : ℕ → Type 0) (P : PatDb → Type 0)
    (k : IsKept users May P) where
  create-kept :
      (claims : Option Claims) (body : CreatePatRequest) (raw : Chars) (now : ℕ) (db : PatDb)
      → P db
      → P (create_pat_handler context users claims body raw now db).1
  unfolding create_pat_handler create_pat
  create-kept claims body raw now db h = after-lift P (caller_id claims) _ db h λ user_id _.
      after-guard P (is_nil (trim body.name)) (validation "name must not be empty") _ db h λ _.
        after-lift P (validate_git_scopes context.quote body.scopes) _ db h λ scopes _.
          after-lift P (positive_days body.expires_in_days) _ db h λ days _.
            after-then P
              (create_pat context.days_after users user_id (trim body.name)
                (context.token_hash_of (token_of raw)) (take 12 (token_of raw)) scopes days now)
              (λ pat. pure (token_of raw, pat)) db
              (after-lift P (expiry_of (context.days_after now) days) _ db h λ expires_at _.
                k.after_insert
                  (lasting user_id (trim body.name) (context.token_hash_of (token_of raw))
                    (take 12 (token_of raw)) scopes expires_at)
                  now db h)
              λ _ _ l. l

  exchange-kept :
      (secret : Option String) (credential : Chars) (resource : String) (now : ℕ) (db : PatDb)
      → P db
      → P (exchange context users secret credential resource now db).1
  unfolding exchange get_active_pat_by_hash
  exchange-kept secret credential resource now db h =
      after-lift P (check_service_secret context.git_service_shared_secret secret) _ db h λ _ _.
        after-guard P (is_nil (trim (codes resource)))
          (validation "resource is required (RFC 8707)") _ db h
          λ _. elim (Option-cases (find (is_live now (context.token_hash_of credential)) db.pats)) [
            | inl e ↦ rw e h
            | inr (p, e) ↦ rw e (
                after-then P (touch_pat_last_used now p.id) _ db (k.after_touch now p.id db h)
                  λ _ t l. after-lift P (get_user_by_id users p.user_id) _ t l λ user _. l)
          ]

  abbrev minted : MintEphemeralPatRequest → Chars → List String → ℕ → NewPat
  minted body token scopes now =
      ephemeral body.user_id body.repo_id (context.token_hash_of token) (take 12 token) scopes
        (now + magnitude body.ttl_secs)

  mint-kept :
      (secret : Option String) (body : MintEphemeralPatRequest) (raw : Chars) (now : ℕ) (db : PatDb)
      → P db
      → P (mint_ephemeral context users secret body raw now db).1
  unfolding mint_ephemeral create_ephemeral_pat
  mint-kept secret body raw now db h =
      after-lift P (check_service_secret context.git_service_shared_secret secret) _ db h λ _ _.
        after-lift P (validate_ttl_secs body.ttl_secs) _ db h λ _ _.
          after-lift P (validate_git_scopes context.quote (some (or_read body.scopes))) _ db h
            λ scopes _. after-lift P (get_user_by_id users body.user_id) _ db h λ user _.
              after-then P (insert_pat users (minted body (token_of raw) scopes now) now)
                (λ _.
                  pure
                    (record { token = token_of raw; expires_at = now + magnitude body.ttl_secs }))
                db (k.after_insert (minted body (token_of raw) scopes now) now db h) λ _ _ l. l

  serve-kept :
      (now : ℕ) (request : PatRequest) (db : PatDb)
      → Allowed May request
      → P db
      → P (serve context users now request db)
  unfolding revoke_pat_handler
  serve-kept now (create claims body raw) db a h = create-kept claims body raw now db h
  serve-kept now (revoke claims id) db a h =
      after-lift P (caller_id claims) _ db h λ user_id _. k.after_revoke now user_id id db a h
  serve-kept now (exchange_token secret credential resource) db a h =
      exchange-kept secret credential resource now db h
  serve-kept now (mint secret body raw) db a h = mint-kept secret body raw now db h

  pub serve_all-kept :
      (requests : List (ℕ × PatRequest)) (db : PatDb)
      → All (λ r. Allowed May r.1) requests
      → P db
      → P (serve_all context users requests db)
  serve_all-kept [] db a h = h
  serve_all-kept ((now, request) ∷ requests) db (a, rest) h =
      serve_all-kept requests _ rest (serve-kept now request db a h)

-- ===== src/Oauth/Rotation.antt =====
-- A refresh token is exchanged once, and only while its user has the product.
use ullav_user_management.Prelude.{
  ℕ, ◌≤◌, ◌<◌, ◌≡◌, ◌≢◌, ◌∙◌, refl, sym, ap, subst, String, inl, inr, Bool, true, false, not,
  Option, none, some, List, [], ◌∷◌, same, eq_iff, any, find, update_where, arith, Bool-cases,
  Option-cases, Chars, of_find, Mem,
}
use ullav_user_management.Errors.{ok, invalid_token, database, Result-cases}
use ullav_user_management.Exec.{pure}
use ullav_user_management.Exec.Keeps.{after-guard, after-lift, after-then}
use ullav_user_management.Accounts.{User, get_user_by_id}
use ullav_user_management.Teams.{TeamDb}
use ullav_user_management.Teams.Roles.{user_has_product_access}
use ullav_user_management.Oauth.{
  RefreshToken, OauthDb, is_current, rotate_refresh_token, create_refresh_token,
}
use ullav_user_management.Oauth.Replay.{tokens_spent}
use ullav_user_management.Oauth.Grants.{TokenResponse, refresh_token_ttl_days}
use ullav_user_management.Oauth.Service.{resource_to_product_gate}
use ullav_user_management.Oauth.Refresh.{RefreshContext, check_gate, refreshed, refresh_token_grant}

-- The token is known, and is no longer current.
abbrev Exchanged : ℕ → String → OauthDb → Type 0
Exchanged later h db =
    (any (λ t. same t.token_hash h) db.refresh_tokens ≡ true)
    × (find (is_current later h) db.refresh_tokens ≡ none)

any_update :
    (h : String) (p : RefreshToken → Bool) (now : ℕ) (ts : List RefreshToken)
    → any (λ t. same t.token_hash h) (update_where p (λ t. record t { rotated_at = some now }) ts)
      ≡ any (λ t. same t.token_hash h) ts
any_update h p now [] = refl
any_update h p now (t ∷ ts) = ground (arith, any_update h p now ts)

known_of :
    (now : ℕ) (h : String) (t : RefreshToken) (ts : List RefreshToken)
    → find (is_current now h) ts ≡ some t
    → any (λ t. same t.token_hash h) ts ≡ true
known_of now h t [] e = absurd (ground (arith, e))
known_of now h t (x ∷ ts) e = ground (arith, e, known_of now h t ts)

same_of : (a b : String) → same a b ≡ true → a ≡ b
same_of a b e = ground (arith, e, eq_iff a b)

fresh_and_known :
    (a b : String) (ts : List RefreshToken)
    → a ≡ b
    → any (λ t. same t.token_hash a) ts ≡ false
    → any (λ t. same t.token_hash b) ts ≡ true
    → ⊥
fresh_and_known a b ts e fresh known = ground (arith, (rw e at fresh), known)

-- A new token has another hash, so that the exchanged one stays so.
create-Exchanged :
    (new_hash client_id : String) (user_id : ℕ) (scope resource : String) (days now later : ℕ)
    (h : String) (db : OauthDb)
    → Exchanged later h db
    → Exchanged later h
        (create_refresh_token new_hash client_id user_id scope resource days now db).1
unfolding create_refresh_token
create-Exchanged new_hash client_id user_id scope resource days now later h db (known, spent) =
    after-guard (Exchanged later h) (any (λ t. same t.token_hash new_hash) db.refresh_tokens)
      (database "unique_violation") _ db (known, spent)
      λ fresh. elim (Bool-cases (same new_hash h)) [
        | inl e ↦
            absurd (fresh_and_known new_hash h db.refresh_tokens (same_of new_hash h e) fresh known)
        | inr e ↦ (rw (e, known) refl, rw (e, spent) refl)
      ]

rotated-Exchanged :
    (now later : ℕ) (h : String) (t : RefreshToken) (db : OauthDb)
    → now ≤ later
    → find (is_current now h) db.refresh_tokens ≡ some t
    → Exchanged later h (rotate_refresh_token now h db).1
unfolding rotate_refresh_token
rotated-Exchanged now later h t db le e = rw e (
  any_update h (is_current now h) now db.refresh_tokens ∙ known_of now h t db.refresh_tokens e,
  tokens_spent now later h db.refresh_tokens le,
)

module _ (context : RefreshContext) (users : List User) (teams : TeamDb) where
  refreshed-Exchanged :
      (client_id new_raw h : String) (now later : ℕ) (old : RefreshToken) (db : OauthDb)
      → Exchanged later h db
      → Exchanged later h (refreshed context users teams client_id new_raw now old db).1
  refreshed-Exchanged client_id new_raw h now later old db k =
      after-guard (Exchanged later h) (not (same old.client_id client_id)) invalid_token _ db k λ _.
        after-lift (Exchanged later h)
          (check_gate teams old.user_id (resource_to_product_gate context.gate old.resource)) _ db k
          λ _ _. after-lift (Exchanged later h) (get_user_by_id users old.user_id) _ db k λ user _.
            after-lift (Exchanged later h) (context.mint_access_token user old) _ db k λ token _.
              after-then (Exchanged later h)
                (create_refresh_token (context.token_hash_of new_raw) client_id user.id old.scope
                  old.resource refresh_token_ttl_days now)
                (λ _.
                  pure
                    (record { access_token = token; scope = old.scope; refresh_token = new_raw }))
                db
                (create-Exchanged (context.token_hash_of new_raw) client_id user.id old.scope
                  old.resource refresh_token_ttl_days now later h db k)
                λ _ _ l. l

  granted :
      (raw client_id new_raw : String) (now : ℕ) (db : OauthDb) (r : TokenResponse)
      → (refresh_token_grant context users teams (some raw) (some client_id) new_raw now db).0
        ≡ ok r
      → (t : RefreshToken) × (find (is_current now (context.token_hash_of raw)) db.refresh_tokens
          ≡ some t)
        × (refresh_token_grant context users teams (some raw) (some client_id) new_raw now db
            ≡ refreshed context users teams client_id new_raw now t
                (rotate_refresh_token now (context.token_hash_of raw) db).1)
  unfolding refresh_token_grant rotate_refresh_token
  granted raw client_id new_raw now db r done =
      elim (Option-cases (find (is_current now (context.token_hash_of raw)) db.refresh_tokens)) [
        | inl e ↦ absurd (ground (arith, (rw e at done)))
        | inr (t, e) ↦ (t, e, rw e refl)
      ]

  refused :
      (raw client_id new_raw : String) (now : ℕ) (db : OauthDb) (r : TokenResponse)
      → find (is_current now (context.token_hash_of raw)) db.refresh_tokens ≡ none
      → (refresh_token_grant context users teams (some raw) (some client_id) new_raw now db).0
        ≢ ok r
  unfolding refresh_token_grant rotate_refresh_token
  refused raw client_id new_raw now db r e done = ground (arith, (rw e at done))

  current_parts :
      (now : ℕ) (h : String) (t : RefreshToken)
      → is_current now h t ≡ true
      → (t.token_hash ≡ h) × (t.rotated_at ≡ none) × (now < t.expires_at)
  current_parts now h t c = elim (Option-cases t.rotated_at) [
    | inl e ↦ (same_of t.token_hash h (ground (arith, c)), e, ground (arith, c))
    | inr (u, e) ↦ absurd (ground (arith, (rw e at c)))
  ]

  passed :
      (client_id new_raw : String) (now : ℕ) (t : RefreshToken) (db : OauthDb) (r : TokenResponse)
      → (refreshed context users teams client_id new_raw now t db).0 ≡ ok r
      → (t.client_id ≡ client_id)
        × (check_gate teams t.user_id (resource_to_product_gate context.gate t.resource) ≡ ok tt)
  passed client_id new_raw now t db r done = elim (Bool-cases (same t.client_id client_id)) [
    | inr e ↦ absurd (ground (arith, (rw e at done)))
    | inl e ↦
        elim (Result-cases
          (check_gate teams t.user_id (resource_to_product_gate context.gate t.resource))) [
            | inr (f, g) ↦ absurd (ground (arith, (rw (e, g) at done)))
            | inl (u, g) ↦ (same_of t.client_id client_id e, g)
          ]
  ]

  entitled :
      (user_id : ℕ) (product : String) (scope : Chars) (gate : Option (String × Chars))
      → gate ≡ some (product, scope)
      → check_gate teams user_id gate ≡ ok tt
      → user_has_product_access user_id product teams ≡ true
  entitled user_id product scope gate g h =
      elim (Bool-cases (user_has_product_access user_id product teams)) [
        | inl a ↦ a
        | inr a ↦ absurd (ground (arith, (rw (g, a) at h)))
      ]

  -- After a refresh token was exchanged for new tokens, no later request for it gets tokens, of any client.
  pub refresh_token_grant_once :
      (raw client_id new_raw other_client other_raw : String) (now later : ℕ) (db : OauthDb)
      (r : TokenResponse)
      → now ≤ later
      → (refresh_token_grant context users teams (some raw) (some client_id) new_raw now db).0
        ≡ ok r
      → (s : TokenResponse)
      → (refresh_token_grant context users teams
          (some raw)
          (some other_client)
          other_raw
          later
          (refresh_token_grant context users teams (some raw) (some client_id) new_raw now db).1).0
        ≢ ok s
  refresh_token_grant_once raw client_id new_raw other_client other_raw now later db r le done s
        again =
      let (t, e, q) = granted raw client_id new_raw now db r done in
      let (_, spent) =
        subst (λ a. Exchanged later (context.token_hash_of raw) a.1) (sym q)
          (refreshed-Exchanged client_id new_raw (context.token_hash_of raw) now later t
            (rotate_refresh_token now (context.token_hash_of raw) db).1
            (rotated-Exchanged now later (context.token_hash_of raw) t db le e)) in
      refused raw other_client other_raw later _ s spent again

  -- A request that gets new tokens for a refresh token came from the client that it was issued to, with a token that was
  -- known, not exchanged or revoked and not expired; and where the token's resource belongs to a product, its
  -- user is an active member of a team with the product.
  pub refresh_token_grant_checked :
      (raw client_id new_raw : String) (now : ℕ) (db : OauthDb) (r : TokenResponse)
      → (refresh_token_grant context users teams (some raw) (some client_id) new_raw now db).0
        ≡ ok r
      → (t : RefreshToken) × Mem t db.refresh_tokens
        × (t.token_hash ≡ context.token_hash_of raw)
        × (t.rotated_at ≡ none)
        × (now < t.expires_at)
        × (t.client_id ≡ client_id)
        × ((product : String) (scope : Chars)
            → resource_to_product_gate context.gate t.resource ≡ some (product, scope)
            → user_has_product_access t.user_id product teams ≡ true)
  refresh_token_grant_checked raw client_id new_raw now db r done =
      let (t, e, q) = granted raw client_id new_raw now db r done in
      let (i, current) =
        of_find (is_current now (context.token_hash_of raw)) t db.refresh_tokens e in
      let (hash, unrotated, expiry) = current_parts now (context.token_hash_of raw) t current in
      let (client, gate) =
        passed client_id new_raw now t (rotate_refresh_token now (context.token_hash_of raw) db).1 r
          (sym (ap (λ a. a.0) q) ∙ done) in
      (
        t,
        i,
        hash,
        unrotated,
        expiry,
        client,
        λ product scope g. entitled t.user_id product scope _ g gate,
      )

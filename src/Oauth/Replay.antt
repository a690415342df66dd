-- ===== src/Oauth/Replay.antt =====
-- A code or a refresh token is used once.
use ullav_user_management.Prelude.{
  ℕ, ◌≤◌, ◌<◌, String, ◌≡◌, ◌≢◌, refl, inl, inr, Bool, true, false, not, Option, none, some, List,
  [], ◌∷◌, arith, same, eq_iff, any, find, update_where, of_find, Option-cases,
}
use ullav_user_management.Errors.{ok, err, invalid_token, database}
use ullav_user_management.Exec.{pure}
use ullav_user_management.Accounts.{User, get_user_by_id}
use ullav_user_management.Exec.Keeps.{after-guard, after-lift, after-then, after-found, guard-false}
use ullav_user_management.Oauth.Grants.{
  GrantContext, TokenForm, TokenResponse, auth_code_grant, refresh_token_ttl_days,
  redirect_uri_allowed,
}
use ullav_user_management.Oauth.{
  AuthCode, RefreshToken, OauthDb, is_usable, consume_auth_code, is_current, rotate_refresh_token,
  is_unrotated, revoke_refresh_token, create_refresh_token,
}

codes_spent :
    (now later : ℕ) (code : String) (cs : List AuthCode)
    → now ≤ later
    → find
        (is_usable later code)
        (update_where (is_usable now code) (λ c. record c { used_at = some now }) cs)
      ≡ none
codes_spent now later code [] h = refl
codes_spent now later code (c ∷ cs) h = ground (arith, codes_spent now later code cs h)

-- Whatever came of the first attempt to consume a code, no later attempt consumes it.
pub consume_auth_code_once :
    (now later : ℕ) (code : String) (db : OauthDb)
    → now ≤ later
    → (consume_auth_code later code (consume_auth_code now code db).1).0 ≡ err invalid_token
unfolding consume_auth_code
consume_auth_code_once now later code db h =
    elim (Option-cases (find (is_usable now code) db.auth_codes)) [
      | inl e ↦ rw (e, codes_spent now later code db.auth_codes h) refl
      | inr (c, e) ↦ rw (e, codes_spent now later code db.auth_codes h) refl
    ]

pub tokens_spent :
    (now later : ℕ) (h : String) (ts : List RefreshToken)
    → now ≤ later
    → find
        (is_current later h)
        (update_where (is_current now h) (λ t. record t { rotated_at = some now }) ts)
      ≡ none
tokens_spent now later h [] k = refl
tokens_spent now later h (t ∷ ts) k = ground (arith, tokens_spent now later h ts k)

tokens_revoked :
    (now later : ℕ) (h : String) (ts : List RefreshToken)
    → find
        (is_current later h)
        (update_where (is_unrotated h) (λ t. record t { rotated_at = some now }) ts)
      ≡ none
tokens_revoked now later h [] = refl
tokens_revoked now later h (t ∷ ts) = ground (arith, tokens_revoked now later h ts)

-- A refresh token that was presented once, or was revoked, is never rotated later.
pub rotate_refresh_token_once :
    (now later : ℕ) (token_hash : String) (db : OauthDb)
    → now ≤ later
    → ((rotate_refresh_token later token_hash (rotate_refresh_token now token_hash db).1).0
        ≡ err invalid_token)
      × ((rotate_refresh_token later token_hash (revoke_refresh_token now token_hash db).1).0
          ≡ err invalid_token)
unfolding rotate_refresh_token revoke_refresh_token
rotate_refresh_token_once now later token_hash db k = (
  elim (Option-cases (find (is_current now token_hash) db.refresh_tokens)) [
    | inl e ↦ rw (e, tokens_spent now later token_hash db.refresh_tokens k) refl
    | inr (t, e) ↦ rw (e, tokens_spent now later token_hash db.refresh_tokens k) refl
  ],
  rw (tokens_revoked now later token_hash db.refresh_tokens) refl,
)

usable_lem :
    (now : ℕ) (code : String) (c : AuthCode)
    → is_usable now code c ≡ true
    → (now < c.expires_at) × (c.used_at ≡ none)
usable_lem now code c h = split c.used_at refl
  where
    split : (u : Option ℕ) → c.used_at ≡ u → (now < c.expires_at) × (c.used_at ≡ none)
    split none e = (ground (arith, h), e)
    split (some t) e = absurd (ground (arith, h, (rw e at h)))

of_not-false : {b : Bool} → not b ≡ false → b ≡ true
of_not-false {b = b} h = ground (arith, h)

abbrev Spent : ℕ → String → OauthDb → Type 0
Spent later code db = find (is_usable later code) db.auth_codes ≡ none

create-Spent :
    (token_hash client_id : String) (user_id : ℕ) (scope resource : String) (ttl_days now later : ℕ)
    (code : String) (db : OauthDb)
    → Spent later code db
    → Spent later code
        (create_refresh_token token_hash client_id user_id scope resource ttl_days now db).1
unfolding create_refresh_token
create-Spent token_hash client_id user_id scope resource ttl_days now later code db h =
    after-guard (Spent later code) (any (λ t. same t.token_hash token_hash) db.refresh_tokens)
      (database "unique_violation") _ db h λ _. h

module _ (context : GrantContext) (users : List User) (form : TokenForm)
    (code redirect_uri client_id verifier : String) (has_code : form.code ≡ some code)
    (has_uri : form.redirect_uri ≡ some redirect_uri) (has_client : form.client_id ≡ some client_id)
    (has_verifier : form.code_verifier ≡ some verifier) where
  -- A complete request that gets tokens for a code came from the client that the code was issued to, with a redirect
  -- URI that the one of the authorization request admits and the verifier of its PKCE challenge, before
  -- the code expired and before it was used.
  pub auth_code_grant_checked :
      (refresh_raw : String) (now : ℕ) (db : OauthDb) (c : AuthCode) (r : TokenResponse)
      → find (is_usable now code) db.auth_codes ≡ some c
      → (auth_code_grant context users form refresh_raw now db).0 ≡ ok r
      → (c.client_id ≡ client_id)
        × (redirect_uri_allowed context.parse_url (c.redirect_uri ∷ []) redirect_uri ≡ true)
        × (context.challenge_of verifier ≡ c.code_challenge)
        × (now < c.expires_at)
        × (c.used_at ≡ none)
  unfolding auth_code_grant consume_auth_code create_refresh_token
  auth_code_grant_checked refresh_raw now db c r found done =
      let (client, done2) =
        guard-false (not (same c.client_id client_id)) invalid_token _ _ r
          (rw (has_code, has_uri, has_client, has_verifier, found) at done) in
      let (uri, done3) =
        guard-false
          (not (redirect_uri_allowed context.parse_url (c.redirect_uri ∷ []) redirect_uri)) _ _ _ r
          done2 in
      let (pkce, done4) =
        guard-false (not (same (context.challenge_of verifier) c.code_challenge)) invalid_token _ _
          r done3 in
      let (_, usable) = of_find (is_usable now code) c db.auth_codes found in
      let (expiry, unused) = usable_lem now code c usable in
      (
        ground (arith, client, eq_iff c.client_id client_id),
        of_not-false uri,
        ground (arith, pkce, eq_iff (context.challenge_of verifier) c.code_challenge),
        expiry,
        unused,
      )

  grant-Spent :
      (refresh_raw : String) (now later : ℕ) (db : OauthDb)
      → now ≤ later
      → Spent later code (auth_code_grant context users form refresh_raw now db).1
  unfolding auth_code_grant consume_auth_code
  grant-Spent refresh_raw now later db le =
      rw (has_code, has_uri, has_client, has_verifier)
        (after-found (Spent later code) (find (is_usable now code) db.auth_codes) invalid_token _ _
          spent
          λ c _. after-guard (Spent later code) (not (same c.client_id client_id)) _ _ _ spent λ _.
            after-guard (Spent later code)
              (not (redirect_uri_allowed context.parse_url (c.redirect_uri ∷ []) redirect_uri)) _ _
              _ spent
              λ _.
                after-guard (Spent later code)
                  (not (same (context.challenge_of verifier) c.code_challenge)) _ _ _ spent
                  λ _.
                    after-lift (Spent later code) (get_user_by_id users c.user_id) _ _ spent
                      λ user _.
                        after-lift (Spent later code) (context.mint_access_token user c) _ _ spent
                          λ token _.
                            after-then (Spent later code)
                              (create_refresh_token (context.token_hash_of refresh_raw) client_id
                                user.id c.scope c.resource refresh_token_ttl_days now)
                              (λ _. pure (record {
                                access_token = token;
                                scope = c.scope;
                                refresh_token = refresh_raw;
                              }))
                              after
                              (create-Spent (context.token_hash_of refresh_raw) client_id user.id
                                c.scope c.resource refresh_token_ttl_days now later code after
                                spent)
                              λ _ _ h. h)
    where
      after : OauthDb
      after = record db {
        auth_codes =
            update_where (is_usable now code) (λ c. record c { used_at = some now }) db.auth_codes;
      }

      spent :
          find
            (is_usable later code)
            (update_where (is_usable now code) (λ c. record c { used_at = some now }) db.auth_codes)
          ≡ none
      spent = codes_spent now later code db.auth_codes le

never_granted :
    (context : GrantContext) (users : List User) (form : TokenForm) (code refresh_raw : String)
    (now : ℕ) (db : OauthDb)
    → form.code ≡ some code
    → Spent now code db
    → (r : TokenResponse) → (auth_code_grant context users form refresh_raw now db).0 ≢ ok r
unfolding auth_code_grant consume_auth_code
never_granted context users form code refresh_raw now db e spent r done =
    elim (Option-cases form.redirect_uri) [
      | inl u ↦ absurd (ground (arith, (rw (e, u) at done)))
      | inr (_, u) ↦ elim (Option-cases form.client_id) [
        | inl c ↦ absurd (ground (arith, (rw (e, u, c) at done)))
        | inr (_, c) ↦ elim (Option-cases form.code_verifier) [
          | inl v ↦ absurd (ground (arith, (rw (e, u, c, v) at done)))
          | inr (_, v) ↦ absurd (ground (arith, (rw (e, u, c, v, spent) at done)))
        ]
      ]
    ]

-- After a complete request for a code, whatever its answer, no later request gets tokens for the same code.
pub auth_code_grant_once :
    (context : GrantContext) (users : List User) (form : TokenForm)
    (code redirect_uri client_id verifier : String)
    → form.code ≡ some code
    → form.redirect_uri ≡ some redirect_uri
    → form.client_id ≡ some client_id
    → form.code_verifier ≡ some verifier
    → (refresh_raw : String) (now later : ℕ) (db : OauthDb) → now ≤ later
    → (other : TokenForm) (other_raw : String) → other.code ≡ some code
    → (r : TokenResponse)
    → (auth_code_grant context users other other_raw later
        (auth_code_grant context users form refresh_raw now db).1).0
      ≢ ok r
auth_code_grant_once context users form code redirect_uri client_id verifier e u c v refresh_raw now
      later db le other other_raw o r =
    never_granted context users other code other_raw later _ o
      (grant-Spent context users form code redirect_uri client_id verifier e u c v refresh_raw now
        later db le)
      r

-- ===== src/Pat/Exchange.antt =====
-- A token for one run: what it is exchanged for, and how long: handlers/pat.rs.
use ullav_user_management.Prelude.{
  ℕ, ◌+◌, ◌≡◌, ◌≢◌, ◌∙◌, ◌≤◌, ◌<◌, refl, sym, ap, subst, String, inl, inr, false, Option, none,
  some, List, [], ◌∷◌, any, find, arith, eq_refl, Bool-cases, Chars, codes, All, ◌&&◌, ltb,
  if◌then◌else◌,
}
use ullav_user_management.Prelude.Int.{magnitude}
use ullav_user_management.Errors.{ok, err, invalid_token}
use ullav_user_management.Accounts.{User, get_user_by_id}
use ullav_user_management.Words.{trim}
use ullav_user_management.Checks.{is_nil, check_service_secret, validate_git_scopes}
use ullav_user_management.Checks.Laws.{validate_ttl_secs_iff}
use ullav_user_management.Pat.{
  is_unexpired, NewPat, Pat, PatDb, has_hash, ephemeral, is_live, get_active_pat_by_hash,
  touch_pat_last_used,
}
use ullav_user_management.Pat.Minted.{new_row, IsMinted, minted}
use ullav_user_management.Pat.Kept.{Allowed, Free, any_requests, serve_all-kept}
use ullav_user_management.Pat.Lasting.{Lasts, Over, Lasts-kept, Over-kept, first_live, none_over}
use ullav_user_management.Pat.Revoked.{refused}
use ullav_user_management.Pat.Handlers.{
  PatRequest, serve_all, PatContext, MintEphemeralPatRequest, MintEphemeralPatResponse, token_of,
  take, join_scopes, or_read, exchange, mint_ephemeral,
}

ok_injective : {A : Type 0} {x y : A} → ok x ≡ ok y → x ≡ y
ok_injective e = cc

not_before : (later end : ℕ) → end ≤ later → ltb later end ≡ false
not_before later end le = ground (arith, le)

module _ (context : PatContext) (users : List User) (secret : Option String) (credential : Chars)
    (resource : String) (later : ℕ) (db : PatDb) where
  accepted :
      (p : Pat) (user : User)
      → check_service_secret context.git_service_shared_secret secret ≡ ok tt
      → is_nil (trim (codes resource)) ≡ false
      → find (is_live later (context.token_hash_of credential)) db.pats ≡ some p
      → get_user_by_id users p.user_id ≡ ok user
      → (exchange context users secret credential resource later db).0
        ≡ context.create_git_access_jwt user resource (join_scopes p.scopes) p.repo_id
  unfolding exchange get_active_pat_by_hash touch_pat_last_used
  accepted p user s b e u = rw (s, b, e, u) refl

module _ (context : PatContext) (users : List User) (secret : Option String)
    (body : MintEphemeralPatRequest) (raw : Chars) (now : ℕ) (db : PatDb)
    (meanwhile_users : List User) (requests : List (ℕ × PatRequest)) where
  -- The tables when the token was minted and after the requests since then.
  abbrev pub since : PatDb
  since =
      serve_all context meanwhile_users requests
        (mint_ephemeral context users secret body raw now db).1

  abbrev new_pat : List String → NewPat
  new_pat scopes =
      ephemeral body.user_id body.repo_id (context.token_hash_of (token_of raw))
        (take 12 (token_of raw)) scopes (now + magnitude body.ttl_secs)

  row_since :
      (user : User) (scopes : List String)
      → IsMinted context users secret body raw now db user scopes
      → All (λ r. Allowed (λ id. id ≢ db.next_id) r.1) requests
      → Lasts (new_pat scopes) db.next_id since
  row_since user scopes m spare =
      serve_all-kept context meanwhile_users (λ id. id ≢ db.next_id)
        (Lasts (new_pat scopes) db.next_id) (Lasts-kept meanwhile_users (new_pat scopes) db.next_id)
        requests _ spare
        (rw m.outcome (
          new_row context users secret body raw now db scopes,
          rw (eq_refl (context.token_hash_of (token_of raw))) refl,
          record {
            own_id = refl;
            unrevoked = refl;
            same_expiry = refl;
            same_user = refl;
            same_scopes = refl;
            same_repo = refl;
          },
        ))

  lives :
      (user owner : User) (scopes : List String) (later_users : List User)
      (later_secret : Option String) (resource : String) (later : ℕ)
      → IsMinted context users secret body raw now db user scopes
      → All (λ r. Allowed (λ id. id ≢ db.next_id) r.1) requests
      → check_service_secret context.git_service_shared_secret later_secret ≡ ok tt
      → get_user_by_id later_users body.user_id ≡ ok owner
      → is_nil (trim (codes resource)) ≡ false
      → later < now + magnitude body.ttl_secs
      → (exchange context later_users later_secret (token_of raw) resource later since).0
        ≡ context.create_git_access_jwt owner resource (join_scopes scopes) (some body.repo_id)
  lives user owner scopes later_users later_secret resource later m spare s u b lt =
      let (p, found, k) = row_since user scopes m spare in
      accepted context later_users later_secret (token_of raw) resource later since p owner s b
        (first_live later (context.token_hash_of (token_of raw)) p since.pats found
          (rw (k.unrevoked, k.same_expiry) (ground arith)))
        (rw k.same_user u)
      ∙ rw (k.same_scopes, k.same_repo) refl

  expired_rows :
      (h : String) (later : ℕ) (ps : List Pat)
      → any (has_hash h) ps ≡ false
      → any (λ p. has_hash h p && is_unexpired later p.expires_at) ps ≡ false
  expired_rows h later [] e = refl
  expired_rows h later (p ∷ ps) e = ground (arith, e, expired_rows h later ps)

  over_at_first :
      (user : User) (scopes : List String) (later : ℕ)
      → IsMinted context users secret body raw now db user scopes
      → now + magnitude body.ttl_secs ≤ later
      → any
          (λ p.
            has_hash (context.token_hash_of (token_of raw)) p && is_unexpired later p.expires_at)
          (new_row context users secret body raw now db scopes ∷ db.pats)
        ≡ false
  over_at_first user scopes later m le =
      rw
        (
          eq_refl (context.token_hash_of (token_of raw)),
          not_before later (now + magnitude body.ttl_secs) le,
          expired_rows (context.token_hash_of (token_of raw)) later db.pats m.fresh,
        )
        refl

  none_found :
      (user : User) (scopes : List String) (later : ℕ)
      → IsMinted context users secret body raw now db user scopes
      → now + magnitude body.ttl_secs ≤ later
      → find (is_live later (context.token_hash_of (token_of raw))) since.pats ≡ none
  none_found user scopes later m le =
      let h = context.token_hash_of (token_of raw) in
      let (known, over) =
        serve_all-kept context meanwhile_users Free (Over later h)
          (Over-kept meanwhile_users later h) requests _ (any_requests requests)
          (rw m.outcome (rw (eq_refl h) refl, over_at_first user scopes later m le)) in
      none_over later h since.pats over

  ended :
      (user : User) (scopes : List String) (later_users : List User) (later_secret : Option String)
      (resource : String) (later : ℕ) (token : String)
      → IsMinted context users secret body raw now db user scopes
      → now + magnitude body.ttl_secs ≤ later
      → (exchange context later_users later_secret (token_of raw) resource later since).0 ≢ ok token
  ended user scopes later_users later_secret resource later token m le =
      refused context later_users later_secret (token_of raw) resource later since
        (none_found user scopes later m le) token

  invalid_after :
      (user : User) (scopes : List String) (later_users : List User) (later_secret : Option String)
      (resource : String) (later : ℕ)
      → IsMinted context users secret body raw now db user scopes
      → check_service_secret context.git_service_shared_secret later_secret ≡ ok tt
      → is_nil (trim (codes resource)) ≡ false
      → now + magnitude body.ttl_secs ≤ later
      → (exchange context later_users later_secret (token_of raw) resource later since).0
        ≡ err invalid_token
  unfolding exchange get_active_pat_by_hash
  invalid_after user scopes later_users later_secret resource later m s b le =
      rw (s, b, none_found user scopes later m le) refl

module _ (context : PatContext) (users : List User) (secret : Option String)
    (body : MintEphemeralPatRequest) (raw : Chars) (now : ℕ) (db : PatDb)
    (meanwhile_users : List User) (requests : List (ℕ × PatRequest)) (later_users : List User)
    (later_secret : Option String) (resource : String) (later : ℕ)
    (response : MintEphemeralPatResponse) where
  -- A token that was minted for one run, with scopes that the checks accept (by default to read only), ends between one
  -- second and six hours after the minting. Whatever was requested of the token handlers since then, except to revoke
  -- the new row, an exchange that names a resource, by a caller with the right secret and while the user of the token
  -- exists, ends as follows: before the token's end, as the signing of an access token for that user, the scopes of the
  -- token and its one repository does; from its end on, the token is invalid.
  pub mint_ephemeral-exchange :
      (owner : User)
      → (mint_ephemeral context users secret body raw now db).0 ≡ ok response
      → All (λ r. Allowed (λ id. id ≢ db.next_id) r.1) requests
      → check_service_secret context.git_service_shared_secret later_secret ≡ ok tt
      → get_user_by_id later_users body.user_id ≡ ok owner
      → is_nil (trim (codes resource)) ≡ false
      → (scopes : List String) × (validate_git_scopes context.quote (some (or_read body.scopes))
          ≡ ok scopes)
        × (now < response.expires_at)
        × (response.expires_at ≤ now + 21600)
        × ((exchange context later_users later_secret response.token resource later
              (since context users secret body raw now db meanwhile_users requests)).0
            ≡ (if ltb later response.expires_at
                then context.create_git_access_jwt owner resource
                    (join_scopes scopes)
                    (some body.repo_id)
                else err invalid_token))
  mint_ephemeral-exchange owner h spare s u b =
      let (user, scopes, m) = minted context users secret body raw now db response h in
      let (low, high) = (validate_ttl_secs_iff body.ttl_secs).0 m.ttl in
      let e = ok_injective (sym (ap (λ a. a.0) m.outcome) ∙ h) in
      (
        scopes,
        m.scope,
        subst (λ (r : MintEphemeralPatResponse). now < r.expires_at) e (ground arith),
        subst (λ (r : MintEphemeralPatResponse). r.expires_at ≤ now + 21600) e (ground arith),
        subst
            (λ (r : MintEphemeralPatResponse).
              (exchange context later_users later_secret r.token resource later
                (since context users secret body raw now db meanwhile_users requests)).0
              ≡ (if ltb later r.expires_at
                  then context.create_git_access_jwt owner resource (join_scopes scopes)
                      (some body.repo_id)
                  else err invalid_token))
            e
            (elim (Bool-cases (ltb later (now + magnitude body.ttl_secs))) [
              | inl lt ↦ rw lt (
                  lives context users secret body raw now db meanwhile_users requests user owner
                    scopes later_users later_secret resource later m spare s u b (ground arith))
              | inr ge ↦ rw ge (
                  invalid_after context users secret body raw now db meanwhile_users requests user
                    scopes later_users later_secret resource later m s b (ground arith))
            ]),
      )

  -- From the end of a token that was minted for one run on, no exchange of it gives an access token, with any secret and
  -- resource, and whatever was requested of the token handlers since the minting.
  pub mint_ephemeral_ends :
      (token : String)
      → (mint_ephemeral context users secret body raw now db).0 ≡ ok response
      → response.expires_at ≤ later
      → (exchange context later_users later_secret response.token resource later
          (since context users secret body raw now db meanwhile_users requests)).0
        ≢ ok token
  mint_ephemeral_ends token h le =
      let (user, scopes, m) = minted context users secret body raw now db response h in
      let e = ok_injective (sym (ap (λ a. a.0) m.outcome) ∙ h) in
      subst
        (λ (r : MintEphemeralPatResponse).
          r.expires_at ≤ later
          → (exchange context later_users later_secret r.token resource later
              (since context users secret body raw now db meanwhile_users requests)).0
            ≢ ok token)
        e
        (ended context users secret body raw now db meanwhile_users requests user scopes later_users
          later_secret resource later token m)
        le

-- ===== src/Pat/Minted.antt =====
-- The row of a token that was minted for one run: handlers/pat.rs.
use ullav_user_management.Prelude.{
  ℕ, ◌+◌, ◌≡◌, refl, String, inl, inr, false, Option, some, List, ◌∷◌, any, arith, Bool-cases,
  Chars,
}
use ullav_user_management.Prelude.Int.{magnitude}
use ullav_user_management.Errors.{ok, Result-cases}
use ullav_user_management.Accounts.{has_user, User, get_user_by_id}
use ullav_user_management.Checks.{check_service_secret, validate_git_scopes, validate_ttl_secs}
use ullav_user_management.Pat.{Pat, PatDb, row_of, has_hash, create_ephemeral_pat, ephemeral}
use ullav_user_management.Pat.Handlers.{
  PatContext, MintEphemeralPatRequest, MintEphemeralPatResponse, token_of, take, or_read,
  mint_ephemeral,
}

module _ (context : PatContext) (users : List User) (secret : Option String)
    (body : MintEphemeralPatRequest) (raw : Chars) (now : ℕ) (db : PatDb) where
  abbrev pub expiry : ℕ
  expiry = now + magnitude body.ttl_secs

  abbrev pub new_row : List String → Pat
  new_row scopes =
      row_of
        (ephemeral body.user_id body.repo_id (context.token_hash_of (token_of raw))
          (take 12 (token_of raw)) scopes expiry)
        now db.next_id

  pub record IsMinted (user : User) (scopes : List String) : Type 0 where
    pub secret_checked : check_service_secret context.git_service_shared_secret secret ≡ ok tt
    pub ttl : validate_ttl_secs body.ttl_secs ≡ ok tt
    pub scope : validate_git_scopes context.quote (some (or_read body.scopes)) ≡ ok scopes
    pub user_known : get_user_by_id users body.user_id ≡ ok user
    pub fresh : any (has_hash (context.token_hash_of (token_of raw))) db.pats ≡ false
    pub outcome : mint_ephemeral context users secret body raw now db ≡ (
      ok (record { token = token_of raw; expires_at = expiry }),
      record { pats = new_row scopes ∷ db.pats; next_id = db.next_id + 1 },
    )

  pub minted :
      (response : MintEphemeralPatResponse)
      → (mint_ephemeral context users secret body raw now db).0 ≡ ok response
      → (user : User) × (scopes : List String) × IsMinted user scopes
  unfolding mint_ephemeral create_ephemeral_pat
  minted response h =
      elim (Result-cases (check_service_secret context.git_service_shared_secret secret)) [
        | inr (f, s) ↦ absurd (ground (arith, (rw s at h)))
        | inl (_, s) ↦ elim (Result-cases (validate_ttl_secs body.ttl_secs)) [
          | inr (f, t) ↦ absurd (ground (arith, (rw (s, t) at h)))
          | inl (_, t) ↦
              elim (Result-cases (validate_git_scopes context.quote (some (or_read body.scopes)))) [
                | inr (f, c) ↦ absurd (ground (arith, (rw (s, t, c) at h)))
                | inl (scopes, c) ↦ elim (Result-cases (get_user_by_id users body.user_id)) [
                  | inr (f, u) ↦ absurd (ground (arith, (rw (s, t, c, u) at h)))
                  | inl (user, u) ↦
                      elim (Bool-cases
                        (any (has_hash (context.token_hash_of (token_of raw))) db.pats)) [
                          | inl k ↦ absurd (ground (arith, (rw (s, t, c, u, k) at h)))
                          | inr k ↦ elim (Bool-cases (has_user users body.user_id)) [
                            | inr v ↦ absurd (ground (arith, (rw (s, t, c, u, k, v) at h)))
                            | inl v ↦ (
                              user,
                              scopes,
                              record {
                                secret_checked = s;
                                ttl = t;
                                scope = c;
                                user_known = u;
                                fresh = k;
                                outcome = rw (s, t, c, u, k, v) refl;
                              },
                            )
                          ]
                        ]
                ]
              ]
        ]
      ]

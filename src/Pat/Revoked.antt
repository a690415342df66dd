-- ===== src/Pat/Revoked.antt =====
-- A revoked token is never accepted again: db/pat.rs and handlers/pat.rs.
use ullav_user_management.Prelude.{
  ℕ, ◌≡◌, ◌≢◌, ◌∙◌, refl, String, inl, inr, true, false, not, ◌==◌, Option, none, List, [], ◌∷◌,
  any, find, arith, eq_refl, Bool-cases, Mem, any_of, Chars, codes,
}
use ullav_user_management.Errors.{ok, Result-cases, not_found}
use ullav_user_management.Exec.Keeps.{after-fail_if}
use ullav_user_management.Accounts.{User, Claims, caller_id}
use ullav_user_management.Words.{trim}
use ullav_user_management.Checks.{is_nil, check_service_secret}
use ullav_user_management.Pat.{
  Pat, PatDb, has_hash, is_revocable, revoke_pat, is_live, get_active_pat_by_hash,
  touch_pat_last_used,
}
use ullav_user_management.Pat.Hashes.{
  OneHash, Dead, is_open, revoked_hash, touched_hash, touched_open, revoked_open, revoked_distinct,
  touched_distinct, revoke_closes, insert-Dead, insert-OneHash,
}
use ullav_user_management.Pat.Kept.{IsKept, Free, any_requests, serve_all-kept}
use ullav_user_management.Pat.Handlers.{
  PatContext, revoke_pat_handler, exchange, PatRequest, serve_all,
}

OneHash-kept : (users : List User) → IsKept users Free OneHash
unfolding revoke_pat touch_pat_last_used
OneHash-kept users = record {
  after_insert = insert-OneHash users;
  after_revoke = λ now user_id id db _ d.
      after-fail_if OneHash (not (any (is_revocable user_id id) db.pats)) not_found _
        (revoked_distinct now (is_revocable user_id id) db.pats d);
  after_touch = λ now id db d. touched_distinct now (λ p. p.id == id) db.pats d;
}

Dead-kept : (users : List User) (h : String) → IsKept users Free (Dead h)
unfolding revoke_pat touch_pat_last_used
Dead-kept users h = record {
  after_insert = λ new now db d. insert-Dead users new now h db d;
  after_revoke = λ now user_id id db _ (known, dead).
      after-fail_if (Dead h) (not (any (is_revocable user_id id) db.pats)) not_found _ (
        revoked_hash (is_revocable user_id id) h now db.pats ∙ known,
        revoked_open (is_revocable user_id id) h now db.pats dead,
      );
  after_touch = λ now id db (known, dead). (
    touched_hash (λ p. p.id == id) h now db.pats ∙ known,
    touched_open (λ p. p.id == id) h now db.pats ∙ dead,
  );
}

none_live :
    (now : ℕ) (h : String) (ps : List Pat)
    → any (is_open h) ps ≡ false
    → find (is_live now h) ps ≡ none
none_live now h [] e = refl
none_live now h (p ∷ ps) e = ground (arith, e, none_live now h ps)

module _ (context : PatContext) (users : List User) where
  -- However the requests go, no two tokens have the same hash, as long as none had before.
  pub serve_all-OneHash :
      (requests : List (ℕ × PatRequest)) (db : PatDb)
      → OneHash db
      → OneHash (serve_all context users requests db)
  serve_all-OneHash requests db h =
      serve_all-kept context users Free OneHash (OneHash-kept users) requests db
        (any_requests requests) h

  pub refused :
      (secret : Option String) (credential : Chars) (resource : String) (now : ℕ) (db : PatDb)
      → find (is_live now (context.token_hash_of credential)) db.pats ≡ none
      → (token : String) → (exchange context users secret credential resource now db).0 ≢ ok token
  unfolding exchange get_active_pat_by_hash
  refused secret credential resource now db e token done =
      elim (Result-cases (check_service_secret context.git_service_shared_secret secret)) [
        | inr (f, s) ↦ absurd (ground (arith, (rw s at done)))
        | inl (u, s) ↦ elim (Bool-cases (is_nil (trim (codes resource)))) [
          | inl b ↦ absurd (ground (arith, (rw (s, b) at done)))
          | inr b ↦ absurd (ground (arith, (rw (s, b, e) at done)))
        ]
      ]

  -- Where no two tokens have the same hash, a user can revoke each of their tokens that is not revoked; and after
  -- that, whatever is requested meanwhile, no exchange of a credential with the token's hash gives an access token.
  pub revoke_pat_handler_ends :
      (claims : Option Claims) (user_id id now : ℕ) (db : PatDb) (p : Pat)
      → OneHash db
      → caller_id claims ≡ ok user_id
      → Mem p db.pats
      → is_revocable user_id id p ≡ true
      → ((revoke_pat_handler context users claims id now db).0 ≡ ok tt)
        × ((requests : List (ℕ × PatRequest)) (secret : Option String) (credential : Chars)
              (resource : String) (later : ℕ) (token : String)
            → context.token_hash_of credential ≡ p.token_hash
            → (exchange context users secret credential resource later (
                serve_all context users requests
                  (revoke_pat_handler context users claims id now db).1)).0
              ≢ ok token)
  unfolding revoke_pat_handler revoke_pat
  revoke_pat_handler_ends claims user_id id now db p d caller i r =
      let found = any_of (is_revocable user_id id) p db.pats i r in
      rw (caller, found)
        (
          refl,
          λ requests secret credential resource later token e done.
              let (known, dead) =
                serve_all-kept context users Free (Dead p.token_hash) (Dead-kept users p.token_hash)
                  requests _ (any_requests requests)
                  (
                    revoked_hash (is_revocable user_id id) p.token_hash now db.pats
                        ∙ any_of (has_hash p.token_hash) p db.pats i (eq_refl p.token_hash),
                    revoke_closes now user_id id p db.pats d i r,
                  ) in
              refused secret credential resource later _
                (rw e (none_live later p.token_hash _ dead)) token done,
        )

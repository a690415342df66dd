-- ===== src/Keys/Restart.antt =====
-- Starting up again from the table, and signing with the store.
use ullav_user_management.Prelude.{
  ℕ, String, ◌≡◌, ◌≢◌, refl, sym, ap, ◌∙◌, Bool, true, false, ◌||◌, Option, none, some, List, [],
  ◌∷◌, ◌++◌, arith, eq_iff, eq_refl, if◌then◌else◌, any, All, find, select, Bool-cases, inl, inr,
}
use ullav_user_management.Errors.{Result, ok, err}
use ullav_user_management.Keys.{
  KeyCrypto, SigningKeyRow, KeyTable, is_active, has_kid, RsaKeyPair, is_key, load_key, load_rows,
  load_or_seed, store_of, init_db_backed, primary_key, retire_signing_key,
}
use ullav_user_management.Keys.Handlers.{Server, retire_oauth2_key, KeyRequest, serve}
use ullav_user_management.Keys.Invariant.{
  loaded_kid, IsGoodRow, in_table, in_store, Agrees, any-append, any-retain, serve-Agrees,
}

All-select {ℓ} :
    {A : Type ℓ} (P : A → Type 0) (p : A → Bool) (xs : List A) → All P xs → All P (select p xs)
All-select P p [] h = tt
All-select P p (x ∷ xs) h = elim (Bool-cases (p x)) [
  | inl keep ↦ rw keep (h.0, All-select P p xs h.1)
  | inr leave ↦ rw leave (All-select P p xs h.1)
]

any-active : (kid : String) (t : KeyTable) → any (has_kid kid) (select is_active t) ≡ in_table kid t
any-active kid [] = refl
any-active kid (row ∷ t) = ground (arith, any-active kid t)

module _ (crypto : KeyCrypto) (primary : String) where
  loaded :
      (enc kid : String)
      → loaded_kid crypto enc ≡ ok kid
      → (pair : RsaKeyPair) × (load_key crypto enc ≡ ok pair) × (pair.kid ≡ kid)
  loaded enc kid h = by_result (load_key crypto enc) refl
    where
      by_result :
          (r : Result RsaKeyPair)
          → load_key crypto enc ≡ r
          → (pair : RsaKeyPair) × (load_key crypto enc ≡ ok pair) × (pair.kid ≡ kid)
      by_result (err e) q = absurd (cc (h, q))
      by_result (ok pair) q = (pair, q, ground arith)

  record Loads (keys : List RsaKeyPair) (found : Option String) (rows : List SigningKeyRow)
      : Type 0 where
    pub store : List RsaKeyPair × Option String
    pub runs : load_rows crypto keys found rows ≡ ok store
    pub keys_of :
        (kid : String)
        → any (is_key kid) store.0 ≡ (any (is_key kid) keys || any (has_kid kid) rows)
    pub primary_of : store.1 ≡ (if any (has_kid primary) rows then some primary else found)

  load_rows-Loads :
      (keys : List RsaKeyPair) (found : Option String) (rows : List SigningKeyRow)
      → All (IsGoodRow crypto primary) rows
      → Loads keys found rows
  unfolding load_rows
  load_rows-Loads keys found [] h = record {
    store = (keys, found);
    runs = refl;
    keys_of = λ kid. ground arith;
    primary_of = refl;
  }
  load_rows-Loads keys found (row ∷ rows) h =
      let (pair, e, k) = loaded row.key_pem_enc row.kid h.0.loads in
      let rest =
        load_rows-Loads (keys ++ pair ∷ []) (if row.is_primary then some pair.kid else found) rows
          h.1 in
      record {
        store = rest.store;
        runs = rw e rest.runs;
        keys_of = λ kid. rest.keys_of kid ∙ ground (arith, any-append kid pair keys, k);
        primary_of = rest.primary_of ∙ ground (arith, h.0.primary, k, eq_iff row.kid primary);
      }

  -- Loading succeeds where the rows are good and one of them is primary.
  load_or_seed-good :
      (env_pem : Option String) (new_pem : Result String) (now : ℕ) (rows : List SigningKeyRow)
      (t : KeyTable)
      → All (IsGoodRow crypto primary) rows
      → any (has_kid primary) rows ≡ true
      → (keys : List RsaKeyPair) × (load_or_seed crypto env_pem new_pem now rows t
          ≡ (ok (record { keys = keys; primary_kid = primary }), t))
        × ((kid : String) → any (is_key kid) keys ≡ any (has_kid kid) rows)
  load_or_seed-good env_pem new_pem now [] t h p = absurd (cc p)
  load_or_seed-good env_pem new_pem now (row ∷ rows) t h p =
      let l = load_rows-Loads [] none (row ∷ rows) h in
      let found : l.store.1 ≡ some primary = l.primary_of ∙ ground arith in
      (l.store.0, rw l.runs (ap (λ o. (store_of crypto (l.store.0, o), t)) found), l.keys_of)

module _ (crypto : KeyCrypto) (s : Server) (requests : List KeyRequest) (a : Agrees crypto s) where
  -- Whatever was requested of a server whose store and table agree, a restart from the table
  -- succeeds without a change of the table, signs with the same key and publishes the same keys.
  pub restart_lem :
      (env_pem : Option String) (new_pem : Result String) (now : ℕ)
      → (keys : List RsaKeyPair) × (init_db_backed crypto env_pem new_pem now
            (serve crypto s requests).table
          ≡ (
            ok (record { keys = keys; primary_kid = (serve crypto s requests).store.primary_kid }),
            (serve crypto s requests).table,
          ))
        × ((kid : String) → any (is_key kid) keys ≡ in_store kid (serve crypto s requests).store)
  unfolding init_db_backed
  restart_lem env_pem new_pem now =
      let b = serve-Agrees crypto s requests a in
      let t = (serve crypto s requests).table in
      let store = (serve crypto s requests).store in
      let primary = store.primary_kid in
      let signs : any (has_kid primary) (select is_active t) ≡ true =
        any-active primary t ∙ sym (b.published primary) ∙ b.signing in
      let (keys, runs, same_keys) =
        load_or_seed-good crypto primary env_pem new_pem now (select is_active t) t
          (All-select (IsGoodRow crypto primary) is_active t b.rows) signs in
      (keys, runs, λ kid. same_keys kid ∙ any-active kid t ∙ sym (b.published kid))

find_of_any :
    (kid : String) (keys : List RsaKeyPair)
    → any (is_key kid) keys ≡ true
    → (pair : RsaKeyPair) × (find (is_key kid) keys ≡ some pair) × (pair.kid ≡ kid)
find_of_any kid [] h = absurd (cc h)
find_of_any kid (k ∷ keys) h = elim (Bool-cases (is_key kid k)) [
  | inl here ↦ (k, rw here, (eq_iff k.kid kid).0 here)
  | inr other ↦ let (pair, e, q) = find_of_any kid keys (rw other at h) in (pair, rw other e, q)
]

-- Whatever was requested of a server whose store and table agree, the lookup of the signing key finds
-- a key with the primary identifier.
pub primary_key_found :
    (crypto : KeyCrypto) (s : Server) (requests : List KeyRequest)
    → Agrees crypto s
    → (pair : RsaKeyPair) × (primary_key (serve crypto s requests).store ≡ some pair)
      × (pair.kid ≡ (serve crypto s requests).store.primary_kid)
unfolding primary_key
primary_key_found crypto s requests a =
    let b = serve-Agrees crypto s requests a in
    find_of_any (serve crypto s requests).store.primary_kid (serve crypto s requests).store.keys
      b.signing

-- A key that was retired with success is not published any more, and tokens are still signed with the same key.
pub retire-unpublished :
    (now : ℕ) (kid : String) (s : Server)
    → (retire_oauth2_key now kid s).0 ≡ ok tt
    → (in_store kid (retire_oauth2_key now kid s).1.store ≡ false)
      × ((retire_oauth2_key now kid s).1.store.primary_kid ≡ s.store.primary_kid)
      × (s.store.primary_kid ≢ kid)
unfolding retire_oauth2_key retire_signing_key
retire-unpublished now kid s h = (
  ground (arith, any-retain kid kid s.store.keys, eq_refl kid),
  ground arith,
  ground (arith, eq_iff s.store.primary_kid kid),
)

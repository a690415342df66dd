-- ===== src/Keys/Invariant.antt =====
-- The table and the store in memory agree, whatever the administrators request.
use ullav_user_management.Prelude.{
  ℕ, String, ◌≡◌, refl, sym, ap, ◌∙◌, Bool, true, false, not, ◌&&◌, ◌||◌, none, some, List, [], ◌∷◌,
  ◌++◌, arith, eq_iff, same, if◌then◌else◌, any, All, select, update_where, Bool-cases, inl, inr,
}
use ullav_user_management.Errors.{Result, ok, err, and_then}
use ullav_user_management.Keys.{
  KeyCrypto, SigningKeyRow, KeyTable, has_kid, retirable, demote_all, RsaKeyPair, KeyStore, is_key,
  from_pem, generate, load_key, store_signing_key, promote_signing_key, retire_signing_key,
}
use ullav_user_management.Keys.Handlers.{
  Server, generate_oauth2_key, promote_oauth2_key, retire_oauth2_key, KeyRequest, generate_key,
  promote_key, retire_key, serve,
}

-- The identifier of the key that a row's ciphertext holds.
abbrev pub loaded_kid : KeyCrypto → String → Result String
loaded_kid crypto enc = and_then (load_key crypto enc) λ pair. ok pair.kid

-- A row decrypts to a key with the row's identifier, and is primary exactly if the store says so.
pub record IsGoodRow (crypto : KeyCrypto) (primary_kid : String) (row : SigningKeyRow)
    : Type 0 where
  pub loads : loaded_kid crypto row.key_pem_enc ≡ ok row.kid
  pub primary : row.is_primary ≡ same row.kid primary_kid

abbrev pub in_table : String → KeyTable → Bool
in_table kid = any (retirable kid)

abbrev pub in_store : String → KeyStore → Bool
in_store kid store = any (is_key kid) store.keys

-- The store publishes the keys that are active in the table, and signs with one of them; of the
-- rows, those of that key are primary.
pub record Agrees (crypto : KeyCrypto) (s : Server) : Type 0 where
  pub rows : All (IsGoodRow crypto s.store.primary_kid) s.table
  pub published : (kid : String) → in_store kid s.store ≡ in_table kid s.table
  pub signing : in_store s.store.primary_kid s.store ≡ true

module _ (crypto : KeyCrypto) where
  abbrev promote_row : String → SigningKeyRow → SigningKeyRow
  promote_row kid row = if has_kid kid row then record row { is_primary = true } else row

  abbrev demote_row : SigningKeyRow → SigningKeyRow
  demote_row row = if row.is_primary then record row { is_primary = false } else row

  promote-IsGoodRow :
      (old kid : String) (row : SigningKeyRow)
      → IsGoodRow crypto old row
      → IsGoodRow crypto kid (promote_row kid (demote_row row))
  promote-IsGoodRow old kid row h = record { loads = ground arith; primary = ground arith }

  promote-rows :
      (old kid : String) (t : KeyTable)
      → All (IsGoodRow crypto old) t
      → All
          (IsGoodRow crypto kid)
          (update_where (has_kid kid) (λ row. record row { is_primary = true }) (demote_all t))
  promote-rows old kid [] h = tt
  promote-rows old kid (row ∷ t) h = (promote-IsGoodRow old kid row h.0, promote-rows old kid t h.1)

  retire-IsGoodRow :
      (now : ℕ) (primary kid : String) (row : SigningKeyRow)
      → same primary kid ≡ false
      → IsGoodRow crypto primary row
      → IsGoodRow crypto primary (
          if retirable kid row
          then record row { retired_at = some now; is_primary = false }
          else row)
  retire-IsGoodRow now primary kid row n h = record {
    loads = ground arith;
    primary = ground (arith, eq_iff row.kid primary, eq_iff row.kid kid, eq_iff primary kid);
  }

  retire-rows :
      (now : ℕ) (primary kid : String) (t : KeyTable)
      → same primary kid ≡ false
      → All (IsGoodRow crypto primary) t
      → All (IsGoodRow crypto primary) (
          update_where
            (retirable kid)
            (λ row. record row { retired_at = some now; is_primary = false })
            t)
  retire-rows now primary kid [] n h = tt
  retire-rows now primary kid (row ∷ t) n h =
      (retire-IsGoodRow now primary kid row n h.0, retire-rows now primary kid t n h.1)

in_table-promote :
    (kid k : String) (t : KeyTable)
    → in_table k
        (update_where (has_kid kid) (λ row. record row { is_primary = true }) (demote_all t))
      ≡ in_table k t
in_table-promote kid k [] = refl
in_table-promote kid k (row ∷ t) = ground (arith, in_table-promote kid k t)

in_table-retire :
    (now : ℕ) (kid k : String) (t : KeyTable)
    → in_table k (
        update_where
          (retirable kid)
          (λ row. record row { retired_at = some now; is_primary = false })
          t)
      ≡ (in_table k t && not (same k kid))
in_table-retire now kid k [] = refl
in_table-retire now kid k (row ∷ t) =
    ground (arith, in_table-retire now kid k t, eq_iff row.kid kid, eq_iff row.kid k, eq_iff k kid)

pub any-append :
    (kid : String) (pair : RsaKeyPair) (keys : List RsaKeyPair)
    → any (is_key kid) (keys ++ pair ∷ []) ≡ (any (is_key kid) keys || same pair.kid kid)
any-append kid pair [] = ground arith
any-append kid pair (k ∷ keys) = ground (arith, any-append kid pair keys)

pub any-retain :
    (kid k : String) (keys : List RsaKeyPair)
    → any (is_key k) (select (λ p. not (is_key kid p)) keys)
      ≡ (any (is_key k) keys && not (same k kid))
any-retain kid k [] = refl
any-retain kid k (p ∷ keys) =
    ground (arith, any-retain kid k keys, eq_iff p.kid kid, eq_iff p.kid k, eq_iff k kid)

any-has_kid : (kid : String) (t : KeyTable) → in_table kid t ≡ true → any (has_kid kid) t ≡ true
any-has_kid kid [] h = h
any-has_kid kid (row ∷ t) h = ground (arith, any-has_kid kid t)

module _ (crypto : KeyCrypto) where
  generate-from_pem :
      (new_pem : Result String) (pair : RsaKeyPair) (pem : String)
      → generate crypto new_pem ≡ ok (pair, pem)
      → from_pem crypto (crypto.trim pem) ≡ ok pair
  unfolding generate from_pem
  generate-from_pem (err e) pair pem h = cc
  generate-from_pem (ok p) pair pem h = ground (arith, crypto.trim_trim p)

  loaded_kid-encrypt :
      (pem enc : String) (pair : RsaKeyPair)
      → from_pem crypto (crypto.trim pem) ≡ ok pair
      → crypto.encrypt (crypto.trim pem) ≡ ok enc
      → loaded_kid crypto enc ≡ ok pair.kid
  unfolding load_key
  loaded_kid-encrypt pem enc pair h e =
      ground (arith, crypto.decrypt-encrypt (crypto.trim pem) enc e)

  -- The new row of `generate` and the new key of the store.
  push-Agrees :
      (s : Server) (now : ℕ) (pair : RsaKeyPair) (enc : String)
      → Agrees crypto s
      → loaded_kid crypto enc ≡ ok pair.kid
      → any (has_kid pair.kid) s.table ≡ false
      → Agrees crypto (record {
        table =
            record {
              kid = pair.kid;
              key_pem_enc = enc;
              is_primary = false;
              created_at = now;
              retired_at = none;
            }
            ∷ s.table;
        store = record s.store { keys = s.store.keys ++ pair ∷ [] };
      })
  push-Agrees s now pair enc a l n = record {
    rows = (
      record {
        loads = l;
        primary = ground (
          arith,
          eq_iff pair.kid s.store.primary_kid,
          a.signing,
          a.published s.store.primary_kid,
          any-has_kid s.store.primary_kid s.table,
        );
      },
      a.rows,
    );
    published = λ kid. ground (arith, any-append kid pair s.store.keys, a.published kid);
    signing = ground (arith, any-append s.store.primary_kid pair s.store.keys, a.signing);
  }

  module _ (s : Server) (new_pem : Result String) (now : ℕ) (a : Agrees crypto s) where
    stored-Agrees :
        (pair : RsaKeyPair) (pem enc : String) (taken : Bool)
        → generate crypto new_pem ≡ ok (pair, pem)
        → crypto.encrypt (crypto.trim pem) ≡ ok enc
        → any (has_kid pair.kid) s.table ≡ taken
        → Agrees crypto (generate_oauth2_key crypto true new_pem now s).1
    unfolding generate_oauth2_key store_signing_key
    stored-Agrees pair pem enc true g e t = rw (g, e, t) a
    stored-Agrees pair pem enc false g e t =
        rw (g, e, t)
          (push-Agrees s now pair enc a
            (loaded_kid-encrypt pem enc pair (generate-from_pem new_pem pair pem g) e) t)

    encrypted-Agrees :
        (pair : RsaKeyPair) (pem : String) (r : Result String)
        → generate crypto new_pem ≡ ok (pair, pem)
        → crypto.encrypt (crypto.trim pem) ≡ r
        → Agrees crypto (generate_oauth2_key crypto true new_pem now s).1
    unfolding generate_oauth2_key
    encrypted-Agrees pair pem (err x) g e = rw (g, e) a
    encrypted-Agrees pair pem (ok enc) g e =
        stored-Agrees pair pem enc (any (has_kid pair.kid) s.table) g e refl

    generated-Agrees :
        (r : Result (RsaKeyPair × String))
        → generate crypto new_pem ≡ r
        → Agrees crypto (generate_oauth2_key crypto true new_pem now s).1
    unfolding generate_oauth2_key
    generated-Agrees (err x) g = rw g a
    generated-Agrees (ok (pair, pem)) g =
        encrypted-Agrees pair pem (crypto.encrypt (crypto.trim pem)) g refl

  any-demote_all :
      (kid : String) (t : KeyTable) → any (has_kid kid) (demote_all t) ≡ any (has_kid kid) t
  any-demote_all kid [] = refl
  any-demote_all kid (row ∷ t) = ground (arith, any-demote_all kid t)

  promote-Agrees :
      (s : Server) (kid : String) → Agrees crypto s → Agrees crypto (promote_oauth2_key kid s).1
  unfolding promote_oauth2_key promote_signing_key
  promote-Agrees s kid a = elim (Bool-cases (in_store kid s.store)) [
    | inr unknown ↦ rw unknown a
    | inl known ↦
        rw (known, found known)
          (record {
            rows = promote-rows crypto s.store.primary_kid kid s.table a.rows;
            published = λ k. a.published k ∙ sym (in_table-promote kid k s.table);
            signing = known;
          })
  ]
    where
      found : in_store kid s.store ≡ true → any (has_kid kid) (demote_all s.table) ≡ true
      found known =
          any-demote_all kid s.table ∙ any-has_kid kid s.table (sym (a.published kid) ∙ known)

  retire-Agrees :
      (s : Server) (now : ℕ) (kid : String)
      → Agrees crypto s
      → Agrees crypto (retire_oauth2_key now kid s).1
  unfolding retire_oauth2_key retire_signing_key
  retire-Agrees s now kid a = elim (Bool-cases (same s.store.primary_kid kid)) [
    | inl primary ↦ rw primary a
    | inr other ↦ elim (Bool-cases (in_table kid s.table)) [
      | inl found ↦
          rw (other, found)
            (record {
              rows = retire-rows crypto now s.store.primary_kid kid s.table other a.rows;
              published = λ k.
                  any-retain kid k s.store.keys
                  ∙ ap (λ b. b && not (same k kid)) (a.published k)
                  ∙ sym (in_table-retire now kid k s.table);
              signing =
                  any-retain kid s.store.primary_kid s.store.keys
                  ∙ ground (arith, a.signing, other);
            })
      | inr missing ↦
          rw (other, missing)
            (record {
              rows = retire-rows crypto now s.store.primary_kid kid s.table other a.rows;
              published = λ k.
                  a.published k
                  ∙ ground (arith, in_table-retire now kid k s.table, eq_iff k kid, missing);
              signing = a.signing;
            })
    ]
  ]

  -- From a server whose store and table agree, they agree after any requests to the three handlers,
  -- refused ones and failed ones included.
  pub serve-Agrees :
      (s : Server) (requests : List KeyRequest)
      → Agrees crypto s
      → Agrees crypto (serve crypto s requests)
  unfolding serve
  serve-Agrees s [] a = a
  serve-Agrees s (generate_key new_pem now ∷ rest) a =
      serve-Agrees (generate_oauth2_key crypto true new_pem now s).1 rest
        (generated-Agrees s new_pem now a (generate crypto new_pem) refl)
  serve-Agrees s (promote_key kid ∷ rest) a =
      serve-Agrees (promote_oauth2_key kid s).1 rest (promote-Agrees s kid a)
  serve-Agrees s (retire_key now kid ∷ rest) a =
      serve-Agrees (retire_oauth2_key now kid s).1 rest (retire-Agrees s now kid a)

-- ===== src/Keys.antt =====
-- The OAuth2 signing keys: the table and its functions in db/oauth2.rs, and the in-memory store and
-- its start-up in utils/key_store.rs with `RsaKeyPair` of utils/rs256.rs. The admin handlers are in
-- Keys/Handlers.antt. A stored key is one text, the ciphertext with its nonce. The table is kept
-- newest row first, the order in which it is loaded. `now` is the clock of the statement.
pub mod Handlers
pub mod Invariant
pub mod Restart
mod Tests
use ullav_user_management.Prelude.{
  ℕ, String, ◌≡◌, Bool, true, false, not, ◌&&◌, Option, none, some, List, [], ◌∷◌, ◌++◌, same,
  if◌then◌else◌, any, find, select, update_where,
}
use ullav_user_management.Errors.{
  AppError, Result, ok, err, database, not_found, internal, and_then,
}
use ullav_user_management.Exec.{Exec, pure, lift, modify, gets, fail_if, ◌>>=◌, ◌>>◌}

-- What the code takes from the crates for RSA and AES-GCM and from `str::trim`: `parse` reads a
-- trimmed PEM and gives the key identifier, a hash of the public key.
pub record KeyCrypto : Type 0 where
  pub trim : String → String
  pub parse : String → Result String
  pub encrypt : String → Result String
  pub decrypt : String → Result String
  pub trim_trim : (pem : String) → trim (trim pem) ≡ trim pem
  pub decrypt-encrypt : (pem enc : String) → encrypt pem ≡ ok enc → decrypt enc ≡ ok pem

-- A row of `oauth2_signing_keys`.
pub record SigningKeyRow : Type 0 where
  pub kid : String
  pub key_pem_enc : String
  pub is_primary : Bool
  pub created_at : ℕ
  pub retired_at : Option ℕ

abbrev pub KeyTable : Type 0
KeyTable = List SigningKeyRow

abbrev pub is_active : SigningKeyRow → Bool
is_active row = elim row.retired_at [ none ↦ true | some t ↦ false ]

abbrev pub has_kid : String → SigningKeyRow → Bool
has_kid kid row = same row.kid kid

-- `UPDATE … SET is_primary = FALSE WHERE is_primary = TRUE`
abbrev pub demote_all : KeyTable → KeyTable
demote_all = update_where (λ row. row.is_primary) (λ row. record row { is_primary = false })

-- `kid` is UNIQUE; the error is the database's own.
unfoldable pub store_signing_key : ℕ → String → String → Bool → Exec KeyTable (Unit {0})
store_signing_key now kid key_pem_enc make_primary = do
  modify (λ t. if make_primary then demote_all t else t)
  taken ← gets (any (has_kid kid))
  fail_if taken (database "unique_violation")
  modify λ t.
      record {
        kid = kid;
        key_pem_enc = key_pem_enc;
        is_primary = make_primary;
        created_at = now;
        retired_at = none;
      }
      ∷ t

-- Two statements and no transaction: the demotion stays when the second changes no row.
unfoldable pub promote_signing_key : String → Exec KeyTable (Unit {0})
promote_signing_key kid = do
  modify demote_all
  found ← gets (any (has_kid kid))
  modify (update_where (has_kid kid) (λ row. record row { is_primary = true }))
  fail_if (not found) not_found

abbrev pub retirable : String → SigningKeyRow → Bool
retirable kid row = has_kid kid row && is_active row

unfoldable pub retire_signing_key : ℕ → String → Exec KeyTable (Unit {0})
retire_signing_key now kid = do
  found ← gets (any (retirable kid))
  modify (
      update_where (retirable kid)
        (λ row. record row { retired_at = some now; is_primary = false }))
  fail_if (not found) not_found

unfoldable pub load_active_signing_keys : KeyTable → List SigningKeyRow
load_active_signing_keys t = select is_active t

pub record RsaKeyPair : Type 0 where
  pub pem : String
  pub kid : String

pub record KeyStore : Type 0 where
  pub keys : List RsaKeyPair
  pub primary_kid : String

abbrev pub is_key : String → RsaKeyPair → Bool
is_key kid pair = same pair.kid kid

-- `none` is the panic of `expect`.
unfoldable pub primary_key : KeyStore → Option RsaKeyPair
primary_key store = find (is_key store.primary_kid) store.keys

module _ (crypto : KeyCrypto) where
  unfoldable pub from_rsa_private_key : String → Result RsaKeyPair
  from_rsa_private_key pem = and_then (crypto.parse pem) λ kid. ok (record { pem = pem; kid = kid })

  unfoldable pub from_pem : String → Result RsaKeyPair
  unfolding from_rsa_private_key
  from_pem pem = from_rsa_private_key (crypto.trim pem)

  -- The pair, and the PEM of a new key as the RSA crate wrote it.
  unfoldable pub generate : Result String → Result (RsaKeyPair × String)
  unfolding from_rsa_private_key
  generate new_pem =
      and_then new_pem
        λ pem. and_then (from_rsa_private_key (crypto.trim pem)) λ pair. ok (pair, pem)

  unfoldable pub load_key : String → Result RsaKeyPair
  unfolding from_pem
  load_key key_pem_enc = and_then (crypto.decrypt key_pem_enc) from_pem

  -- The loop over the rows: the keys, and the identifier of the last primary row.
  unfoldable pub load_rows :
      List RsaKeyPair
      → Option String
      → List SigningKeyRow
      → Result (List RsaKeyPair × Option String)
  unfolding load_key
  load_rows keys primary_kid [] = ok (keys, primary_kid)
  load_rows keys primary_kid (row ∷ rows) = and_then (load_key row.key_pem_enc) λ pair.
      load_rows (keys ++ pair ∷ []) (if row.is_primary then some pair.kid else primary_kid) rows

  -- `resolve_secret("OAUTH2_SIGNING_KEY")` and a newly generated PEM are arguments.
  unfoldable pub seed_first_key : Option String → Result String → ℕ → Exec KeyTable KeyStore
  unfolding from_pem generate store_signing_key
  seed_first_key env_pem new_pem now = do
    (pair, pem) ← lift (elim env_pem [
      | some p ↦ and_then (from_pem p) λ pair. ok (pair, p)
      | none ↦ generate new_pem
    ])
    enc ← lift (crypto.encrypt (crypto.trim pem))
    store_signing_key now pair.kid enc true
    pure (record { keys = pair ∷ []; primary_kid = pair.kid })

  abbrev pub store_of : List RsaKeyPair × Option String → Result KeyStore
  store_of (keys, none) =
      err (
        internal "No primary OAuth2 signing key found in database — promote one with the admin API")
  store_of (keys, some kid) = ok (record { keys = keys; primary_kid = kid })

  abbrev pub load_or_seed :
      Option String → Result String → ℕ → List SigningKeyRow → Exec KeyTable KeyStore
  load_or_seed env_pem new_pem now [] = seed_first_key env_pem new_pem now
  load_or_seed env_pem new_pem now (row ∷ rows) =
      lift (and_then (load_rows [] none (row ∷ rows)) store_of)

  unfoldable pub init_db_backed : Option String → Result String → ℕ → Exec KeyTable KeyStore
  unfolding load_rows seed_first_key load_active_signing_keys
  init_db_backed env_pem new_pem now = do
    rows ← gets load_active_signing_keys
    load_or_seed env_pem new_pem now rows

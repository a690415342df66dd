-- ===== src/Keys/Tests.antt =====
-- Runs of the key store, and its theorems for a server with one key.
use ullav_user_management.Prelude.{
  String, ◌≡◌, refl, sym, true, false, none, some, List, [], ◌∷◌, ◌≢◌, any, arith,
}
use ullav_user_management.Errors.{ok, err, not_found}
use ullav_user_management.Keys.{
  KeyCrypto, SigningKeyRow, RsaKeyPair, is_key, generate, load_key, store_signing_key,
  promote_signing_key, retire_signing_key, primary_key, init_db_backed,
}
use ullav_user_management.Keys.Handlers.{
  Server, generate_oauth2_key, promote_oauth2_key, retire_oauth2_key, KeyRequest, generate_key,
  promote_key, retire_key, serve,
}
use ullav_user_management.Keys.Invariant.{Agrees, in_store, serve-Agrees}
use ullav_user_management.Keys.Restart.{restart_lem, primary_key_found, retire-unpublished}

-- A PEM is its own identifier and its own ciphertext.
plain : KeyCrypto
plain = record {
  trim = λ p. p;
  parse = λ p. ok p;
  encrypt = λ p. ok p;
  decrypt = λ c. ok c;
  trim_trim = λ p. refl;
  decrypt-encrypt = λ p c e. sym e;
}

abbrev row_a : SigningKeyRow
row_a = record {
  kid = "a";
  key_pem_enc = "a";
  is_primary = true;
  created_at = 1;
  retired_at = none;
}

abbrev server : Server
server = record {
  table = row_a ∷ [];
  store = record { keys = record { pem = "a"; kid = "a" } ∷ []; primary_kid = "a" };
}

server-Agrees : Agrees plain server
unfolding load_key plain
server-Agrees = record {
  rows = (record { loads = refl; primary = refl }, tt);
  published = λ kid. ground arith;
  signing = refl;
}

-- A second key is generated and promoted, and the first is retired.
abbrev rotation : List KeyRequest
rotation =
    retire_key 2 "a"
    ∷ generate_key (ok "b") 3
    ∷ promote_key "c"
    ∷ promote_key "b"
    ∷ retire_key 4 "a"
    ∷ []

rotation_test :
    (serve plain server rotation).store
    ≡ record { keys = record { pem = "b"; kid = "b" } ∷ []; primary_kid = "b" }
unfolding serve generate_oauth2_key promote_oauth2_key retire_oauth2_key generate plain
    store_signing_key promote_signing_key retire_signing_key
rotation_test = refl

-- An unknown identifier: the answer is 404, and no row is primary any more.
promote_unknown_test :
    promote_signing_key "z" (row_a ∷ []) ≡ (err not_found, record row_a { is_primary = false } ∷ [])
unfolding promote_signing_key
promote_unknown_test = refl

serve-Agrees_example : Agrees plain (serve plain server rotation)
serve-Agrees_example = serve-Agrees plain server rotation server-Agrees

restart_lem_example :
    (keys : List RsaKeyPair) × (init_db_backed plain none
        (ok "n")
        9
        (serve plain server rotation).table
      ≡ (
        ok (record { keys = keys; primary_kid = (serve plain server rotation).store.primary_kid }),
        (serve plain server rotation).table,
      ))
    × ((kid : String) → any (is_key kid) keys ≡ in_store kid (serve plain server rotation).store)
restart_lem_example = restart_lem plain server rotation server-Agrees none (ok "n") 9

primary_key_found_example :
    (pair : RsaKeyPair) × (primary_key (serve plain server rotation).store ≡ some pair)
    × (pair.kid ≡ (serve plain server rotation).store.primary_kid)
primary_key_found_example = primary_key_found plain server rotation server-Agrees

abbrev two_keys : Server
two_keys = record {
  table =
      record { kid = "b"; key_pem_enc = "b"; is_primary = false; created_at = 2; retired_at = none }
      ∷ row_a
      ∷ [];
  store = record {
    keys = record { pem = "a"; kid = "a" } ∷ record { pem = "b"; kid = "b" } ∷ [];
    primary_kid = "a";
  };
}

retires : (retire_oauth2_key 5 "b" two_keys).0 ≡ ok tt
unfolding retire_oauth2_key retire_signing_key
retires = refl

retire-unpublished_example :
    (in_store "b" (retire_oauth2_key 5 "b" two_keys).1.store ≡ false)
    × ((retire_oauth2_key 5 "b" two_keys).1.store.primary_kid ≡ two_keys.store.primary_kid)
    × (two_keys.store.primary_kid ≢ "b")
retire-unpublished_example = retire-unpublished 5 "b" two_keys retires

-- ===== src/Keys/Handlers.antt =====
-- The signing-key handlers of handlers/admin.rs, over the table and the store in memory.
use ullav_user_management.Prelude.{
  ℕ, String, Bool, true, false, not, List, [], ◌∷◌, ◌++◌, same, any, select,
}
use ullav_user_management.Errors.{Result, validation, not_found}
use ullav_user_management.Exec.{Exec, pure, lift, modify, gets, fail_if, ◌>>=◌, ◌>>◌}
use ullav_user_management.Keys.{
  KeyCrypto, KeyTable, KeyStore, is_key, generate, store_signing_key, promote_signing_key,
  retire_signing_key,
}

-- The database's table and `state.oauth2_keys`.
pub record Server : Type 0 where
  pub table : KeyTable
  pub store : KeyStore

abbrev pub on_table : {A : Type 0} → Exec KeyTable A → Exec Server A
on_table m s = ((m s.table).0, record s { table = (m s.table).1 })

-- `state.kek` is `None` unless the keys are in the database.
unfoldable pub generate_oauth2_key :
    KeyCrypto → (kek : Bool) → Result String → ℕ → Exec Server String
generate_oauth2_key crypto kek new_pem now = do
  fail_if (not kek)
      (validation "key generation requires DB-backed mode (OAUTH2_KEY_ENCRYPTION_KEY must be set)")
  (pair, pem) ← lift (generate crypto new_pem)
  enc ← lift (crypto.encrypt (crypto.trim pem))
  on_table (store_signing_key now pair.kid enc false)
  modify (λ s. record s { store = record s.store { keys = s.store.keys ++ pair ∷ [] } })
  pure pair.kid

unfoldable pub promote_oauth2_key : String → Exec Server (Unit {0})
promote_oauth2_key kid = do
  known ← gets (λ s. any (is_key kid) s.store.keys)
  fail_if (not known) not_found
  on_table (promote_signing_key kid)
  modify (λ s. record s { store = record s.store { primary_kid = kid } })

unfoldable pub retire_oauth2_key : ℕ → String → Exec Server (Unit {0})
retire_oauth2_key now kid = do
  primary ← gets (λ s. same s.store.primary_kid kid)
  fail_if primary (validation "cannot retire the primary key — promote another key first")
  on_table (retire_signing_key now kid)
  modify λ s. record s {
    store = record s.store { keys = select (λ k. not (is_key kid k)) s.store.keys };
  }

-- A request to one of the three handlers, and the server after it, whatever the answer.
pub data KeyRequest : Type 0 where
  generate_key : Result String → ℕ → KeyRequest
  promote_key : String → KeyRequest
  retire_key : ℕ → String → KeyRequest

unfoldable pub serve : KeyCrypto → Server → List KeyRequest → Server
serve crypto s [] = s
serve crypto s (generate_key new_pem now ∷ rest) =
    serve crypto (generate_oauth2_key crypto true new_pem now s).1 rest
serve crypto s (promote_key kid ∷ rest) = serve crypto (promote_oauth2_key kid s).1 rest
serve crypto s (retire_key now kid ∷ rest) = serve crypto (retire_oauth2_key now kid s).1 rest

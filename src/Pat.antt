-- ===== src/Pat.antt =====
-- Personal access tokens: the table of the migrations 026 and 033, and the functions of db/pat.rs that
-- change it or look a token up. A token is known by its hash. `now` is the clock of the statement, in
-- seconds.
pub mod Handlers
pub mod Hashes
pub mod Kept
pub mod Lasting
pub mod Revoked
pub mod Minted
pub mod Exchange
mod Tests
use ullav_user_management.Prelude.{
  ℕ, ◌+◌, String, Bool, true, false, not, ◌&&◌, Option, none, some, List, ◌∷◌, ◌==◌, same, ltb,
  length, any, find, update_where, select, Chars, codes,
}
use ullav_user_management.Errors.{Result, ok, err, conflict, database, not_found, invalid_token}
use ullav_user_management.Accounts.{User, has_user}
use ullav_user_management.Exec.{Exec, pure, gets, modify, lift, fail_if, or_fail, ◌>>=◌, ◌>>◌}

-- A row of `personal_access_tokens`.
pub record Pat : Type 0 where
  pub id : ℕ
  pub user_id : ℕ
  pub name : Chars
  pub token_hash : String
  pub token_prefix : Chars
  pub scopes : List String
  pub expires_at : Option ℕ
  pub last_used_at : Option ℕ
  pub created_at : ℕ
  pub revoked_at : Option ℕ
  pub repo_id : Option ℕ

pub record PatDb : Type 0 where
  pub pats : List Pat
  pub next_id : ℕ

abbrev pub has_hash : String → Pat → Bool
has_hash token_hash p = same p.token_hash token_hash

-- The columns that an INSERT gives.
pub record NewPat : Type 0 where
  pub user_id : ℕ
  pub name : Chars
  pub token_hash : String
  pub token_prefix : Chars
  pub scopes : List String
  pub expires_at : Option ℕ
  pub repo_id : Option ℕ

abbrev pub row_of : NewPat → ℕ → ℕ → Pat
row_of new now id = record {
  id = id;
  user_id = new.user_id;
  name = new.name;
  token_hash = new.token_hash;
  token_prefix = new.token_prefix;
  scopes = new.scopes;
  expires_at = new.expires_at;
  last_used_at = none;
  created_at = now;
  revoked_at = none;
  repo_id = new.repo_id;
}

-- `name` has at most 255 characters, `user_id` refers to a user, and `token_hash` is unique; the
-- violation of the last is `Conflict`.
abbrev pub insert_pat : List User → NewPat → ℕ → Exec PatDb Pat
insert_pat users new now = do
  fail_if (ltb 255 (length new.name)) (database "string_data_right_truncation")
  taken ← gets λ db. any (has_hash new.token_hash) db.pats
  fail_if taken conflict
  fail_if (not (has_user users new.user_id)) (database "foreign_key_violation")
  pat ← gets λ db. row_of new now db.next_id
  modify λ db. record { pats = pat ∷ db.pats; next_id = db.next_id + 1 }
  pure pat

abbrev pub lasting : ℕ → Chars → String → Chars → List String → Option ℕ → NewPat
lasting user_id name token_hash token_prefix scopes expires_at = record {
  user_id = user_id;
  name = name;
  token_hash = token_hash;
  token_prefix = token_prefix;
  scopes = scopes;
  expires_at = expires_at;
  repo_id = none;
}

abbrev map_some : Result ℕ → Result (Option ℕ)
map_some (ok t) = ok (some t)
map_some (err e) = err e

abbrev pub expiry_of : (ℕ → Result ℕ) → Option ℕ → Result (Option ℕ)
expiry_of days_after none = ok none
expiry_of days_after (some days) = map_some (days_after days)

-- `expires_at` is the clock plus `expires_in_days`: `days_after` is chrono's sum, whose panic beyond
-- its range is an error here.
unfoldable pub create_pat :
    (ℕ → ℕ → Result ℕ)
    → List User
    → ℕ
    → Chars
    → String
    → Chars
    → List String
    → Option ℕ
    → ℕ
    → Exec PatDb Pat
create_pat days_after users user_id name token_hash token_prefix scopes expires_in_days now = do
  expires_at ← lift (expiry_of (days_after now) expires_in_days)
  insert_pat users (lasting user_id name token_hash token_prefix scopes expires_at) now

abbrev pub ephemeral : ℕ → ℕ → String → Chars → List String → ℕ → NewPat
ephemeral user_id repo_id token_hash token_prefix scopes expires_at = record {
  user_id = user_id;
  name = codes "CI (ephemeral)";
  token_hash = token_hash;
  token_prefix = token_prefix;
  scopes = scopes;
  expires_at = some expires_at;
  repo_id = some repo_id;
}

unfoldable pub create_ephemeral_pat :
    List User → ℕ → ℕ → String → Chars → List String → ℕ → ℕ → Exec PatDb Pat
create_ephemeral_pat users user_id repo_id token_hash token_prefix scopes expires_at now =
    insert_pat users (ephemeral user_id repo_id token_hash token_prefix scopes expires_at) now

abbrev pub is_null : Option ℕ → Bool
is_null none = true
is_null (some t) = false

-- The WHERE of the update: the row, of the user, not revoked.
abbrev pub is_revocable : ℕ → ℕ → Pat → Bool
is_revocable user_id id p = p.id == id && p.user_id == user_id && is_null p.revoked_at

unfoldable pub revoke_pat : ℕ → ℕ → ℕ → Exec PatDb (Unit {0})
revoke_pat now user_id id = do
  found ← gets λ db. any (is_revocable user_id id) db.pats
  modify λ db. record db {
    pats = update_where (is_revocable user_id id) (λ p. record p { revoked_at = some now }) db.pats;
  }
  fail_if (not found) not_found

abbrev pub is_unexpired : ℕ → Option ℕ → Bool
is_unexpired now none = true
is_unexpired now (some t) = ltb now t

abbrev pub is_live : ℕ → String → Pat → Bool
is_live now token_hash p =
    has_hash token_hash p && is_null p.revoked_at && is_unexpired now p.expires_at

unfoldable pub get_active_pat_by_hash : ℕ → String → Exec PatDb Pat
get_active_pat_by_hash now token_hash = do
  row ← gets λ db. find (is_live now token_hash) db.pats
  or_fail row invalid_token

-- A failure is only logged.
unfoldable pub touch_pat_last_used : ℕ → ℕ → Exec PatDb (Unit {0})
touch_pat_last_used now id = modify λ db. record db {
  pats = update_where (λ p. p.id == id) (λ p. record p { last_used_at = some now }) db.pats;
}

-- The caller's tokens, without the order.
unfoldable pub list_pats : ℕ → PatDb → List Pat
list_pats user_id db = select (λ p. p.user_id == user_id) db.pats

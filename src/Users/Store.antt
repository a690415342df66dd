-- ===== src/Users/Store.antt =====
-- db/mod.rs: users and password-reset tokens. `now` is the clock of the statement, in seconds.
use ullav_user_management.Prelude.{
  ℕ, ◌+◌, ◌*◌, String, Bool, true, false, not, ◌&&◌, Option, none, some, List, [], ◌∷◌, ◌==◌, same,
  any, find, select, update_where,
}
use ullav_user_management.Errors.{Result, ok, err, database, conflict, not_found, invalid_token}
use ullav_user_management.Exec.{Exec, gets, modify, pure, lift, fail_if, or_fail, ◌>>=◌, ◌>>◌}
use ullav_user_management.Accounts.{User, get_user_by_id}
use ullav_user_management.Teams.Store.{coalesce, coalesce_null}
use ullav_user_management.Users.{PasswordResetToken, UserDb, rivals, has_id}

abbrev pub new_user : ℕ → String → String → String → Bool → Option String → Option String → User
new_user id email username password_hash is_active first_name last_name = record {
  id = id;
  email = email;
  username = username;
  password_hash = password_hash;
  is_active = is_active;
  first_name = first_name;
  last_name = last_name;
  avatar_url = none;
  confirmation_token = none;
  confirmation_token_expires_at = none;
}

-- INSERT INTO users: a unique violation is `Conflict`.
unfoldable pub insert_user : (ℕ → User) → Exec UserDb User
insert_user row = do
  id ← gets λ db. db.next_id
  taken ← gets λ db. any (rivals (row id)) db.users
  fail_if taken conflict
  modify λ db. record db { users = row id ∷ db.users; next_id = db.next_id + 1 }
  pure (row id)

unfoldable pub create_user :
    String → String → String → Option String → Option String → Exec UserDb User
create_user email username password_hash first_name last_name =
    insert_user λ id. new_user id email username password_hash false first_name last_name

unfoldable pub admin_create_user :
    String → String → String → Option String → Option String → Exec UserDb User
admin_create_user email username password_hash first_name last_name =
    insert_user λ id. new_user id email username password_hash true first_name last_name

abbrev pub update_user : ℕ → (User → User) → Exec UserDb (Unit {0})
update_user id f = modify λ db. record db { users = update_where (λ u. u.id == id) f db.users }

unfoldable pub update_password : ℕ → String → Exec UserDb (Unit {0})
update_password user_id new_hash = do
  found ← gets λ db. has_id db.users user_id
  update_user user_id λ u. record u { password_hash = new_hash }
  fail_if (not found) not_found

unfoldable pub create_reset_token : ℕ → String → ℕ → ℕ → Exec UserDb (Unit {0})
create_reset_token user_id token ttl_minutes now = do
  taken ← gets λ db. any (λ r. same r.token token) db.reset_tokens
  fail_if taken (database "unique_violation")
  known ← gets λ db. has_id db.users user_id
  fail_if (not known) (database "foreign_key_violation")
  modify λ db. record db {
    reset_tokens =
        record {
          id = db.next_id;
          user_id = user_id;
          token = token;
          expires_at = now + ttl_minutes * 60;
          used = false;
        }
        ∷ db.reset_tokens;
    next_id = db.next_id + 1;
  }

abbrev pub has_token : String → PasswordResetToken → Bool
has_token token r = same r.token token

unfoldable pub get_reset_token : String → Exec UserDb PasswordResetToken
get_reset_token token = do
  row ← gets λ db. find (has_token token) db.reset_tokens
  or_fail row invalid_token

unfoldable pub consume_reset_token : String → Exec UserDb (Unit {0})
consume_reset_token token = modify λ db. record db {
  reset_tokens = update_where (has_token token) (λ r. record r { used = true }) db.reset_tokens;
}

unfoldable pub set_confirmation_token : ℕ → String → ℕ → Exec UserDb (Unit {0})
set_confirmation_token user_id token expires_at = update_user user_id λ u. record u {
  confirmation_token = some token;
  confirmation_token_expires_at = some expires_at;
}

abbrev pub is_token : String → Option String → Bool
is_token token none = false
is_token token (some t) = same t token

abbrev pub is_confirmed_by : String → User → Bool
is_confirmed_by token u = is_token token u.confirmation_token

-- `query_opt`: more than one row is an error.
abbrev pub sole : List User → Result User
sole [] = err invalid_token
sole (u ∷ []) = ok u
sole (u ∷ v ∷ users) = err (database "query returned an unexpected number of rows")

unfoldable pub get_user_by_confirmation_token : String → Exec UserDb User
get_user_by_confirmation_token token = do
  rows ← gets λ db. select (is_confirmed_by token) db.users
  lift (sole rows)

unfoldable pub activate_user : ℕ → Exec UserDb (Unit {0})
activate_user user_id = update_user user_id λ u. record u {
  is_active = true;
  confirmation_token = none;
  confirmation_token_expires_at = none;
}

-- CASE: NULL where the column is cleared, the new value where there is one, else the old.
abbrev pub set_nullable : Option (Option String) → Option String → Option String
set_nullable none old = old
set_nullable (some none) old = none
set_nullable (some (some new)) old = some new

unfoldable pub update_user_profile :
    ℕ → Option String → Option String → Option (Option String) → Exec UserDb User
update_user_profile user_id first_name last_name avatar_url = do
  update_user user_id λ u. record u {
    first_name = coalesce_null first_name u.first_name;
    last_name = coalesce_null last_name u.last_name;
    avatar_url = set_nullable avatar_url u.avatar_url;
  }
  users ← gets λ db. db.users
  lift (get_user_by_id users user_id)

pub record AdminUpdateUserRequest : Type 0 where
  pub email : Option String
  pub username : Option String
  pub is_active : Option Bool
  pub first_name : Option (Option String)
  pub last_name : Option (Option String)
  pub avatar_url : Option (Option String)

abbrev pub updated_user : AdminUpdateUserRequest → User → User
updated_user r u = record u {
  email = coalesce r.email u.email;
  username = coalesce r.username u.username;
  is_active = coalesce r.is_active u.is_active;
  first_name = set_nullable r.first_name u.first_name;
  last_name = set_nullable r.last_name u.last_name;
  avatar_url = set_nullable r.avatar_url u.avatar_url;
}

-- The new row shares its e-mail address or username with another.
abbrev pub is_rival : AdminUpdateUserRequest → User → User → Bool
is_rival r u v = not (v.id == u.id) && rivals (updated_user r u) v

-- The answer's roles are not part of the result.
unfoldable pub admin_update_user : ℕ → AdminUpdateUserRequest → Exec UserDb User
admin_update_user id r = do
  users ← gets λ db. db.users
  u ← lift (get_user_by_id users id)
  fail_if (any (is_rival r u) users) (database "unique_violation")
  update_user id (updated_user r)
  changed ← gets λ db. db.users
  lift (get_user_by_id changed id)

-- ===== src/Oauth/Clients.antt =====
-- db/oauth2.rs: the table `oauth2_clients`, of public clients and of service clients.
use ullav_user_management.Prelude.{
  ℕ, String, Bool, true, false, not, ◌&&◌, Option, none, some, List, [], ◌∷◌, ◌==◌, same, any, find,
  select, Chars,
}
use ullav_user_management.Errors.{Result, ok, err, conflict, not_found, or_fail}
use ullav_user_management.Exec.{Exec, gets, modify, pure, fail_if, ◌>>=◌, ◌>>◌}

-- A row of `oauth2_clients`; registered_at, which only orders a listing, is left out.
pub record Client : Type 0 where
  pub client_id : String
  pub client_name : String
  pub redirect_uris : List String
  pub allowed_scopes : List Chars
  pub first_party : Bool
  pub registered_by : Option ℕ
  pub client_secret_hash : Option String
  pub service_account_user_id : Option ℕ

pub record ServiceClient : Type 0 where
  pub client_id : String
  pub allowed_scopes : List Chars
  pub client_secret_hash : String
  pub service_account_user_id : ℕ

abbrev pub is_client : String → Client → Bool
is_client client_id c = same c.client_id client_id

unfoldable pub get_oauth2_client : List Client → String → Result Client
get_oauth2_client clients client_id = or_fail (find (is_client client_id) clients) not_found

-- A row with a secret and an account; others are `NotFound`.
abbrev pub service_row : Client → Option String → Option ℕ → Result ServiceClient
service_row c (some client_secret_hash) (some user_id) = ok (record {
  client_id = c.client_id;
  allowed_scopes = c.allowed_scopes;
  client_secret_hash = client_secret_hash;
  service_account_user_id = user_id;
})
service_row c _ _ = err not_found

abbrev pub service_of : Option Client → Result ServiceClient
service_of none = err not_found
service_of (some c) = service_row c c.client_secret_hash c.service_account_user_id

-- `client_id` is the primary key.
unfoldable pub get_service_client : List Client → String → Result ServiceClient
get_service_client clients client_id = service_of (find (is_client client_id) clients)

-- INSERT: a unique violation is `Conflict`.
abbrev pub insert_client : Client → Exec (List Client) (Unit {0})
insert_client c = do
  taken ← gets λ clients. any (is_client c.client_id) clients
  fail_if taken conflict
  modify λ clients. c ∷ clients

unfoldable pub create_service_client :
    String → String → List Chars → ℕ → String → Exec (List Client) (Unit {0})
create_service_client client_id client_name allowed_scopes service_account_user_id
      client_secret_hash =
    insert_client (record {
      client_id = client_id;
      client_name = client_name;
      redirect_uris = [];
      allowed_scopes = allowed_scopes;
      first_party = false;
      registered_by = none;
      client_secret_hash = some client_secret_hash;
      service_account_user_id = some service_account_user_id;
    })

unfoldable pub register_oauth2_client :
    String → String → List String → List Chars → Option ℕ → Exec (List Client) Client
register_oauth2_client client_id client_name redirect_uris allowed_scopes registered_by = do
  insert_client (record {
    client_id = client_id;
    client_name = client_name;
    redirect_uris = redirect_uris;
    allowed_scopes = allowed_scopes;
    first_party = false;
    registered_by = registered_by;
    client_secret_hash = none;
    service_account_user_id = none;
  })
  pure (record {
    client_id = client_id;
    client_name = client_name;
    redirect_uris = redirect_uris;
    allowed_scopes = allowed_scopes;
    first_party = false;
    registered_by = registered_by;
    client_secret_hash = none;
    service_account_user_id = none;
  })

abbrev pub has_secret : Option String → Bool
has_secret none = false
has_secret (some hash) = true

abbrev pub is_account : ℕ → Option ℕ → Bool
is_account user_id none = false
is_account user_id (some u) = u == user_id

-- DELETE: no row is `NotFound`.
abbrev pub delete_clients : (Client → Bool) → Exec (List Client) (Unit {0})
delete_clients p = do
  found ← gets (any p)
  modify (select λ c. not (p c))
  fail_if (not found) not_found

unfoldable pub delete_service_client : String → Exec (List Client) (Unit {0})
delete_service_client client_id =
    delete_clients λ c. is_client client_id c && has_secret c.client_secret_hash

unfoldable pub delete_service_client_owned : String → ℕ → Exec (List Client) (Unit {0})
delete_service_client_owned client_id user_id = delete_clients λ c.
    is_client client_id c
    && is_account user_id c.service_account_user_id
    && has_secret c.client_secret_hash

-- ===== src/Teams/Store.antt =====
-- db/mod.rs: creating, changing, finding and deleting teams.
use ullav_user_management.Prelude.{
  ℕ, ◌+◌, String, Bool, true, false, not, ◌&&◌, ◌||◌, ltb, Option, none, some, List, ◌∷◌, ◌==◌, any,
  find, select, update_where, map, length, Chars, codes, same_chars,
}
use ullav_user_management.Errors.{conflict, database, internal, not_found}
use ullav_user_management.Accounts.{User, has_user}
use ullav_user_management.Exec.{
  Exec, pure, lift, gets, modify, fail_if, or_fail, transaction, ◌>>=◌, ◌>>◌,
}
use ullav_user_management.Slug.{validate_slug_format, unique_team_slug}
use ullav_user_management.Teams.{Team, active, TeamDb, has_team, cascade}

-- COALESCE($n, column)
abbrev pub coalesce : {A : Type 0} → Option A → A → A
coalesce none old = old
coalesce (some new) old = new

abbrev pub coalesce_null : {A : Type 0} → Option A → Option A → Option A
coalesce_null none old = old
coalesce_null (some new) old = some new

abbrev pub slugs : TeamDb → List Chars
slugs db = map (λ t. t.slug) db.teams

abbrev pub slug_taken : TeamDb → Chars → Bool
slug_taken db slug = any (λ s. same_chars s slug) (slugs db)

-- The four inserts of `create_team`.
unfoldable pub insert_team :
    Chars
    → Chars
    → Option String
    → Option String
    → Option String
    → ℕ
    → Option ℕ
    → ℕ
    → TeamDb
    → TeamDb
insert_team name slug description purpose avatar_url owner_id organization_id now db =
    let team = db.next_id in
    let member = db.next_id + 1 in
    let role = db.next_id + 2 in
    record db {
      teams =
          record {
            id = team;
            name = name;
            slug = slug;
            description = description;
            purpose = purpose;
            avatar_url = avatar_url;
            owner_id = owner_id;
            leader_id = owner_id;
            organization_id = organization_id;
            is_support_team = false;
          }
          ∷ db.teams;
      members =
          record {
            id = member;
            team_id = team;
            user_id = owner_id;
            status = active;
            invited_by = none;
            invite_token = none;
            invite_token_expires_at = none;
            invited_at = now;
            joined_at = some now;
          }
          ∷ db.members;
      roles =
          record {
            id = role;
            team_id = team;
            name = codes "All";
            description = some "Everybody in the team";
            is_all = true;
          }
          ∷ db.roles;
      member_roles =
          record { team_id = team; role_id = role; member_id = member } ∷ db.member_roles;
      next_id = db.next_id + 3;
    }

-- VARCHAR(255) for names and slugs, VARCHAR(512) for the address of the picture; the length is in
-- characters.
abbrev pub is_longer : ℕ → Option Chars → Bool
is_longer n none = false
is_longer n (some s) = ltb n (length s)

abbrev pub is_long_url : Option String → Bool
is_long_url none = false
is_long_url (some s) = ltb 512 (length (codes s))

abbrev pub is_too_long : Option Chars → Option Chars → Option String → Bool
is_too_long name slug avatar_url =
    is_longer 255 name || is_longer 255 slug || is_long_url avatar_url

-- The slug search runs one round for each team and one more; it never needs them all. The owner is a
-- user; `organization_id` is that of a row that the caller just read or made.
unfoldable pub create_team :
    (Chars → Chars)
    → List User
    → Chars
    → Option String
    → Option String
    → Option String
    → ℕ
    → Option ℕ
    → ℕ
    → Exec TeamDb ℕ
unfolding insert_team
create_team to_lowercase users name description purpose avatar_url owner_id organization_id now =
    transaction do
      found ← gets λ db. unique_team_slug to_lowercase (length (slugs db) + 1) (slug_taken db) name
      slug ← or_fail found (internal "out of fuel")
      fail_if (is_too_long (some name) (some slug) avatar_url)
          (database "string_data_right_truncation")
      fail_if (not (has_user users owner_id)) (database "foreign_key_violation")
      id ← gets (λ db. db.next_id)
      modify (insert_team name slug description purpose avatar_url owner_id organization_id now)
      pure id

unfoldable pub check_slug_available : Chars → ℕ → Exec TeamDb (Unit {0})
check_slug_available slug team_id = do
  lift (validate_slug_format slug)
  taken ← gets (λ db. any (λ t. same_chars t.slug slug && not (t.id == team_id)) db.teams)
  fail_if taken conflict

unfoldable pub check_slug : Option Chars → ℕ → Exec TeamDb (Unit {0})
unfolding check_slug_available
check_slug none team_id = pure tt
check_slug (some slug) team_id = check_slug_available slug team_id

-- The fields that owners and leaders may change.
pub record TeamUpdate : Type 0 where
  pub name : Option Chars
  pub slug : Option Chars
  pub description : Option String
  pub purpose : Option String
  pub avatar_url : Option String
  pub leader_id : Option ℕ

abbrev pub updated : TeamUpdate → Team → Team
updated u t = record t {
  name = coalesce u.name t.name;
  slug = coalesce u.slug t.slug;
  description = coalesce_null u.description t.description;
  purpose = coalesce_null u.purpose t.purpose;
  avatar_url = coalesce_null u.avatar_url t.avatar_url;
  leader_id = coalesce u.leader_id t.leader_id;
}

unfoldable pub update_team : ℕ → TeamUpdate → Exec TeamDb (Unit {0})
unfolding check_slug
update_team team_id u = do
  check_slug u.slug team_id
  found ← gets (λ db. has_team db.teams team_id)
  fail_if (found && is_too_long u.name u.slug u.avatar_url)
      (database "string_data_right_truncation")
  modify (λ db. record db { teams = update_where (λ t. t.id == team_id) (updated u) db.teams })
  fail_if (not found) not_found

unfoldable pub get_team_ownership : ℕ → Exec TeamDb (ℕ × ℕ)
get_team_ownership team_id = do
  found ← gets (λ db. find (λ t. t.id == team_id) db.teams)
  t ← or_fail found not_found
  pure (t.owner_id, t.leader_id)

unfoldable pub delete_team : ℕ → Exec TeamDb (Unit {0})
unfolding cascade
delete_team team_id = do
  found ← gets (λ db. has_team db.teams team_id)
  modify (λ db. cascade (record db { teams = select (λ t. not (t.id == team_id)) db.teams }))
  fail_if (not found) not_found

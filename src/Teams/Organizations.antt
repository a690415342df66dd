-- ===== src/Teams/Organizations.antt =====
-- db/mod.rs: organizations, and the team that every Clann user gets in the shared one. The handlers of
-- handlers/admin.rs are in Teams/Organizations/Handlers.antt.
pub mod Handlers
pub mod Clann
use ullav_user_management.Prelude.{
  ℕ, ◌+◌, String, Bool, true, false, not, ◌&&◌, Option, none, some, List, [], ◌∷◌, ◌++◌, ◌==◌, any,
  find, select, update_where, map, length, Chars, codes, same_chars, if◌then◌else◌,
}
use ullav_user_management.Errors.{conflict, internal, not_found, validation}
use ullav_user_management.Exec.{Exec, pure, lift, gets, modify, fail_if, or_fail, ◌>>=◌, ◌>>◌}
use ullav_user_management.Accounts.{User}
use ullav_user_management.Slug.{validate_slug_format, unique_org_slug}
use ullav_user_management.Teams.{Team, Organization, Member, TeamDb, is_active}
use ullav_user_management.Teams.Store.{coalesce, coalesce_null, create_team}
use ullav_user_management.Teams.Support.{is_organization}

abbrev pub org_slug_taken : TeamDb → Chars → Bool
org_slug_taken db slug = any (λ o. same_chars o.slug slug) db.organizations

abbrev pub insert_organization : Chars → Chars → Option String → TeamDb → TeamDb
insert_organization name slug description db = record db {
  organizations =
      record { id = db.next_id; name = name; slug = slug; description = description }
      ∷ db.organizations;
  next_id = db.next_id + 1;
}

-- The slug search runs one round for each organization and one more; it never needs them all.
unfoldable pub create_organization :
    (Chars → Chars) → Chars → Option String → Exec TeamDb Organization
create_organization to_lowercase name description = do
  found ←
      gets λ db. unique_org_slug to_lowercase (length db.organizations + 1) (org_slug_taken db) name
  slug ← or_fail found (internal "out of fuel")
  id ← gets λ db. db.next_id
  modify (insert_organization name slug description)
  pure (record { id = id; name = name; slug = slug; description = description })

unfoldable pub get_organization : ℕ → Exec TeamDb Organization
get_organization id = do
  row ← gets λ db. find (λ o. o.id == id) db.organizations
  or_fail row not_found

unfoldable pub get_organization_by_slug : Chars → TeamDb → Option Organization
get_organization_by_slug slug db = find (λ o. same_chars o.slug slug) db.organizations

-- INSERT … ON CONFLICT (slug) DO UPDATE … RETURNING id
abbrev pub existing_or_new : Chars → Chars → Option Organization → Exec TeamDb ℕ
existing_or_new slug name (some o) = pure o.id
existing_or_new slug name none = do
  id ← gets λ db. db.next_id
  modify (insert_organization name slug none)
  pure id

unfoldable pub ensure_organization_by_slug : Chars → Chars → Exec TeamDb ℕ
unfolding get_organization_by_slug
ensure_organization_by_slug slug name = do
  existing ← gets (get_organization_by_slug slug)
  existing_or_new slug name existing

-- The check of a new slug: its form, and that no other organization has it.
abbrev pub check_org_slug : ℕ → Option Chars → Exec TeamDb (Unit {0})
check_org_slug id none = pure tt
check_org_slug id (some slug) = do
  lift (validate_slug_format slug)
  taken ← gets λ db. any (λ o. same_chars o.slug slug && not (o.id == id)) db.organizations
  fail_if taken conflict

unfoldable pub admin_update_organization :
    ℕ → Option Chars → Option Chars → Option String → Exec TeamDb (Unit {0})
admin_update_organization id name slug description = do
  check_org_slug id slug
  found ← gets λ db. any (λ o. o.id == id) db.organizations
  modify λ db. record db {
    organizations =
        update_where (λ o. o.id == id)
          (λ o. record o {
            name = coalesce name o.name;
            slug = coalesce slug o.slug;
            description = coalesce_null description o.description;
          })
          db.organizations;
  }
  fail_if (not found) not_found

-- ON DELETE SET NULL
abbrev pub leave_organization : ℕ → Team → Team
leave_organization id t = record t { organization_id = none }

unfoldable pub delete_organization : ℕ → Exec TeamDb (Unit {0})
delete_organization id = do
  found ← gets λ db. any (λ o. o.id == id) db.organizations
  modify λ db. record db {
    organizations = select (λ o. not (o.id == id)) db.organizations;
    teams =
        update_where (λ t. is_organization id t.organization_id) (leave_organization id) db.teams;
  }
  fail_if (not found) not_found

abbrev pub in_organization : TeamDb → ℕ → ℕ → Bool
in_organization db organization_id team_id =
    any (λ t. t.id == team_id && is_organization organization_id t.organization_id) db.teams

unfoldable pub user_has_team_in_org : ℕ → ℕ → TeamDb → Bool
user_has_team_in_org user_id organization_id db =
    any
      (λ m.
        m.user_id == user_id && is_active m.status && in_organization db organization_id m.team_id)
      db.members

abbrev pub is_empty : Chars → Bool
is_empty [] = true
is_empty (c ∷ s) = false

abbrev pub first_or : Chars → Chars → Chars
first_or first username = if is_empty first then username else first

abbrev pub full_or : Chars → Chars → Chars → Chars
full_or first last username =
    if is_empty first then username else if is_empty last then first else first ++ 0x20 ∷ last

abbrev pub display_name : Option String → Option String → Chars → Chars
display_name none last username = username
display_name (some first) none username = first_or (codes first) username
display_name (some first) (some last) username = full_or (codes first) (codes last) username

unfoldable pub team_display_name : User → Chars
team_display_name user = display_name user.first_name user.last_name (codes user.username)

abbrev pub family_name : User → Chars
family_name user = team_display_name user ++ codes "'s Family"

-- A team is made for a user who is in none.
abbrev pub team_unless : Bool → (Chars → Chars) → List User → ℕ → User → ℕ → Exec TeamDb (Option ℕ)
team_unless true to_lowercase users now user org_id = pure none
team_unless false to_lowercase users now user org_id = do
  team_id ←
      create_team to_lowercase users (family_name user) none none none user.id (some org_id) now
  pure (some team_id)

unfoldable pub ensure_clann_team : (Chars → Chars) → List User → ℕ → User → Exec TeamDb (Option ℕ)
ensure_clann_team to_lowercase users now user = do
  org_id ← ensure_organization_by_slug (codes "clann") (codes "Clann")
  present ← gets (user_has_team_in_org user.id org_id)
  team_unless present to_lowercase users now user org_id

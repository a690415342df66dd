-- ===== src/Teams/Support.antt =====
-- db/mod.rs: `admin_update_team`, which moves teams between organizations and flags Support teams,
-- and `get_support_team`.
use ullav_user_management.Prelude.{
  ℕ, String, Bool, true, false, not, ◌&&◌, Option, none, some, List, [], ◌∷◌, ◌==◌, any, find,
  select, update_where, Chars,
}
use ullav_user_management.Errors
use ullav_user_management.Errors.{Result, ok, err, not_found, validation}
use ullav_user_management.Exec.{
  Exec, pure, gets, modify, fail_if, or_fail, transaction, ◌>>=◌, ◌>>◌,
}
use ullav_user_management.Teams.{Team, TeamDb, has_team}
use ullav_user_management.Teams.Store.{coalesce, coalesce_null, check_slug, is_too_long}

-- `organization_id` is `none` to keep the organization and `some none` to clear it.
pub record AdminTeamUpdate : Type 0 where
  pub name : Option Chars
  pub slug : Option Chars
  pub description : Option String
  pub purpose : Option String
  pub avatar_url : Option String
  pub owner_id : Option ℕ
  pub leader_id : Option ℕ
  pub organization_id : Option (Option ℕ)
  pub is_support_team : Option Bool

abbrev pub moved : Option (Option ℕ) → Option ℕ → Option ℕ
moved none old = old
moved (some new) old = new

abbrev pub admin_updated : AdminTeamUpdate → Team → Team
admin_updated u t = record t {
  name = coalesce u.name t.name;
  slug = coalesce u.slug t.slug;
  description = coalesce_null u.description t.description;
  purpose = coalesce_null u.purpose t.purpose;
  avatar_url = coalesce_null u.avatar_url t.avatar_url;
  owner_id = coalesce u.owner_id t.owner_id;
  leader_id = coalesce u.leader_id t.leader_id;
  organization_id = moved u.organization_id t.organization_id;
  is_support_team = coalesce u.is_support_team t.is_support_team;
}

abbrev pub check_organization : Option (Option ℕ) → Exec TeamDb (Unit {0})
check_organization none = pure tt
check_organization (some none) = pure tt
check_organization (some (some id)) = do
  exists ← gets λ db. any (λ o. o.id == id) db.organizations
  fail_if (not exists) (validation "organization not found")

-- The organization the team will have; the query for the old one fails where there is no team.
abbrev pub effective_organization : ℕ → Option (Option ℕ) → Exec TeamDb (Option ℕ)
effective_organization team_id (some new) = pure new
effective_organization team_id none = do
  row ← gets λ db. find (λ t. t.id == team_id) db.teams
  t ← or_fail row (Errors.database "unexpected number of rows")
  pure t.organization_id

abbrev pub is_organization : ℕ → Option ℕ → Bool
is_organization id none = false
is_organization id (some o) = o == id

abbrev pub is_support_of : ℕ → Team → Bool
is_support_of organization_id t =
    t.is_support_team && is_organization organization_id t.organization_id

-- The flag is taken from the organization's teams before it is set.
abbrev pub unset_support : ℕ → Option (Option ℕ) → Option Bool → Exec TeamDb (Unit {0})
unset_support team_id organization_id none = pure tt
unset_support team_id organization_id (some false) = pure tt
unset_support team_id organization_id (some true) = do
  effective ← effective_organization team_id organization_id
  org ← or_fail effective (
      validation
        "a team must have an organization_id set before it can be flagged as the Support team")
  modify λ db. record db {
    teams = update_where (is_support_of org) (λ t. record t { is_support_team = false }) db.teams;
  }

-- The statements inside the transaction. `owner_id` and `leader_id` refer to users; what the database
-- does where there is none is not modelled.
unfoldable pub write_team : ℕ → AdminTeamUpdate → Exec TeamDb (Unit {0})
write_team team_id u = do
  unset_support team_id u.organization_id u.is_support_team
  found ← gets λ db. has_team db.teams team_id
  fail_if (found && is_too_long u.name u.slug u.avatar_url)
      (Errors.database "string_data_right_truncation")
  modify λ db. record db { teams = update_where (λ t. t.id == team_id) (admin_updated u) db.teams }
  fail_if (not found) not_found

unfoldable pub admin_update_team : ℕ → AdminTeamUpdate → Exec TeamDb (Unit {0})
unfolding check_slug write_team
admin_update_team team_id u = do
  check_slug u.slug team_id
  check_organization u.organization_id
  transaction (write_team team_id u)

-- The id stands for the three columns of `TeamLookup`.
pub data SupportTeamLookup : Type 0 where
  found : ℕ → SupportTeamLookup
  missing : SupportTeamLookup
  ambiguous : SupportTeamLookup

abbrev pub lookup_one : List Team → SupportTeamLookup
lookup_one [] = missing
lookup_one (t ∷ []) = found t.id
lookup_one (t ∷ u ∷ ts) = ambiguous

-- `query_opt` is an error where it finds two rows.
abbrev pub lookup_opt : List Team → Result SupportTeamLookup
lookup_opt [] = ok missing
lookup_opt (t ∷ []) = ok (found t.id)
lookup_opt (t ∷ u ∷ ts) = err (Errors.database "unexpected number of rows")

unfoldable pub get_support_team : Option ℕ → TeamDb → Result SupportTeamLookup
get_support_team none db = ok (lookup_one (select (λ t. t.is_support_team) db.teams))
get_support_team (some org) db = lookup_opt (select (is_support_of org) db.teams)

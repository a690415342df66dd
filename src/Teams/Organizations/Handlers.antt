-- ===== src/Teams/Organizations/Handlers.antt =====
-- handlers/admin.rs: organizations, and the backfill of Clann teams. The reads that make up an answer
-- are done where they may fail.
use ullav_user_management.Prelude.{ℕ, String, Option, List, [], ◌∷◌, select, Chars}
use ullav_user_management.Errors.{validation}
use ullav_user_management.Exec.{Exec, fail_if, ◌>>◌}
use ullav_user_management.Accounts.{User}
use ullav_user_management.Words.{trim}
use ullav_user_management.Teams.{Organization, TeamDb}
use ullav_user_management.Teams.Organizations.{
  is_empty, ensure_clann_team, admin_update_organization,
}
use ullav_user_management.Teams.Organizations as Store

unfoldable pub create_organization :
    (Chars → Chars) → Chars → Option String → Exec TeamDb Organization
unfolding Store.create_organization trim
create_organization to_lowercase name description = do
  fail_if (is_empty (trim name)) (validation "name must not be empty")
  Store.create_organization to_lowercase (trim name) description

unfoldable pub update_organization :
    ℕ → Option Chars → Option Chars → Option String → Exec TeamDb Organization
unfolding admin_update_organization Store.get_organization
update_organization id name slug description = do
  admin_update_organization id name slug description
  Store.get_organization id

unfoldable pub delete_organization : ℕ → Exec TeamDb (Unit {0})
unfolding Store.delete_organization
delete_organization id = Store.delete_organization id

-- `WHERE is_active = TRUE`
unfoldable pub list_active_users : List User → List User
list_active_users users = select (λ u. u.is_active) users

-- The loop of the backfill: an error is only logged.
abbrev pub backfill : (Chars → Chars) → List User → ℕ → List User → TeamDb → TeamDb
backfill to_lowercase all_users now [] db = db
backfill to_lowercase all_users now (user ∷ users) db =
    backfill to_lowercase all_users now users
      (ensure_clann_team to_lowercase all_users now user db).1

unfoldable pub backfill_clann_teams : (Chars → Chars) → ℕ → List User → TeamDb → TeamDb
unfolding list_active_users
backfill_clann_teams to_lowercase now users db =
    backfill to_lowercase users now (list_active_users users) db

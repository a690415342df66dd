-- ===== src/Teams/Sync/Organizations.antt =====
-- The functions on organizations, the teams of Clann users and the removal of a user keep the invariant.
use ullav_user_management.Prelude.{
  ℕ, ◌+◌, ◌≡◌, refl, inl, inr, arith, Bool, not, ◌||◌, Option, none, some, List, [], ◌∷◌, ◌==◌, any,
  length, Bool-cases, Option-cases, String, Chars, find,
}
use ullav_user_management.Errors.{database, not_found}
use ullav_user_management.Exec.Keeps.{
  after-fail_if, after-guard, after-found, after-lift, after-query, after-then,
}
use ullav_user_management.Accounts.{User, has_user}
use ullav_user_management.Slug.{validate_slug_format, unique_org_slug}
use ullav_user_management.Teams.{TeamDb}
use ullav_user_management.Teams.Organizations.{
  insert_organization, org_slug_taken, create_organization, get_organization_by_slug,
  get_organization, ensure_organization_by_slug, check_org_slug, admin_update_organization,
  leave_organization, delete_organization, user_has_team_in_org, family_name, ensure_clann_team,
}
use ullav_user_management.Teams.Organizations.Handlers.{
  backfill, backfill_clann_teams, list_active_users,
}
use ullav_user_management.Exec.{pure}
use ullav_user_management.Teams.Store.{create_team}
use ullav_user_management.Teams.Support.{is_organization}
use ullav_user_management.Teams.Removal.{is_by, is_led_by, detached, admin_delete_user}
use ullav_user_management.Teams.Sync.{Synced}
use ullav_user_management.Teams.Sync.Tables.{cascade-Synced, members-selected}
use ullav_user_management.Teams.Sync.Updates.{teams-updated, members-updated}
use ullav_user_management.Teams.Sync.Structure.{create_team-Synced}

module _ (db : TeamDb) (h : Synced db) where
  insert_organization-Synced :
      (name slug : Chars) (description : Option String)
      → Synced (insert_organization name slug description db)
  insert_organization-Synced name slug description = (
    record {
      team_has_all = h.0.team_has_all;
      active_holds_all = h.0.active_holds_all;
      one_flag = h.0.one_flag;
      one_row = h.0.one_row;
      role_fresh = λ r i. omega (arith, h.0.role_fresh r i);
      team_fresh = λ t i. omega (arith, h.0.team_fresh t i);
    },
    h.1,
  )

  pub create_organization-Synced :
      (to_lowercase : Chars → Chars) (name : Chars) (description : Option String)
      → Synced (create_organization to_lowercase name description db).1
  unfolding create_organization
  create_organization-Synced to_lowercase name description =
      after-found Synced
        (unique_org_slug to_lowercase (length db.organizations + 1) (org_slug_taken db) name) _ _ db
        h λ slug _. insert_organization-Synced name slug description

  check_org_slug-reads : (id : ℕ) (slug : Option Chars) → (check_org_slug id slug db).1 ≡ db
  check_org_slug-reads id none = refl
  check_org_slug-reads id (some slug) =
      after-lift (λ s. s ≡ db) (validate_slug_format slug) _ db refl
        λ _ _. after-fail_if (λ s. s ≡ db) _ _ db refl

  pub admin_update_organization-Synced :
      (id : ℕ) (name slug : Option Chars) (description : Option String)
      → Synced (admin_update_organization id name slug description db).1
  unfolding admin_update_organization
  admin_update_organization-Synced id name slug description =
      after-query Synced (check_org_slug id slug) _ db (check_org_slug-reads id slug) h
        λ _ _. after-fail_if Synced (not (any (λ o. o.id == id) db.organizations)) not_found _ h

  pub get_organization-Synced : (id : ℕ) → Synced (get_organization id db).1
  unfolding get_organization
  get_organization-Synced id = elim (Option-cases (find (λ o. o.id == id) db.organizations)) [
    | inl e ↦ rw e h
    | inr (o, e) ↦ rw e h
  ]

  pub delete_organization-Synced : (id : ℕ) → Synced (delete_organization id db).1
  unfolding delete_organization
  delete_organization-Synced id =
      after-fail_if Synced (not (any (λ o. o.id == id) db.organizations)) not_found _ (
        teams-updated h.0 (λ t. is_organization id t.organization_id) (leave_organization id)
          (λ t. refl) h.1)

  ensure_organization-Synced :
      (slug name : Chars) → Synced (ensure_organization_by_slug slug name db).1
  unfolding ensure_organization_by_slug
  ensure_organization-Synced slug name = elim (Option-cases (get_organization_by_slug slug db)) [
    | inl e ↦ rw e (insert_organization-Synced name slug none)
    | inr (o, e) ↦ rw e h
  ]

  pub admin_delete_user-Synced :
      (users : List User) (audited : Bool) (user_id : ℕ)
      → Synced (admin_delete_user users audited user_id db).1
  unfolding admin_delete_user
  admin_delete_user-Synced users audited user_id =
      after-guard Synced (not (has_user users user_id)) not_found _ db h λ _.
        after-guard Synced (any (is_led_by user_id) db.teams || audited)
          (database "foreign_key_violation") _ db h
          λ _. cascade-Synced (detached user_id db) (
            members-selected
              (members-updated h.0 (λ m. is_by user_id m.invited_by)
                (λ m. record m { invited_by = none }) (λ m. refl) (λ m. refl) (λ m. refl)
                (λ m. refl) h.1).0
              (λ m. not (m.user_id == user_id)))

pub ensure_clann_team-Synced :
    (to_lowercase : Chars → Chars) (users : List User) (now : ℕ) (user : User) (db : TeamDb)
    → Synced db
    → Synced (ensure_clann_team to_lowercase users now user db).1
unfolding ensure_clann_team
ensure_clann_team-Synced to_lowercase users now user db h =
    after-then Synced (ensure_organization_by_slug _ _) _ db (ensure_organization-Synced db h _ _)
      λ org_id s k. elim (Bool-cases (user_has_team_in_org user.id org_id s)) [
        | inl e ↦ rw e k
        | inr e ↦ rw e (
            after-then Synced
              (create_team to_lowercase users (family_name user) none none none user.id
                (some org_id) now)
              (λ team_id. pure (some team_id)) s
              (create_team-Synced s k to_lowercase users (family_name user) none none none user.id
                (some org_id) now)
              λ _ _ l. l)
      ]

backfill-Synced :
    (to_lowercase : Chars → Chars) (all_users : List User) (now : ℕ) (users : List User)
    (db : TeamDb)
    → Synced db
    → Synced (backfill to_lowercase all_users now users db)
backfill-Synced to_lowercase all_users now [] db h = h
backfill-Synced to_lowercase all_users now (user ∷ users) db h =
    backfill-Synced to_lowercase all_users now users _
      (ensure_clann_team-Synced to_lowercase all_users now user db h)

pub backfill_clann_teams-Synced :
    (to_lowercase : Chars → Chars) (now : ℕ) (users : List User) (db : TeamDb)
    → Synced db
    → Synced (backfill_clann_teams to_lowercase now users db)
unfolding backfill_clann_teams
backfill_clann_teams-Synced to_lowercase now users db h =
    backfill-Synced to_lowercase users now (list_active_users users) db h

-- ===== src/Teams/Sync/Products.antt =====
-- The functions on products and `admin_update_team` keep the invariant, on every path.
use ullav_user_management.Prelude.{
  ℕ, ◌≡◌, refl, Bool, true, false, not, ◌&&◌, Option, none, some, ◌==◌, any, find, select,
  update_where, String,
}
use ullav_user_management.Errors.{database, not_found}
use ullav_user_management.Exec.Keeps.{
  after-fail_if, after-guard, after-found, after-transaction, after-query, after-then,
}
use ullav_user_management.Teams.{TeamDb, has_team, is_access, is_member}
use ullav_user_management.Teams.Store.{check_slug, is_too_long}
use ullav_user_management.Teams.Roles.{
  enable_team_product, disable_team_product, assign_member_product_role, revoke_member_product_role,
  is_product_role,
}
use ullav_user_management.Teams.Support.{
  AdminTeamUpdate, admin_updated, write_team, admin_update_team, check_organization,
  effective_organization, unset_support, is_support_of,
}
use ullav_user_management.Teams.Sync.{Synced}
use ullav_user_management.Teams.Sync.Tables.{cascade-Synced}
use ullav_user_management.Teams.Sync.Updates.{teams-updated}
use ullav_user_management.Teams.Sync.Structure.{check_slug-reads}

module _ (db : TeamDb) (h : Synced db) where
  pub enable_team_product-Synced :
      (team_id : ℕ) (product_slug : String) (granted_by : ℕ)
      → Synced (enable_team_product team_id product_slug granted_by db).1
  unfolding enable_team_product
  enable_team_product-Synced team_id product_slug granted_by =
      after-guard Synced (not (has_team db.teams team_id)) _ _ db h λ _. h

  pub disable_team_product-Synced :
      (team_id : ℕ) (product_slug : String)
      → Synced (disable_team_product team_id product_slug db).1
  unfolding disable_team_product
  disable_team_product-Synced team_id product_slug =
      after-fail_if Synced (not (any (is_access team_id product_slug) db.product_access)) not_found
        _
        (cascade-Synced
          (record db {
            product_access = select (λ a. not (is_access team_id product_slug a)) db.product_access;
          })
          h.0)

  pub assign_member_product_role-Synced :
      (team_id user_id : ℕ) (product_slug role : String) (assigned_by : ℕ)
      → Synced (assign_member_product_role team_id user_id product_slug role assigned_by db).1
  unfolding assign_member_product_role
  assign_member_product_role-Synced team_id user_id product_slug role assigned_by =
      after-guard Synced (not (any (is_member team_id user_id) db.members)) _ _ db h λ _.
        after-guard Synced (not (any (is_access team_id product_slug) db.product_access)) _ _ db h
          λ _. h

  pub revoke_member_product_role-Synced :
      (team_id user_id : ℕ) (product_slug : String)
      → Synced (revoke_member_product_role team_id user_id product_slug db).1
  unfolding revoke_member_product_role
  revoke_member_product_role-Synced team_id user_id product_slug =
      after-fail_if Synced
        (not (any (is_product_role team_id user_id product_slug) db.product_roles)) not_found _ h

pub check_organization-reads :
    (o : Option (Option ℕ)) (db : TeamDb) → (check_organization o db).1 ≡ db
check_organization-reads none db = refl
check_organization-reads (some none) db = refl
check_organization-reads (some (some id)) db = after-fail_if (λ s. s ≡ db) _ _ db refl

effective_organization-reads :
    (team_id : ℕ) (o : Option (Option ℕ)) (db : TeamDb)
    → (effective_organization team_id o db).1 ≡ db
effective_organization-reads team_id (some o) db = refl
effective_organization-reads team_id none db =
    after-found (λ s. s ≡ db) (find (λ t. t.id == team_id) db.teams) _ _ db refl λ _ _. refl

unset_support-Synced :
    (team_id : ℕ) (o : Option (Option ℕ)) (flag : Option Bool) (db : TeamDb)
    → Synced db
    → Synced (unset_support team_id o flag db).1
unset_support-Synced team_id o none db h = h
unset_support-Synced team_id o (some false) db h = h
unset_support-Synced team_id o (some true) db h =
    after-query Synced (effective_organization team_id o) _ db
      (effective_organization-reads team_id o db) h
      λ effective _. after-found Synced effective _ _ db h λ org _.
        teams-updated h.0 (is_support_of org) (λ t. record t { is_support_team = false })
          (λ t. refl) h.1

write_team-Synced :
    (team_id : ℕ) (u : AdminTeamUpdate) (db : TeamDb)
    → Synced db
    → Synced (write_team team_id u db).1
unfolding write_team
write_team-Synced team_id u db h =
    after-then Synced (unset_support team_id u.organization_id u.is_support_team) _ db
      (unset_support-Synced team_id u.organization_id u.is_support_team db h)
      λ _ s k.
        after-guard Synced (has_team s.teams team_id && is_too_long u.name u.slug u.avatar_url)
          (database "string_data_right_truncation") _ s k
          λ _.
            after-fail_if Synced (not (has_team s.teams team_id)) not_found
              (record s { teams = update_where (λ t. t.id == team_id) (admin_updated u) s.teams })
              (teams-updated k.0 (λ t. t.id == team_id) (admin_updated u) (λ t. refl) k.1)

pub admin_update_team-Synced :
    (db : TeamDb)
    → Synced db
    → (team_id : ℕ) (u : AdminTeamUpdate) → Synced (admin_update_team team_id u db).1
unfolding admin_update_team
admin_update_team-Synced db h team_id u =
    after-query Synced (check_slug u.slug team_id) _ db (check_slug-reads db u.slug team_id) h
      λ _ _.
        after-query Synced (check_organization u.organization_id) _ db
          (check_organization-reads u.organization_id db) h
          λ _ _.
            after-transaction Synced (write_team team_id u) db h (write_team-Synced team_id u db h)

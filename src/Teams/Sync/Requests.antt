-- ===== src/Teams/Sync/Requests.antt =====
-- Every request keeps the invariant, whatever its answer.
use ullav_user_management.Prelude.{
  ℕ, ◌≡◌, refl, not, ◌&&◌, Option, none, some, List, [], ◌∷◌, ◌==◌, find, Chars,
}
use ullav_user_management.Exec.{Exec, lift, ◌>>=◌}
use ullav_user_management.Exec.Keeps.{
  after-fail_if, after-guard, after-found, after-lift, after-query, after-then,
}
use ullav_user_management.Accounts.{User, Claims, caller_id, get_user_by_email, get_user_by_id}
use ullav_user_management.Checks.{is_nil, resolve_app_url, validate_product_role}
use ullav_user_management.Words.{trim}
use ullav_user_management.Teams.{TeamDb, is_invited}
use ullav_user_management.Teams.Store.{get_team_ownership}
use ullav_user_management.Teams.Members
use ullav_user_management.Teams.Members.{get_team_membership, get_team_member_by_token, has_token}
use ullav_user_management.Teams.Handlers
use ullav_user_management.Teams.Handlers.{
  Config, owner_only, owner_or_leader, check_leader, permits, is_some, is_blank, trimmed, expired,
  expiry,
}
use ullav_user_management.Teams.Admin
use ullav_user_management.Teams.Organizations as Store
use ullav_user_management.Teams.Organizations.{is_empty}
use ullav_user_management.Teams.Organizations.Handlers as Organizations
use ullav_user_management.Teams.Admin.{check_manage}
use ullav_user_management.Teams.Sync.Organizations.{
  create_organization-Synced, get_organization-Synced, admin_update_organization-Synced,
  delete_organization-Synced, backfill_clann_teams-Synced, ensure_clann_team-Synced,
  admin_delete_user-Synced,
}
use ullav_user_management.Teams.Sync.Products.{
  admin_update_team-Synced, enable_team_product-Synced, disable_team_product-Synced,
  assign_member_product_role-Synced, revoke_member_product_role-Synced,
}
use ullav_user_management.Teams.Requests.{
  UserRequest, AdminRequest, user_step, admin_step, Arrival, Request, by_user, by_admin,
  by_confirmation, step, serve,
}
use ullav_user_management.Teams.Sync.{Synced}
use ullav_user_management.Teams.Sync.Memberships.{
  invite_team_member-Synced, decline_team_invitation-Synced, remove_team_member-Synced,
  refresh_invite_token-Synced, accept_team_invitation-Synced, add_team_member_active-Synced,
}
use ullav_user_management.Teams.Sync.Structure.{
  create_team-Synced, delete_team-Synced, update_team-Synced, create_team_role-Synced,
  update_team_role-Synced, delete_team_role-Synced, assign_member_role-Synced,
  unassign_member_role-Synced,
}

module _ (db : TeamDb) where
  pub get_team_ownership-reads : (team_id : ℕ) → (get_team_ownership team_id db).1 ≡ db
  unfolding get_team_ownership
  get_team_ownership-reads team_id =
      after-found (λ s. s ≡ db) (find (λ t. t.id == team_id) db.teams) _ _ db refl λ _ _. refl

  pub owner_only-reads : (user_id team_id : ℕ) → (owner_only user_id team_id db).1 ≡ db
  unfolding owner_only
  owner_only-reads user_id team_id =
      after-query (λ s. s ≡ db) (get_team_ownership team_id) _ db (get_team_ownership-reads team_id)
        refl λ (o, l) _. after-fail_if (λ s. s ≡ db) _ _ db refl

  pub owner_or_leader-reads : (user_id team_id : ℕ) → (owner_or_leader user_id team_id db).1 ≡ db
  unfolding owner_or_leader
  owner_or_leader-reads user_id team_id =
      after-query (λ s. s ≡ db) (get_team_ownership team_id) _ db (get_team_ownership-reads team_id)
        refl λ (o, l) _. after-fail_if (λ s. s ≡ db) _ _ db refl

  pub check_leader-reads :
      (team_id : ℕ) (leader : Option ℕ) → (check_leader team_id leader db).1 ≡ db
  unfolding check_leader
  check_leader-reads team_id none = refl
  check_leader-reads team_id (some leader) =
      after-found (λ s. s ≡ db) (get_team_membership team_id leader db) _ _ db refl
        λ m _. after-fail_if (λ s. s ≡ db) _ _ db refl

module _ (db : TeamDb) (h : Synced db) where
  -- After the caller is known, and is the owner, or the owner or leader.
  owner_then :
      {B : Type 0} (claims : Option Claims) (team_id : ℕ) (k : ℕ → Exec TeamDb B)
      → ((user_id : ℕ) → Synced (k user_id db).1)
      → Synced
          ((lift (caller_id claims) >>= λ user_id. owner_only user_id team_id >>= λ _. k user_id)
            db).1
  owner_then claims team_id k next = after-lift Synced (caller_id claims) _ db h λ user_id _.
      after-query Synced (owner_only user_id team_id) _ db (owner_only-reads db user_id team_id) h
        λ _ _. next user_id

  owner_or_leader_then :
      {B : Type 0} (claims : Option Claims) (team_id : ℕ) (k : ℕ → Exec TeamDb B)
      → ((user_id : ℕ) → Synced (k user_id db).1)
      → Synced
          ((lift (caller_id claims) >>= λ user_id.
              owner_or_leader user_id team_id >>= λ _. k user_id)
            db).1
  owner_or_leader_then claims team_id k next =
      after-lift Synced (caller_id claims) _ db h λ user_id _.
        after-query Synced (owner_or_leader user_id team_id) _ db
          (owner_or_leader-reads db user_id team_id) h λ _ _. next user_id

  module _ (to_lowercase : Chars → Chars) (config : Config) (users : List User)
      (claims : Option Claims) (now : ℕ) where
    user_step-Synced :
        (r : UserRequest) → Synced (user_step to_lowercase config users claims now db r)
    unfolding user_step Handlers.create_team Handlers.update_team Handlers.delete_team
        Handlers.invite_member Handlers.remove_member Handlers.accept_invitation
        Handlers.decline_invitation Handlers.resend_invitation Handlers.create_team_role
        Handlers.update_team_role Handlers.delete_team_role Handlers.assign_member_role
        Handlers.unassign_member_role Handlers.assign_member_product_role
        Handlers.revoke_member_product_role get_team_member_by_token
    user_step-Synced (UserRequest.create_team name description purpose avatar_url) =
        after-lift Synced (permits "teams:create" claims) _ db h λ _ _.
          after-lift Synced (caller_id claims) _ db h λ user_id _.
            after-guard Synced (is_nil (trim name)) _ _ db h λ _.
              create_team-Synced db h to_lowercase users (trim name) description purpose avatar_url
                user_id none now
    user_step-Synced (UserRequest.update_team team_id body) =
        after-lift Synced (caller_id claims) _ db h λ user_id _.
          after-query Synced (get_team_ownership team_id) _ db (get_team_ownership-reads db team_id)
            h
            λ (o, l) _. after-guard Synced (not (user_id == o) && not (user_id == l)) _ _ db h λ _.
              after-guard Synced (is_some body.leader_id && not (user_id == o)) _ _ db h λ _.
                after-query Synced (check_leader team_id body.leader_id) _ db
                  (check_leader-reads db team_id body.leader_id) h
                  λ _ _. update_team-Synced db h team_id body
    user_step-Synced (UserRequest.delete_team team_id) =
        owner_then claims team_id _ λ user_id. delete_team-Synced db h team_id
    user_step-Synced (UserRequest.invite_member team_id email app_url token) =
        owner_or_leader_then claims team_id _ λ user_id.
          after-lift Synced (resolve_app_url app_url config.allowed_app_urls config.app_base_url) _
            db h
            λ _ _. after-lift Synced (get_user_by_email users email) _ db h λ invitee _.
              after-guard Synced (is_some (get_team_membership team_id invitee.id db)) _ _ db h λ _.
                invite_team_member-Synced db h team_id invitee.id user_id token (expiry config now)
                  now
    user_step-Synced (UserRequest.remove_member team_id user_id) =
        after-lift Synced (caller_id claims) _ db h λ caller _.
          after-query Synced (get_team_ownership team_id) _ db (get_team_ownership-reads db team_id)
            h
            λ (o, l) _.
              after-guard Synced (not (caller == user_id) && not (caller == o) && not (caller == l))
                _ _ db h
                λ _.
                  after-guard Synced (user_id == o) _ _ db h
                    λ _. remove_team_member-Synced db h team_id user_id
    user_step-Synced (UserRequest.accept_invitation token) =
        after-lift Synced (caller_id claims) _ db h λ caller _.
          after-found Synced (find (has_token token) db.members) _ _ db h λ member _.
            after-guard Synced (not (member.user_id == caller)) _ _ db h λ _.
              after-guard Synced (expired now member.invite_token_expires_at) _ _ db h
                λ _. accept_team_invitation-Synced db h member.id now
    user_step-Synced (UserRequest.decline_invitation token) =
        after-lift Synced (caller_id claims) _ db h λ caller _.
          after-found Synced (find (has_token token) db.members) _ _ db h λ member _.
            after-guard Synced (not (member.user_id == caller)) _ _ db h
              λ _. decline_team_invitation-Synced db h member.id
    user_step-Synced (UserRequest.create_team_role team_id name description) =
        owner_then claims team_id _ λ user_id.
          after-guard Synced (is_nil (trim name)) _ _ db h
            λ _. create_team_role-Synced db h team_id (trim name) description
    user_step-Synced (UserRequest.update_team_role team_id role_id name description) =
        owner_then claims team_id _ λ user_id.
          after-guard Synced (is_blank (trimmed name)) _ _ db h
            λ _. update_team_role-Synced db h team_id role_id (trimmed name) description
    user_step-Synced (UserRequest.delete_team_role team_id role_id) =
        owner_then claims team_id _ λ user_id. delete_team_role-Synced db h team_id role_id
    user_step-Synced (UserRequest.assign_member_role team_id user_id role_id) =
        owner_or_leader_then claims team_id _
          λ _. assign_member_role-Synced db h team_id user_id role_id
    user_step-Synced (UserRequest.unassign_member_role team_id user_id role_id) =
        owner_or_leader_then claims team_id _
          λ _. unassign_member_role-Synced db h team_id user_id role_id
    user_step-Synced (UserRequest.resend_invitation team_id user_id app_url token) =
        owner_or_leader_then claims team_id _ λ caller.
          after-found Synced (get_team_membership team_id user_id db) _ _ db h λ m _.
            after-guard Synced (not (is_invited m.status)) _ _ db h λ _.
              after-lift Synced
                (resolve_app_url app_url config.allowed_app_urls config.app_base_url) _ db h
                λ _ _.
                  after-then Synced
                    (Members.refresh_invite_token team_id user_id token (expiry config now) now) _
                    db
                    (refresh_invite_token-Synced db h team_id user_id token (expiry config now) now)
                    λ _ t k. after-lift Synced (get_user_by_id users user_id) _ t k λ _ _. k
    user_step-Synced (UserRequest.assign_member_product_role team_id user_id product_slug role) =
        owner_then claims team_id _ λ caller.
          after-lift Synced (validate_product_role product_slug role) _ db h
            λ _ _. assign_member_product_role-Synced db h team_id user_id product_slug role caller
    user_step-Synced (UserRequest.revoke_member_product_role team_id user_id product_slug) =
        owner_then claims team_id _
          λ _. revoke_member_product_role-Synced db h team_id user_id product_slug

    admin_step-Synced :
        (r : AdminRequest) → Synced (admin_step to_lowercase config users claims now db r)
    unfolding admin_step Admin.create_team Admin.update_team Admin.delete_team Admin.add_team_member
        Admin.remove_team_member Admin.enable_team_product Admin.disable_team_product
        Admin.assign_member_product_role Admin.revoke_member_product_role
        Organizations.create_organization Organizations.update_organization
        Organizations.delete_organization
    admin_step-Synced (AdminRequest.create_team name description purpose avatar_url owner_id) =
        after-guard Synced (is_nil (trim name)) _ _ db h λ _.
          create_team-Synced db h to_lowercase users (trim name) description purpose avatar_url
            owner_id none now
    admin_step-Synced (AdminRequest.update_team team_id body) =
        admin_update_team-Synced db h team_id body
    admin_step-Synced (AdminRequest.delete_team team_id) = delete_team-Synced db h team_id
    admin_step-Synced (AdminRequest.add_team_member team_id user_id) =
        after-query Synced (get_team_ownership team_id) _ db (get_team_ownership-reads db team_id) h
          λ _ _. add_team_member_active-Synced db h users team_id user_id user_id now
    admin_step-Synced (AdminRequest.remove_team_member team_id user_id) =
        remove_team_member-Synced db h team_id user_id
    admin_step-Synced (AdminRequest.enable_team_product team_id product_slug) =
        after-lift Synced (check_manage claims) _ db h λ _ _.
          after-lift Synced (caller_id claims) _ db h
            λ admin_id _. enable_team_product-Synced db h team_id product_slug admin_id
    admin_step-Synced (AdminRequest.disable_team_product team_id product_slug) =
        after-lift Synced (check_manage claims) _ db h
          λ _ _. disable_team_product-Synced db h team_id product_slug
    admin_step-Synced (AdminRequest.assign_member_product_role team_id user_id product_slug role) =
        after-lift Synced (caller_id claims) _ db h λ admin_id _.
          after-lift Synced (Admin.validate_product_role product_slug role) _ db h
            λ _ _. assign_member_product_role-Synced db h team_id user_id product_slug role admin_id
    admin_step-Synced (AdminRequest.revoke_member_product_role team_id user_id product_slug) =
        revoke_member_product_role-Synced db h team_id user_id product_slug
    admin_step-Synced (AdminRequest.create_organization name description) =
        after-guard Synced (is_empty (trim name)) _ _ db h
          λ _. create_organization-Synced db h to_lowercase (trim name) description
    admin_step-Synced (AdminRequest.update_organization id name slug description) =
        after-then Synced (Store.admin_update_organization id name slug description) _ db
          (admin_update_organization-Synced db h id name slug description)
          λ _ s k. get_organization-Synced s k id
    admin_step-Synced (AdminRequest.delete_organization id) = delete_organization-Synced db h id
    admin_step-Synced AdminRequest.backfill_clann_teams =
        backfill_clann_teams-Synced to_lowercase now users db h
    admin_step-Synced (AdminRequest.delete_user user_id audited) =
        admin_delete_user-Synced db h users audited user_id

module _ (to_lowercase : Chars → Chars) (config : Config) where
  step-Synced :
      (users : List User) (claims : Option Claims) (now : ℕ) (r : Request) (db : TeamDb)
      → Synced db
      → Synced (step to_lowercase config users claims now r db)
  unfolding step
  step-Synced users claims now (by_user r) db h =
      user_step-Synced db h to_lowercase config users claims now r
  step-Synced users claims now (by_admin r) db h =
      admin_step-Synced db h to_lowercase config users claims now r
  step-Synced users claims now (by_confirmation user) db h =
      ensure_clann_team-Synced to_lowercase users now user db h

  -- From tables that are `Synced`, the tables are `Synced` after any requests of `Request`, whatever the answers and the
  -- users at the time of each: these are the requests that change teams or organizations, the first confirmation of a
  -- user and the deletion of a user. `Synced` says that every active member of a team holds the "All" role of that team,
  -- every team has one, every member's team exists, and rows of one user in one team have one id.
  pub serve-Synced :
      (requests : List Arrival) (db : TeamDb)
      → Synced db
      → Synced (serve to_lowercase config requests db)
  unfolding serve
  serve-Synced [] db h = h
  serve-Synced (a ∷ rest) db h =
      serve-Synced rest _ (step-Synced a.users a.claims a.now a.request db h)

-- ===== src/Teams/Requests.antt =====
-- The requests that change teams, of handlers/teams.rs, handlers/admin.rs and, for the team that a new
-- user gets, handlers/auth.rs, and their effect.
use ullav_user_management.Prelude.{ℕ, String, Bool, Option, List, [], ◌∷◌, Chars}
use ullav_user_management.Accounts.{User, Claims}
use ullav_user_management.Teams.{TeamDb}
use ullav_user_management.Teams.Store.{TeamUpdate}
use ullav_user_management.Teams.Support.{AdminTeamUpdate}
use ullav_user_management.Teams.Handlers
use ullav_user_management.Teams.Handlers.{Config}
use ullav_user_management.Teams.Admin
use ullav_user_management.Teams.Removal
use ullav_user_management.Teams.Organizations.{ensure_clann_team}
use ullav_user_management.Teams.Organizations.Handlers as Organizations

-- The arguments are those of the handler, without the claims, the configuration and the clock.
pub data UserRequest : Type 0 where
  create_team : Chars → Option String → Option String → Option String → UserRequest
  update_team : ℕ → TeamUpdate → UserRequest
  delete_team : ℕ → UserRequest
  invite_member : ℕ → String → Option String → String → UserRequest
  remove_member : ℕ → ℕ → UserRequest
  accept_invitation : String → UserRequest
  decline_invitation : String → UserRequest
  resend_invitation : ℕ → ℕ → Option String → String → UserRequest
  create_team_role : ℕ → Chars → Option String → UserRequest
  update_team_role : ℕ → ℕ → Option Chars → Option String → UserRequest
  delete_team_role : ℕ → ℕ → UserRequest
  assign_member_role : ℕ → ℕ → ℕ → UserRequest
  unassign_member_role : ℕ → ℕ → ℕ → UserRequest
  assign_member_product_role : ℕ → ℕ → String → String → UserRequest
  revoke_member_product_role : ℕ → ℕ → String → UserRequest

-- `delete_user` tells whether the audit log has an entry of the user.
pub data AdminRequest : Type 0 where
  create_team : Chars → Option String → Option String → Option String → ℕ → AdminRequest
  update_team : ℕ → AdminTeamUpdate → AdminRequest
  delete_team : ℕ → AdminRequest
  add_team_member : ℕ → ℕ → AdminRequest
  remove_team_member : ℕ → ℕ → AdminRequest
  enable_team_product : ℕ → String → AdminRequest
  disable_team_product : ℕ → String → AdminRequest
  assign_member_product_role : ℕ → ℕ → String → String → AdminRequest
  revoke_member_product_role : ℕ → ℕ → String → AdminRequest
  create_organization : Chars → Option String → AdminRequest
  update_organization : ℕ → Option Chars → Option Chars → Option String → AdminRequest
  delete_organization : ℕ → AdminRequest
  backfill_clann_teams : AdminRequest
  delete_user : ℕ → Bool → AdminRequest

module _ (to_lowercase : Chars → Chars) (config : Config) (users : List User)
    (claims : Option Claims) (now : ℕ) (db : TeamDb) where
  unfoldable pub user_step : UserRequest → TeamDb
  unfolding Handlers.create_team Handlers.update_team Handlers.delete_team Handlers.invite_member
      Handlers.remove_member Handlers.accept_invitation Handlers.decline_invitation
      Handlers.resend_invitation Handlers.create_team_role Handlers.update_team_role
      Handlers.delete_team_role Handlers.assign_member_role Handlers.unassign_member_role
      Handlers.assign_member_product_role Handlers.revoke_member_product_role
  user_step (create_team name description purpose avatar_url) =
      (Handlers.create_team to_lowercase users claims name description purpose avatar_url now db).1
  user_step (update_team team_id body) = (Handlers.update_team claims team_id body db).1
  user_step (delete_team team_id) = (Handlers.delete_team claims team_id db).1
  user_step (invite_member team_id email app_url token) =
      (Handlers.invite_member config users claims team_id email app_url token now db).1
  user_step (remove_member team_id user_id) = (Handlers.remove_member claims team_id user_id db).1
  user_step (accept_invitation token) = (Handlers.accept_invitation claims token now db).1
  user_step (decline_invitation token) = (Handlers.decline_invitation claims token db).1
  user_step (resend_invitation team_id user_id app_url token) =
      (Handlers.resend_invitation config users claims team_id user_id app_url token now db).1
  user_step (create_team_role team_id name description) =
      (Handlers.create_team_role claims team_id name description db).1
  user_step (update_team_role team_id role_id name description) =
      (Handlers.update_team_role claims team_id role_id name description db).1
  user_step (delete_team_role team_id role_id) =
      (Handlers.delete_team_role claims team_id role_id db).1
  user_step (assign_member_role team_id user_id role_id) =
      (Handlers.assign_member_role claims team_id user_id role_id db).1
  user_step (unassign_member_role team_id user_id role_id) =
      (Handlers.unassign_member_role claims team_id user_id role_id db).1
  user_step (assign_member_product_role team_id user_id product_slug role) =
      (Handlers.assign_member_product_role claims team_id user_id product_slug role db).1
  user_step (revoke_member_product_role team_id user_id product_slug) =
      (Handlers.revoke_member_product_role claims team_id user_id product_slug db).1

  unfoldable pub admin_step : AdminRequest → TeamDb
  unfolding Admin.create_team Admin.update_team Admin.delete_team Admin.add_team_member
      Admin.remove_team_member Admin.enable_team_product Admin.disable_team_product
      Admin.assign_member_product_role Admin.revoke_member_product_role
      Organizations.create_organization Organizations.update_organization
      Organizations.delete_organization Organizations.backfill_clann_teams Removal.admin_delete_user
  admin_step (create_team name description purpose avatar_url owner_id) =
      (Admin.create_team to_lowercase users name description purpose avatar_url owner_id now db).1
  admin_step (update_team team_id body) = (Admin.update_team team_id body db).1
  admin_step (delete_team team_id) = (Admin.delete_team team_id db).1
  admin_step (add_team_member team_id user_id) =
      (Admin.add_team_member users team_id user_id now db).1
  admin_step (remove_team_member team_id user_id) = (Admin.remove_team_member team_id user_id db).1
  admin_step (enable_team_product team_id product_slug) =
      (Admin.enable_team_product claims team_id product_slug db).1
  admin_step (disable_team_product team_id product_slug) =
      (Admin.disable_team_product claims team_id product_slug db).1
  admin_step (assign_member_product_role team_id user_id product_slug role) =
      (Admin.assign_member_product_role claims team_id user_id product_slug role db).1
  admin_step (revoke_member_product_role team_id user_id product_slug) =
      (Admin.revoke_member_product_role team_id user_id product_slug db).1
  admin_step (create_organization name description) =
      (Organizations.create_organization to_lowercase name description db).1
  admin_step (update_organization id name slug description) =
      (Organizations.update_organization id name slug description db).1
  admin_step (delete_organization id) = (Organizations.delete_organization id db).1
  admin_step backfill_clann_teams = Organizations.backfill_clann_teams to_lowercase now users db
  admin_step (delete_user user_id audited) = (Removal.admin_delete_user users audited user_id db).1

pub data Request : Type 0 where
  by_user : UserRequest → Request
  by_admin : AdminRequest → Request
  -- The first confirmation of the user's address, which gives them a Clann team.
  by_confirmation : User → Request

-- A request with the caller's claims, the time of its arrival and the users at that time.
pub record Arrival : Type 0 where
  pub users : List User
  pub claims : Option Claims
  pub now : ℕ
  pub request : Request

module _ (to_lowercase : Chars → Chars) (config : Config) where
  unfoldable pub step : List User → Option Claims → ℕ → Request → TeamDb → TeamDb
  unfolding user_step admin_step ensure_clann_team
  step users claims now (by_user r) db = user_step to_lowercase config users claims now db r
  step users claims now (by_admin r) db = admin_step to_lowercase config users claims now db r
  step users claims now (by_confirmation user) db =
      (ensure_clann_team to_lowercase users now user db).1

  -- The tables after a list of requests, whatever the answers.
  unfoldable pub serve : List Arrival → TeamDb → TeamDb
  unfolding step
  serve [] db = db
  serve (a ∷ rest) db = serve rest (step a.users a.claims a.now a.request db)

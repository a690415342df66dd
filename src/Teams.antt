-- ===== src/Teams.antt =====
-- Teams: the tables, with the constraints of the migrations 012, 013, 014, 025, 029, 031 and 032.
-- The functions of db/mod.rs are in Teams/Store.antt (teams), Teams/Members.antt (memberships) and
-- Teams/Roles.antt (roles and products), the handlers of handlers/teams.rs in Teams/Handlers.antt.
-- Teams/Removal.antt has the deletion of a user, Teams/Support.antt and Teams/Admin.antt the
-- administrators' functions and handlers,
-- and Teams/Requests.antt the requests that change these tables.
-- A UUID is a number; `gen_random_uuid` takes the next number that was never used. The columns
-- created_at, updated_at, assigned_at and granted_at, which nothing tests, are left out.
pub mod Store
pub mod Members
pub mod Removal
pub mod Roles
pub mod Handlers
pub mod Sync
pub mod Rights
pub mod Revocation
pub mod SupportFlag
pub mod Support
pub mod Admin
pub mod Requests
pub mod Organizations
mod Tests
use ullav_user_management.Prelude.{
  ℕ, String, Bool, true, false, ◌&&◌, Option, none, some, List, [], ◌==◌, same, any, select, Chars,
}

pub record Team : Type 0 where
  pub id : ℕ
  pub name : Chars
  pub slug : Chars
  pub description : Option String
  pub purpose : Option String
  pub avatar_url : Option String
  pub owner_id : ℕ
  pub leader_id : ℕ
  pub organization_id : Option ℕ
  pub is_support_team : Bool

-- `team_member_status`
pub data Status : Type 0 where
  invited active inactive : Status

pub record Member : Type 0 where
  pub id : ℕ
  pub team_id : ℕ
  pub user_id : ℕ
  pub status : Status
  pub invited_by : Option ℕ
  pub invite_token : Option String
  pub invite_token_expires_at : Option ℕ
  pub invited_at : ℕ
  pub joined_at : Option ℕ

pub record TeamRole : Type 0 where
  pub id : ℕ
  pub team_id : ℕ
  pub name : Chars
  pub description : Option String
  pub is_all : Bool

pub record MemberRole : Type 0 where
  pub team_id : ℕ
  pub role_id : ℕ
  pub member_id : ℕ

pub record ProductAccess : Type 0 where
  pub team_id : ℕ
  pub product_slug : String
  pub granted_by : Option ℕ

pub record ProductRole : Type 0 where
  pub team_id : ℕ
  pub user_id : ℕ
  pub product_slug : String
  pub role : String
  pub assigned_by : Option ℕ

pub record Organization : Type 0 where
  pub id : ℕ
  pub name : Chars
  pub slug : Chars
  pub description : Option String

pub record TeamDb : Type 0 where
  pub teams : List Team
  pub organizations : List Organization
  pub members : List Member
  pub roles : List TeamRole
  pub member_roles : List MemberRole
  pub product_access : List ProductAccess
  pub product_roles : List ProductRole
  pub next_id : ℕ

abbrev pub is_active : Status → Bool
is_active active = true
is_active _ = false

abbrev pub is_invited : Status → Bool
is_invited invited = true
is_invited _ = false

abbrev pub has_team : List Team → ℕ → Bool
has_team teams id = any (λ t. t.id == id) teams

abbrev pub is_member : ℕ → ℕ → Member → Bool
is_member team_id user_id m = m.team_id == team_id && m.user_id == user_id

abbrev pub is_role : ℕ → ℕ → TeamRole → Bool
is_role team_id role_id r = r.id == role_id && r.team_id == team_id

abbrev pub is_access : ℕ → String → ProductAccess → Bool
is_access team_id product_slug a = a.team_id == team_id && same a.product_slug product_slug

-- ON DELETE CASCADE: of the rows that refer to others, those stay whose rows are still there.
unfoldable pub cascade : TeamDb → TeamDb
cascade db =
    let members = select (λ m. has_team db.teams m.team_id) db.members in
    let roles = select (λ r. has_team db.teams r.team_id) db.roles in
    let access = select (λ a. has_team db.teams a.team_id) db.product_access in
    record db {
      members = members;
      roles = roles;
      member_roles =
          select
            (λ x.
              any (is_role x.team_id x.role_id) roles
              && any (λ m. m.id == x.member_id && m.team_id == x.team_id) members)
            db.member_roles;
      product_access = access;
      product_roles =
          select
            (λ x.
              any (is_member x.team_id x.user_id) members
              && any (is_access x.team_id x.product_slug) access)
            db.product_roles;
    }

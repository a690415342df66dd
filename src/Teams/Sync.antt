-- ===== src/Teams/Sync.antt =====
-- The built-in "All" role mirrors membership (migration 025): the invariant, and what keeps it. Sync/Tables.antt
-- has the changes of one table each, Sync/Activation.antt those that make a member active,
-- Sync/Requests.antt the requests.
pub mod Tables
pub mod Updates
pub mod Activation
pub mod Memberships
pub mod Structure
pub mod Products
pub mod Organizations
pub mod Requests
use ullav_user_management.Prelude.{ℕ, ◌<◌, ◌≡◌, Bool, true, false, List, [], Mem}
use ullav_user_management.Teams.{Team, Member, TeamRole, MemberRole, TeamDb, is_active}

-- The member holds a role of its team that is an "All" role.
abbrev pub HoldsAll : List TeamRole → List MemberRole → Member → Type 0
HoldsAll roles member_roles m =
    (r : TeamRole) × Mem r roles
    × (r.is_all ≡ true)
    × (r.team_id ≡ m.team_id)
    × (x : MemberRole) × Mem x member_roles
    × (x.role_id ≡ r.id)
    × (x.member_id ≡ m.id)
    × (x.team_id ≡ m.team_id)

-- Between a DELETE and its cascade a member's team may be missing.
pub record Consistent (teams : List Team) (members : List Member) (roles : List TeamRole)
    (member_roles : List MemberRole) (next_id : ℕ) : Type 0 where
  pub team_has_all :
      (t : Team)
      → Mem t teams
      → (r : TeamRole) × Mem r roles × (r.is_all ≡ true) × (r.team_id ≡ t.id)
  pub active_holds_all :
      (m : Member) → Mem m members → is_active m.status ≡ true → HoldsAll roles member_roles m
  pub one_flag : (r s : TeamRole) → Mem r roles → Mem s roles → r.id ≡ s.id → r.is_all ≡ s.is_all
  pub one_row :
      (m n : Member)
      → Mem m members
      → Mem n members
      → m.team_id ≡ n.team_id
      → m.user_id ≡ n.user_id
      → m.id ≡ n.id
  pub role_fresh : (r : TeamRole) → Mem r roles → r.id < next_id
  pub team_fresh : (t : Team) → Mem t teams → t.id < next_id

abbrev pub HasTeams : List Team → List Member → Type 0
HasTeams teams members =
    (m : Member) → Mem m members → (t : Team) × Mem t teams × (t.id ≡ m.team_id)

abbrev pub Loose : TeamDb → Type 0
Loose db = Consistent db.teams db.members db.roles db.member_roles db.next_id

abbrev pub Synced : TeamDb → Type 0
Synced db = Loose db × HasTeams db.teams db.members

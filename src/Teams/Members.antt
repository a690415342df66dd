-- ===== src/Teams/Members.antt =====
-- db/mod.rs: the memberships of teams, with their invitations.
use ullav_user_management.Prelude.{
  ℕ, ◌+◌, String, Bool, false, not, ◌&&◌, ◌||◌, Option, none, some, List, [], ◌∷◌, ◌==◌, same,
  if◌then◌else◌, any, find, select, update_where,
}
use ullav_user_management.Errors.{conflict, database, invalid_token, not_found}
use ullav_user_management.Accounts.{User, has_user}
use ullav_user_management.Exec.{Exec, gets, modify, fail_if, or_fail, transaction, ◌>>=◌, ◌>>◌}
use ullav_user_management.Teams.{
  invited, active, Member, TeamRole, MemberRole, TeamDb, is_active, is_invited, has_team, is_member,
  cascade,
}

abbrev pub has_token : String → Member → Bool
has_token token m = elim m.invite_token [ none ↦ false | some t ↦ same t token ]

unfoldable pub get_team_membership : ℕ → ℕ → TeamDb → Option Member
get_team_membership team_id user_id db = find (is_member team_id user_id) db.members

-- UNIQUE(team_id, user_id) and UNIQUE(invite_token); `team_id` refers to a team.
unfoldable pub invite_team_member : ℕ → ℕ → ℕ → String → ℕ → ℕ → Exec TeamDb (Unit {0})
invite_team_member team_id user_id invited_by token expires_at now = do
  taken ← gets λ db. any (λ m. is_member team_id user_id m || has_token token m) db.members
  fail_if taken conflict
  found ← gets λ db. has_team db.teams team_id
  fail_if (not found) (database "foreign_key_violation")
  modify λ db. record db {
    members =
        record {
          id = db.next_id;
          team_id = team_id;
          user_id = user_id;
          status = invited;
          invited_by = some invited_by;
          invite_token = some token;
          invite_token_expires_at = some expires_at;
          invited_at = now;
          joined_at = none;
        }
        ∷ db.members;
    next_id = db.next_id + 1;
  }

abbrev pub is_all_of : ℕ → TeamRole → Bool
is_all_of team_id r = r.is_all && r.team_id == team_id

abbrev pub holds : List MemberRole → Member → TeamRole → Bool
holds member_roles m r =
    any (λ x. x.role_id == r.id && x.member_id == m.id && x.team_id == m.team_id) member_roles

-- One insert with ON CONFLICT DO NOTHING.
abbrev pub add_role : List MemberRole → Member → TeamRole → List MemberRole
add_role member_roles m r =
    if holds member_roles m r
    then member_roles
    else record { team_id = m.team_id; role_id = r.id; member_id = m.id } ∷ member_roles

-- The rows of the join of one member with the roles of the team.
unfoldable pub add_all_roles : List TeamRole → Member → List MemberRole → List MemberRole
add_all_roles [] m member_roles = member_roles
add_all_roles (r ∷ rs) m member_roles =
    let rest = add_all_roles rs m member_roles in
    if is_all_of m.team_id r then add_role rest m r else rest

unfoldable pub add_member_roles :
    List TeamRole → ℕ → List Member → List MemberRole → List MemberRole
add_member_roles roles member_id [] member_roles = member_roles
add_member_roles roles member_id (m ∷ ms) member_roles =
    let rest = add_member_roles roles member_id ms member_roles in
    if m.id == member_id && is_active m.status then add_all_roles roles m rest else rest

unfoldable pub assign_all_role_to_member : ℕ → TeamDb → TeamDb
assign_all_role_to_member member_id db = record db {
  member_roles = add_member_roles db.roles member_id db.members db.member_roles;
}

abbrev pub activated : ℕ → Member → Member
activated now m = record m {
  status = active;
  joined_at = some (elim m.joined_at [ none ↦ now | some t ↦ t ]);
}

abbrev pub direct_member : ℕ → ℕ → ℕ → ℕ → ℕ → Member
direct_member id team_id user_id added_by now = record {
  id = id;
  team_id = team_id;
  user_id = user_id;
  status = active;
  invited_by = some added_by;
  invite_token = none;
  invite_token_expires_at = none;
  invited_at = now;
  joined_at = some now;
}

abbrev pub activate_member : ℕ → ℕ → ℕ → ℕ → TeamDb → TeamDb
activate_member team_id user_id added_by now db =
    if any (is_member team_id user_id) db.members
    then record db { members = update_where (is_member team_id user_id) (activated now) db.members }
    else record db {
      members = direct_member db.next_id team_id user_id added_by now ∷ db.members;
      next_id = db.next_id + 1;
    }

unfoldable pub add_team_member_active : List User → ℕ → ℕ → ℕ → ℕ → Exec TeamDb (Unit {0})
unfolding assign_all_role_to_member
add_team_member_active users team_id user_id added_by now = transaction do
  fail_if (not (has_user users user_id)) (database "foreign_key_violation")
  found ← gets λ db. has_team db.teams team_id
  fail_if (not found) (database "foreign_key_violation")
  modify (activate_member team_id user_id added_by now)
  row ← gets λ db. find (is_member team_id user_id) db.members
  m ← or_fail row (database "no row")
  modify (assign_all_role_to_member m.id)

unfoldable pub get_team_member_by_token : String → Exec TeamDb Member
get_team_member_by_token token = do
  row ← gets λ db. find (has_token token) db.members
  or_fail row invalid_token

abbrev pub accepted : ℕ → Member → Member
accepted now m = record m {
  status = active;
  joined_at = some now;
  invite_token = none;
  invite_token_expires_at = none;
}

unfoldable pub accept_team_invitation : ℕ → ℕ → Exec TeamDb (Unit {0})
unfolding assign_all_role_to_member
accept_team_invitation member_id now = transaction do
  modify
      λ db. record db { members = update_where (λ m. m.id == member_id) (accepted now) db.members }
  modify (assign_all_role_to_member member_id)

unfoldable pub decline_team_invitation : ℕ → Exec TeamDb (Unit {0})
unfolding cascade
decline_team_invitation member_id =
    modify λ db. cascade (record db { members = select (λ m. not (m.id == member_id)) db.members })

unfoldable pub remove_team_member : ℕ → ℕ → Exec TeamDb (Unit {0})
unfolding cascade
remove_team_member team_id user_id = do
  found ← gets λ db. any (is_member team_id user_id) db.members
  modify λ db.
      cascade (record db { members = select (λ m. not (is_member team_id user_id m)) db.members })
  fail_if (not found) not_found

abbrev pub is_pending : ℕ → ℕ → Member → Bool
is_pending team_id user_id m = is_member team_id user_id m && is_invited m.status

-- A new token is one that no row has: it is random.
unfoldable pub refresh_invite_token : ℕ → ℕ → String → ℕ → ℕ → Exec TeamDb (Unit {0})
refresh_invite_token team_id user_id new_token new_expires_at now = do
  found ← gets λ db. any (is_pending team_id user_id) db.members
  modify λ db. record db {
    members =
        update_where (is_pending team_id user_id)
          (λ m. record m {
            invite_token = some new_token;
            invite_token_expires_at = some new_expires_at;
            invited_at = now;
          })
          db.members;
  }
  fail_if (not found) not_found

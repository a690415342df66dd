-- ===== src/Teams/Tests.antt =====
-- Runs of the team handlers, and the theorems at concrete tables.
use ullav_user_management.Prelude.{
  ℕ, ◌≡◌, ◌≢◌, ◌≤◌, ◌↔◌, ◌⊎◌, refl, ap, sym, ◌∙◌, inl, inr, true, false, Option, none, some, List,
  [], ◌∷◌, any, length, String, same, codes, ◌==◌, ◌&&◌, Mem,
}
use ullav_user_management.Errors.{AppError, database, ok, err, invalid_token}
use ullav_user_management.Accounts.{User, has_user, Claims, caller_id}
use ullav_user_management.Teams.{Team, invited, Member, ProductRole, TeamDb, is_member}
use ullav_user_management.Teams.Store.{get_team_ownership, create_team}
use ullav_user_management.Teams.Members.{
  has_token, remove_team_member, get_team_member_by_token, accept_team_invitation,
}
use ullav_user_management.Teams.Roles.{disable_team_product}
use ullav_user_management.Teams.Handlers.{
  Config, remove_member, accept_invitation, decline_invitation, owner_or_leader,
}
use ullav_user_management.Teams.Requests.{
  UserRequest, by_user, by_admin, Arrival, serve, invite_member,
  accept_invitation as accept_request, add_team_member, delete_user, backfill_clann_teams,
}
use ullav_user_management.Teams.Sync.{Synced}
use ullav_user_management.Teams.Sync.Requests.{serve-Synced}
use ullav_user_management.Teams.Support.{AdminTeamUpdate, admin_update_team, get_support_team}
use ullav_user_management.Teams.SupportFlag.{is_rival, admin_update_team-alone}
use ullav_user_management.Teams.Rights.{
  remove_member_iff, accept_invitation_iff, accept_invitation_once,
}
use ullav_user_management.Slug.Ascii.{ascii_lower, ascii_laws}
use ullav_user_management.Slug.{slugify, unique_team_slug}
use ullav_user_management.Teams.Organizations.{
  ensure_clann_team, ensure_organization_by_slug, user_has_team_in_org, team_display_name,
}
use ullav_user_management.Teams.Organizations.Clann.{InClann, TooLong, ensure_clann_team_ends}
use ullav_user_management.Teams.Revocation.{
  disable_team_product-revokes, remove_team_member-revokes, remove_team_member-rights,
}

abbrev claims_of : ℕ → Option Claims
claims_of id = some (record { sub = some id; permissions = "teams:create" ∷ [] })

abbrev config : Config
config = record {
  allowed_app_urls = [];
  app_base_url = "https://example.org";
  confirmation_token_ttl_minutes = 60;
}

abbrev users : List User
users =
    record {
      id = 7;
      email = "b@example.org";
      username = "b";
      password_hash = "h";
      is_active = true;
      first_name = none;
      last_name = none;
      avatar_url = none;
      confirmation_token = none;
      confirmation_token_expires_at = none;
    }
    ∷ []

abbrev empty : TeamDb
empty = record {
  teams = [];
  organizations = [];
  members = [];
  roles = [];
  member_roles = [];
  product_access = [];
  product_roles = [];
  next_id = 0;
}

empty-Synced : Synced empty
empty-Synced = (
  record {
    team_has_all = λ t i. absurd i;
    active_holds_all = λ m i a. absurd i;
    one_flag = λ r s i j e. absurd i;
    one_row = λ m n i j e d. absurd i;
    role_fresh = λ r i. absurd i;
    team_fresh = λ t i. absurd i;
  },
  λ m i. absurd i,
)

abbrev numbered : ℕ → String → User
numbered id name = record {
  id = id;
  email = name;
  username = name;
  password_hash = "h";
  is_active = true;
  first_name = none;
  last_name = none;
  avatar_url = none;
  confirmation_token = none;
  confirmation_token_expires_at = none;
}

abbrev team_users : List User
team_users = numbered 1 "a" ∷ numbered 7 "b@example.org" ∷ numbered 9 "c" ∷ []

abbrev users_left : List User
users_left = numbered 1 "a" ∷ numbered 7 "b@example.org" ∷ []

-- A user creates a team and invites a user who accepts; an administrator adds a third, deletes that
-- user, and gives every user a Clann team.
abbrev requests : List Arrival
requests =
    record {
      users = team_users;
      claims = claims_of 1;
      now = 100;
      request = by_user (UserRequest.create_team (codes "Ops") none none none);
    }
    ∷ record {
      users = team_users;
      claims = claims_of 1;
      now = 110;
      request = by_user (invite_member 0 "b@example.org" none "token");
    }
    ∷ record {
      users = team_users;
      claims = claims_of 7;
      now = 120;
      request = by_user (accept_request "token");
    }
    ∷ record {
      users = team_users;
      claims = claims_of 2;
      now = 130;
      request = by_admin (add_team_member 0 9);
    }
    ∷ record {
      users = team_users;
      claims = claims_of 2;
      now = 140;
      request = by_admin (delete_user 9 false);
    }
    ∷ record {
      users = users_left;
      claims = claims_of 2;
      now = 150;
      request = by_admin backfill_clann_teams;
    }
    ∷ []

-- The members after the requests: the creator, in two teams, and the invited user, in two.
members_test : length (serve ascii_lower config requests empty).members ≡ 4
unfolding serve ensure_clann_team ensure_organization_by_slug unique_team_slug slugify ascii_lower
    user_has_team_in_org team_display_name
members_test = refl

serve-Synced_example : Synced (serve (λ s. s) config requests empty)
serve-Synced_example = serve-Synced (λ s. s) config requests empty empty-Synced

abbrev leader : ℕ
leader = 7

abbrev ops : Team
ops = record {
  id = 0;
  name = codes "Ops";
  slug = codes "ops";
  description = none;
  purpose = none;
  avatar_url = none;
  owner_id = 1;
  leader_id = 7;
  organization_id = none;
  is_support_team = false;
}

abbrev guest : Member
guest = record {
  id = 3;
  team_id = 0;
  user_id = 7;
  status = invited;
  invited_by = some 1;
  invite_token = some "token";
  invite_token_expires_at = some 500;
  invited_at = 100;
  joined_at = none;
}

abbrev tables : TeamDb
tables = record empty {
  teams = ops ∷ [];
  members = guest ∷ [];
  product_access = record { team_id = 0; product_slug = "obair"; granted_by = some 1 } ∷ [];
  product_roles =
      record {
        team_id = 0;
        user_id = 7;
        product_slug = "obair";
        role = "lead";
        assigned_by = some 1;
      }
      ∷ [];
  next_id = 4;
}

caller_test : caller_id (claims_of 7) ≡ ok 7
unfolding caller_id
caller_test = refl

remove_member_iff_example : ((remove_member (claims_of 7) 0 7 tables).0 ≡ ok tt) ↔ (
    ((leader ≡ leader) ⊎ (leader ≡ ops.owner_id) ⊎ (leader ≡ ops.leader_id))
    × (leader ≢ ops.owner_id)
    × (any (is_member 0 7) tables.members ≡ true))
remove_member_iff_example = remove_member_iff (claims_of 7) 7 tables caller_test 0 7 ops refl

accept_invitation_iff_example :
    ((accept_invitation (claims_of 7) "token" 200 tables).0 ≡ ok tt)
    ↔ ((guest.user_id ≡ leader) × ((t : ℕ) → guest.invite_token_expires_at ≡ some t → 200 ≤ t))
accept_invitation_iff_example =
    accept_invitation_iff (claims_of 7) 7 tables caller_test "token" 200 guest refl

accept_test : (accept_invitation (claims_of 7) "token" 200 tables).0 ≡ ok tt
unfolding accept_invitation caller_id get_team_member_by_token accept_team_invitation
accept_test = refl

one_token :
    (m n : Member)
    → Mem m tables.members
    → Mem n tables.members
    → has_token "token" m ≡ true
    → has_token "token" n ≡ true
    → m.id ≡ n.id
one_token m n (inl e) (inl d) _ _ = ap (λ (m : Member). m.id) (sym e ∙ d)
one_token m n (inl e) (inr i) _ _ = absurd i
one_token m n (inr i) _ _ _ = absurd i

accept_invitation_once_example :
    ((accept_invitation
        (claims_of 7)
        "token"
        300
        (accept_invitation (claims_of 7) "token" 200 tables).1).0
      ≡ err invalid_token)
    × ((decline_invitation
          (claims_of 7)
          "token"
          (accept_invitation (claims_of 7) "token" 200 tables).1).0
        ≡ err invalid_token)
accept_invitation_once_example =
    accept_invitation_once (claims_of 7) 7 tables caller_test "token" 200 300 one_token accept_test
      (claims_of 7) 7 caller_test

disable_team_product-revokes_example :
    any
      (λ (x : ProductRole). x.team_id == 0 && same x.product_slug "obair")
      (disable_team_product 0 "obair" tables).1.product_roles
    ≡ false
disable_team_product-revokes_example = disable_team_product-revokes 0 "obair" tables

remove_team_member-revokes_example :
    (any (is_member 0 7) (remove_team_member 0 7 tables).1.members ≡ false)
    × (any
          (λ (x : ProductRole). x.team_id == 0 && x.user_id == 7)
          (remove_team_member 0 7 tables).1.product_roles
        ≡ false)
remove_team_member-revokes_example = remove_team_member-revokes 0 7 tables

remove_team_member-rights_example :
    (owner_or_leader 7 0 (remove_team_member 0 7 tables).1).0 ≡ (owner_or_leader 7 0 tables).0
remove_team_member-rights_example = remove_team_member-rights 0 7 tables 7 0

-- The leader, removed from the team, still passes the check.
removed_leader_test : (owner_or_leader 7 0 (remove_team_member 0 7 tables).1).0 ≡ ok tt
unfolding owner_or_leader get_team_ownership remove_team_member
removed_leader_test = refl

abbrev support : ℕ → ℕ → Team
support id org = record ops {
  id = id;
  slug = codes "support";
  organization_id = some org;
  is_support_team = true;
}

abbrev two_organizations : TeamDb
two_organizations = record empty {
  teams = support 1 5 ∷ support 2 6 ∷ [];
  organizations =
      record { id = 5; name = codes "A"; slug = codes "a"; description = none }
      ∷ record { id = 6; name = codes "B"; slug = codes "b"; description = none }
      ∷ [];
  next_id = 3;
}

abbrev no_change : AdminTeamUpdate
no_change = record {
  name = none;
  slug = none;
  description = none;
  purpose = none;
  avatar_url = none;
  owner_id = none;
  leader_id = none;
  organization_id = none;
  is_support_team = none;
}

abbrev move_and_flag : AdminTeamUpdate
move_and_flag = record no_change { organization_id = some (some 5); is_support_team = some true }

flag_test : (admin_update_team 2 move_and_flag two_organizations).0 ≡ ok tt
unfolding admin_update_team
flag_test = refl

admin_update_team-alone_example :
    any (is_rival 2 5) (admin_update_team 2 move_and_flag two_organizations).1.teams ≡ false
admin_update_team-alone_example =
    admin_update_team-alone 2 5 move_and_flag two_organizations refl refl flag_test

-- A team that is flagged already and is only moved keeps its flag, and the organization has two Support teams.
moved_support_test :
    get_support_team
      (some 5)
      (admin_update_team 2
        (record no_change { organization_id = some (some 5) })
        two_organizations).1
    ≡ err (database "unexpected number of rows")
unfolding get_support_team admin_update_team
moved_support_test = refl

abbrev clann_user : User
clann_user = record {
  id = 4;
  email = "eva@example.org";
  username = "eva";
  password_hash = "h";
  is_active = true;
  first_name = some "Eva";
  last_name = none;
  avatar_url = none;
  confirmation_token = none;
  confirmation_token_expires_at = none;
}

abbrev clann_users : List User
clann_users = clann_user ∷ []

ensure_clann_team_ends_example :
    ((made : Option ℕ) × (after : TeamDb) × (ensure_clann_team ascii_lower clann_users 100
          clann_user two_organizations
        ≡ (ok made, after))
      × InClann clann_user after
      × (ensure_clann_team ascii_lower clann_users 200 clann_user after ≡ (ok none, after)))
    ⊎ (e : AppError) × (after : TeamDb) × (ensure_clann_team ascii_lower clann_users 100 clann_user
          two_organizations
        ≡ (err e, after))
      × (after.teams ≡ two_organizations.teams)
      × (after.members ≡ two_organizations.members)
      × (TooLong ascii_lower clann_user two_organizations
          ⊎ (has_user clann_users clann_user.id ≡ false))
ensure_clann_team_ends_example =
    ensure_clann_team_ends ascii_lower ascii_laws clann_users 100 200 clann_user two_organizations

clann_test :
    (ensure_clann_team ascii_lower clann_users 100 clann_user two_organizations).0 ≡ ok (some 4)
unfolding ensure_clann_team ensure_organization_by_slug user_has_team_in_org create_team
    unique_team_slug slugify ascii_lower team_display_name
clann_test = refl

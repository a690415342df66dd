-- ===== src/Teams/Roles.antt =====
-- db/mod.rs: the roles of teams, the products of teams and the product roles of members.
use ullav_user_management.Prelude.{
  ℕ, ◌+◌, String, Bool, false, not, ◌&&◌, Option, none, some, ◌∷◌, ◌==◌, same, same_chars, Chars,
  if◌then◌else◌, any, find, select, update_where, ltb, length,
}
use ullav_user_management.Errors.{conflict, database, not_found, validation}
use ullav_user_management.Exec.{Exec, pure, gets, modify, fail_if, or_fail, ◌>>=◌, ◌>>◌}
use ullav_user_management.Teams.{
  TeamRole, MemberRole, ProductRole, TeamDb, is_active, has_team, is_member, is_role, is_access,
  cascade,
}
use ullav_user_management.Teams.Store.{coalesce, coalesce_null}

abbrev pub is_named : ℕ → Chars → TeamRole → Bool
is_named team_id name r = r.team_id == team_id && same_chars r.name name

-- `name` has at most 100 characters; UNIQUE(team_id, name); `team_id` refers to a team.
unfoldable pub create_team_role : ℕ → Chars → Option String → Exec TeamDb ℕ
create_team_role team_id name description = do
  fail_if (ltb 100 (length name)) (database "string_data_right_truncation")
  taken ← gets λ db. any (is_named team_id name) db.roles
  fail_if taken conflict
  found ← gets λ db. has_team db.teams team_id
  fail_if (not found) (database "foreign_key_violation")
  id ← gets λ db. db.next_id
  modify λ db. record db {
    roles =
        record {
          id = db.next_id;
          team_id = team_id;
          name = name;
          description = description;
          is_all = false;
        }
        ∷ db.roles;
    next_id = db.next_id + 1;
  }
  pure id

abbrev pub name_taken : ℕ → ℕ → Option Chars → TeamDb → Bool
name_taken team_id role_id none db = false
name_taken team_id role_id (some name) db =
    any (is_role team_id role_id) db.roles
    && any (λ r. is_named team_id name r && not (r.id == role_id)) db.roles

abbrev pub is_too_long : Option Chars → Bool
is_too_long none = false
is_too_long (some name) = ltb 100 (length name)

unfoldable pub update_team_role : ℕ → ℕ → Option Chars → Option String → Exec TeamDb (Unit {0})
update_team_role team_id role_id name description = do
  taken ← gets (name_taken team_id role_id name)
  fail_if taken conflict
  found ← gets λ db. any (is_role team_id role_id) db.roles
  fail_if (found && is_too_long name) (database "string_data_right_truncation")
  modify λ db. record db {
    roles =
        update_where (is_role team_id role_id)
          (λ r. record r {
            name = coalesce name r.name;
            description = coalesce_null description r.description;
          })
          db.roles;
  }
  fail_if (not found) not_found

unfoldable pub delete_team_role : ℕ → ℕ → Exec TeamDb (Unit {0})
unfolding cascade
delete_team_role team_id role_id = do
  row ← gets λ db. find (is_role team_id role_id) db.roles
  r ← or_fail row not_found
  fail_if r.is_all (validation "the \"All\" role cannot be deleted")
  modify
      λ db. cascade (record db { roles = select (λ r. not (is_role team_id role_id r)) db.roles })

abbrev pub is_assignment : ℕ → ℕ → MemberRole → Bool
is_assignment role_id member_id x = x.role_id == role_id && x.member_id == member_id

-- The row of the member is found first: without one nothing is inserted and no constraint fails.
unfoldable pub assign_member_role : ℕ → ℕ → ℕ → Exec TeamDb (Unit {0})
assign_member_role team_id user_id role_id = do
  row ← gets λ db. find (λ m. is_member team_id user_id m && is_active m.status) db.members
  m ← or_fail row (validation "user is not an active member of this team")
  taken ← gets λ db. any (is_assignment role_id m.id) db.member_roles
  fail_if taken conflict
  found ← gets λ db. any (is_role team_id role_id) db.roles
  fail_if (not found) not_found
  modify λ db. record db {
    member_roles =
        record { team_id = team_id; role_id = role_id; member_id = m.id } ∷ db.member_roles;
  }

-- The rows that the DELETE … USING finds.
abbrev pub is_held : TeamDb → ℕ → ℕ → ℕ → MemberRole → Bool
is_held db team_id user_id role_id x =
    x.role_id == role_id && any (λ m. m.id == x.member_id && is_member team_id user_id m) db.members

unfoldable pub unassign_member_role : ℕ → ℕ → ℕ → Exec TeamDb (Unit {0})
unassign_member_role team_id user_id role_id = do
  row ← gets λ db. find (is_role team_id role_id) db.roles
  r ← or_fail row not_found
  fail_if r.is_all (validation "the \"All\" role cannot be manually unassigned")
  found ← gets λ db. any (is_held db team_id user_id role_id) db.member_roles
  modify λ db. record db {
    member_roles = select (λ x. not (is_held db team_id user_id role_id x)) db.member_roles;
  }
  fail_if (not found) not_found

-- `product_slug` refers to a row of `products`, which is not modelled.
unfoldable pub enable_team_product : ℕ → String → ℕ → Exec TeamDb (Unit {0})
enable_team_product team_id product_slug granted_by = do
  enabled ← gets λ db. any (is_access team_id product_slug) db.product_access
  found ← gets λ db. has_team db.teams team_id
  fail_if (not found) (database "foreign_key_violation")
  modify λ db. record db {
    product_access =
        if enabled
        then db.product_access
        else record { team_id = team_id; product_slug = product_slug; granted_by = some granted_by }
          ∷ db.product_access;
  }

unfoldable pub disable_team_product : ℕ → String → Exec TeamDb (Unit {0})
unfolding cascade
disable_team_product team_id product_slug = do
  found ← gets λ db. any (is_access team_id product_slug) db.product_access
  modify λ db. cascade (record db {
    product_access = select (λ a. not (is_access team_id product_slug a)) db.product_access;
  })
  fail_if (not found) not_found

abbrev pub is_product_role : ℕ → ℕ → String → ProductRole → Bool
is_product_role team_id user_id product_slug x =
    x.team_id == team_id && x.user_id == user_id && same x.product_slug product_slug

-- The foreign keys are checked in the order of the migration: the membership, then the product.
-- A membership of any status will do.
unfoldable pub assign_member_product_role : ℕ → ℕ → String → String → ℕ → Exec TeamDb (Unit {0})
assign_member_product_role team_id user_id product_slug role assigned_by = do
  member ← gets λ db. any (is_member team_id user_id) db.members
  fail_if (not member) (validation "user is not an active member of this team")
  enabled ← gets λ db. any (is_access team_id product_slug) db.product_access
  fail_if (not enabled) (validation "team does not have this product enabled")
  modify λ db. record db {
    product_roles =
        record {
          team_id = team_id;
          user_id = user_id;
          product_slug = product_slug;
          role = role;
          assigned_by = some assigned_by;
        }
        ∷ select (λ x. not (is_product_role team_id user_id product_slug x)) db.product_roles;
  }

unfoldable pub revoke_member_product_role : ℕ → ℕ → String → Exec TeamDb (Unit {0})
revoke_member_product_role team_id user_id product_slug = do
  found ← gets λ db. any (is_product_role team_id user_id product_slug) db.product_roles
  modify λ db. record db {
    product_roles =
        select (λ x. not (is_product_role team_id user_id product_slug x)) db.product_roles;
  }
  fail_if (not found) not_found

-- An active membership of a team that has the product.
unfoldable pub user_has_product_access : ℕ → String → TeamDb → Bool
user_has_product_access user_id product_slug db =
    any
      (λ m.
        m.user_id == user_id
        && is_active m.status
        && any (is_access m.team_id product_slug) db.product_access)
      db.members

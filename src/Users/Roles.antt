-- ===== src/Users/Roles.antt =====
-- db/mod.rs: the roles of users and the permissions of roles.
use ullav_user_management.Prelude.{
  ℕ, String, Bool, not, ◌&&◌, ◌||◌, List, ◌∷◌, ◌==◌, same, any, select, if◌then◌else◌,
}
use ullav_user_management.Errors.{conflict, not_found, database}
use ullav_user_management.Exec.{Exec, gets, modify, fail_if, ◌>>=◌, ◌>>◌}
use ullav_user_management.Users.{UserRole, RolePermission, UserDb, has_id}

abbrev pub has_name : String → List String → Bool
has_name name names = any (λ n. same n name) names

abbrev pub is_user_role : ℕ → String → UserRole → Bool
is_user_role user_id role r = r.user_id == user_id && same r.role role

abbrev pub is_role_permission : String → String → RolePermission → Bool
is_role_permission role permission p = same p.role role && same p.permission permission

abbrev pub add_user_role : ℕ → String → UserDb → UserDb
add_user_role user_id role db = record db {
  user_roles = record { user_id = user_id; role = role } ∷ db.user_roles;
}

-- INSERT … SELECT: no row where there is no such role, or where the user has it.
unfoldable pub assign_role : ℕ → String → Exec UserDb (Unit {0})
assign_role user_id role_name = do
  known ← gets λ db. has_name role_name db.roles
  held ← gets λ db. any (is_user_role user_id role_name) db.user_roles
  exists ← gets λ db. has_id db.users user_id
  fail_if (known && not held && not exists) (database "foreign_key_violation")
  modify λ db. if known && not held then add_user_role user_id role_name db else db

unfoldable pub remove_role : ℕ → String → Exec UserDb (Unit {0})
remove_role user_id role_name = modify λ db. record db {
  user_roles = select (λ r. not (is_user_role user_id role_name r)) db.user_roles;
}

unfoldable pub create_role : String → Exec UserDb (Unit {0})
create_role name = do
  taken ← gets λ db. has_name name db.roles
  fail_if taken conflict
  modify λ db. record db { roles = name ∷ db.roles }

-- With the rows that refer to the role (ON DELETE CASCADE).
unfoldable pub delete_role : String → Exec UserDb (Unit {0})
delete_role name = do
  found ← gets λ db. has_name name db.roles
  modify λ db. record db {
    roles = select (λ n. not (same n name)) db.roles;
    user_roles = select (λ r. not (same r.role name)) db.user_roles;
    role_permissions = select (λ p. not (same p.role name)) db.role_permissions;
  }
  fail_if (not found) not_found

unfoldable pub create_permission : String → Exec UserDb (Unit {0})
create_permission name = modify λ db. record db {
  permissions = if has_name name db.permissions then db.permissions else name ∷ db.permissions;
}

abbrev pub add_role_permission : String → String → UserDb → UserDb
add_role_permission role permission db = record db {
  role_permissions = record { role = role; permission = permission } ∷ db.role_permissions;
}

-- No row is inserted where the role or the permission is missing, or where the role has it: each of
-- these is `NotFound`.
unfoldable pub add_permission_to_role : String → String → Exec UserDb (Unit {0})
add_permission_to_role role permission = do
  known ← gets λ db. has_name role db.roles && has_name permission db.permissions
  held ← gets λ db. any (is_role_permission role permission) db.role_permissions
  fail_if (not known || held) not_found
  modify (add_role_permission role permission)

unfoldable pub remove_permission_from_role : String → String → Exec UserDb (Unit {0})
remove_permission_from_role role permission = modify λ db. record db {
  role_permissions = select (λ p. not (is_role_permission role permission p)) db.role_permissions;
}

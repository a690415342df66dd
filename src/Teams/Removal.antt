-- ===== src/Teams/Removal.antt =====
-- db/mod.rs: `admin_delete_user`, on the tables of teams. The tables of other parts cascade, but for
-- the audit log (migration 021), whose key refuses the deletion of a user with an entry.
use ullav_user_management.Prelude.{
  ℕ, Bool, false, not, ◌||◌, Option, none, some, List, ◌==◌, any, select, update_where,
}
use ullav_user_management.Errors.{database, not_found}
use ullav_user_management.Exec.{Exec, gets, modify, fail_if, ◌>>=◌, ◌>>◌}
use ullav_user_management.Accounts.{User, has_user}
use ullav_user_management.Teams.{Team, TeamDb, cascade}

abbrev pub is_by : ℕ → Option ℕ → Bool
is_by user_id none = false
is_by user_id (some u) = u == user_id

-- owner_id and leader_id: ON DELETE RESTRICT
abbrev pub is_led_by : ℕ → Team → Bool
is_led_by user_id t = t.owner_id == user_id || t.leader_id == user_id

-- invited_by, granted_by, assigned_by: ON DELETE SET NULL; memberships: ON DELETE CASCADE
abbrev pub detached : ℕ → TeamDb → TeamDb
detached user_id db = record db {
  members =
      select (λ m. not (m.user_id == user_id))
        (update_where (λ m. is_by user_id m.invited_by) (λ m. record m { invited_by = none })
          db.members);
  product_access =
      update_where (λ a. is_by user_id a.granted_by) (λ a. record a { granted_by = none })
        db.product_access;
  product_roles =
      update_where (λ r. is_by user_id r.assigned_by) (λ r. record r { assigned_by = none })
        db.product_roles;
}

unfoldable pub admin_delete_user : List User → Bool → ℕ → Exec TeamDb (Unit {0})
unfolding cascade
admin_delete_user users audited user_id = do
  fail_if (not (has_user users user_id)) not_found
  leads ← gets λ db. any (is_led_by user_id) db.teams
  fail_if (leads || audited) (database "foreign_key_violation")
  modify λ db. cascade (detached user_id db)

-- ===== src/Teams/Sync/Structure.antt =====
-- The functions on teams, roles and products keep the invariant, on every path.
use ullav_user_management.Prelude.{
  ℕ, ◌+◌, ◌<◌, ◌≡◌, refl, sym, ap, subst, ◌∙◌, inl, inr, true, false, not, ◌&&◌, Option, none, some,
  ◌==◌, of_eq, of_and, arith, any, find, select, length, ltb, List, Mem, of_find, to_select,
  Bool-cases, Option-cases, String, Chars,
}
use ullav_user_management.Errors.{conflict, database, not_found}
use ullav_user_management.Exec.Keeps.{
  after-fail_if, after-guard, after-found, after-lift, after-query,
}
use ullav_user_management.Slug.{unique_team_slug, validate_slug_format}
use ullav_user_management.Teams.{
  Team, Member, TeamRole, TeamDb, is_active, is_role, has_team, is_member,
}
use ullav_user_management.Teams.Store.{
  is_too_long, insert_team, create_team, slugs, slug_taken, check_slug, check_slug_available,
  TeamUpdate, updated, update_team, delete_team,
}
use ullav_user_management.Accounts.{User, has_user}
use ullav_user_management.Teams.Roles
use ullav_user_management.Teams.Roles.{
  is_named, create_team_role, name_taken, update_team_role, delete_team_role, is_assignment,
  assign_member_role, is_held, unassign_member_role,
}
use ullav_user_management.Teams.Sync.{HoldsAll, HasTeams, Synced}
use ullav_user_management.Teams.Sync.Tables.{
  cascade-Synced, teams-selected, roles-selected, member_roles-changed,
}
use ullav_user_management.Teams.Sync.Updates.{teams-updated, roles-updated, role-created}

pub check_slug-reads :
    (db : TeamDb) (slug : Option Chars) (team_id : ℕ) → (check_slug slug team_id db).1 ≡ db
unfolding check_slug check_slug_available
check_slug-reads db none team_id = refl
check_slug-reads db (some slug) team_id =
    after-lift (λ s. s ≡ db) (validate_slug_format slug) _ db refl
      λ _ _. after-fail_if (λ s. s ≡ db) _ _ db refl

module _ (db : TeamDb) (h : Synced db) where
  pub insert_team-Synced :
      (name slug : Chars) (description purpose avatar_url : Option String) (owner_id : ℕ)
      (organization_id : Option ℕ) (now : ℕ)
      → Synced
          (insert_team name slug description purpose avatar_url owner_id organization_id now db)
  unfolding insert_team
  insert_team-Synced name slug description purpose avatar_url owner_id organization_id now = (
    record {
      team_has_all = team_has_all;
      active_holds_all = holders;
      one_flag = flags;
      one_row = rows;
      role_fresh = role_fresh;
      team_fresh = team_fresh;
    },
    owners,
  )
    where
      after : TeamDb
      after =
          unfold insert_team in
          insert_team name slug description purpose avatar_url owner_id organization_id now db

      team_has_all :
          (t : Team)
          → Mem t after.teams
          → (r : TeamRole) × Mem r after.roles × (r.is_all ≡ true) × (r.team_id ≡ t.id)
      team_has_all t (inl e) = (_, inl refl, refl, ap (λ (t : Team). t.id) e)
      team_has_all t (inr i) = let (r, ri, ra, rt) = h.0.team_has_all t i in (r, inr ri, ra, rt)

      holders :
          (m : Member)
          → Mem m after.members
          → is_active m.status ≡ true
          → HoldsAll after.roles after.member_roles m
      holders m (inl e) a =
          subst (HoldsAll after.roles after.member_roles) e
            (_, inl refl, refl, refl, _, inl refl, refl, refl, refl)
      holders m (inr i) a =
          let (r, ri, ra, rt, x, xi, xr, xm, xt) = h.0.active_holds_all m i a in
          (r, inr ri, ra, rt, x, inr xi, xr, xm, xt)

      flags :
          (r s : TeamRole)
          → Mem r after.roles
          → Mem s after.roles
          → r.id ≡ s.id
          → r.is_all ≡ s.is_all
      flags r s (inl e) (inl d) k = ap (λ (r : TeamRole). r.is_all) (sym e ∙ d)
      flags r s (inl e) (inr j) k =
          absurd (omega (arith, ap (λ (r : TeamRole). r.id) e, h.0.role_fresh s j, k))
      flags r s (inr i) (inl d) k =
          absurd (omega (arith, ap (λ (r : TeamRole). r.id) d, h.0.role_fresh r i, k))
      flags r s (inr i) (inr j) k = h.0.one_flag r s i j k

      old_team : (m : Member) → Mem m db.members → m.team_id < db.next_id
      old_team m i = let (t, ti, e) = h.1 m i in omega (arith, h.0.team_fresh t ti, e)

      rows :
          (m n : Member)
          → Mem m after.members
          → Mem n after.members
          → m.team_id ≡ n.team_id
          → m.user_id ≡ n.user_id
          → m.id ≡ n.id
      rows m n (inl e) (inl d) t u = ap (λ (m : Member). m.id) (sym e ∙ d)
      rows m n (inl e) (inr j) t u =
          absurd (omega (arith, ap (λ (m : Member). m.team_id) e, old_team n j, t))
      rows m n (inr i) (inl d) t u =
          absurd (omega (arith, ap (λ (m : Member). m.team_id) d, old_team m i, t))
      rows m n (inr i) (inr j) t u = h.0.one_row m n i j t u

      role_fresh : (r : TeamRole) → Mem r after.roles → r.id < after.next_id
      role_fresh r (inl e) = omega (arith, ap (λ (r : TeamRole). r.id) e)
      role_fresh r (inr i) = omega (arith, h.0.role_fresh r i)

      team_fresh : (t : Team) → Mem t after.teams → t.id < after.next_id
      team_fresh t (inl e) = omega (arith, ap (λ (t : Team). t.id) e)
      team_fresh t (inr i) = omega (arith, h.0.team_fresh t i)

      owners : HasTeams after.teams after.members
      owners m (inl e) = (_, inl refl, ap (λ (m : Member). m.team_id) e)
      owners m (inr i) = let (t, ti, k) = h.1 m i in (t, inr ti, k)

  pub create_team-Synced :
      (to_lowercase : Chars → Chars) (users : List User) (name : Chars)
      (description purpose avatar_url : Option String) (owner_id : ℕ) (organization_id : Option ℕ)
      (now : ℕ)
      → Synced
          (create_team to_lowercase users name description purpose avatar_url owner_id
            organization_id now db).1
  unfolding create_team
  create_team-Synced to_lowercase users name description purpose avatar_url owner_id organization_id
        now =
      elim (Option-cases
        (unique_team_slug to_lowercase (length (slugs db) + 1) (slug_taken db) name)) [
          | inl e ↦ rw e h
          | inr (slug, e) ↦ elim (Bool-cases (is_too_long (some name) (some slug) avatar_url)) [
            | inl l ↦ rw (e, l) h
            | inr l ↦ elim (Bool-cases (has_user users owner_id)) [
              | inr u ↦ rw (e, l, u) h
              | inl u ↦
                  rw (e, l, u)
                    (insert_team-Synced name slug description purpose avatar_url owner_id
                      organization_id now)
            ]
          ]
        ]

  pub delete_team-Synced : (team_id : ℕ) → Synced (delete_team team_id db).1
  unfolding delete_team
  delete_team-Synced team_id = after-fail_if Synced (not (has_team db.teams team_id)) not_found _ (
      cascade-Synced (record db { teams = select (λ t. not (t.id == team_id)) db.teams })
        (teams-selected h.0 (λ t. not (t.id == team_id))))

  pub update_team-Synced : (team_id : ℕ) (u : TeamUpdate) → Synced (update_team team_id u db).1
  unfolding update_team
  update_team-Synced team_id u =
      after-query Synced (check_slug u.slug team_id) _ db (check_slug-reads db u.slug team_id) h
        λ _ _.
          after-guard Synced (has_team db.teams team_id && is_too_long u.name u.slug u.avatar_url)
            (database "string_data_right_truncation") _ db h
            λ _.
              after-fail_if Synced (not (has_team db.teams team_id)) not_found _
                (teams-updated h.0 (λ t. t.id == team_id) (updated u) (λ t. refl) h.1)

  pub create_team_role-Synced :
      (team_id : ℕ) (name : Chars) (description : Option String)
      → Synced (create_team_role team_id name description db).1
  unfolding create_team_role
  create_team_role-Synced team_id name description =
      after-guard Synced (ltb 100 (length name)) (database "string_data_right_truncation") _ db h
        λ _. after-guard Synced (any (is_named team_id name) db.roles) conflict _ db h λ _.
          after-guard Synced (not (has_team db.teams team_id)) (database "foreign_key_violation") _
            db h λ _. (role-created h.0 _ refl refl, h.1)

  pub update_team_role-Synced :
      (team_id role_id : ℕ) (name : Option Chars) (description : Option String)
      → Synced (update_team_role team_id role_id name description db).1
  unfolding update_team_role
  update_team_role-Synced team_id role_id name description =
      after-guard Synced (name_taken team_id role_id name db) conflict _ db h λ _.
        after-guard Synced (any (is_role team_id role_id) db.roles && Roles.is_too_long name)
          (database "string_data_right_truncation") _ db h
          λ _.
            after-fail_if Synced (not (any (is_role team_id role_id) db.roles)) not_found _ (
              roles-updated h.0 (is_role team_id role_id) _ (λ r. refl) (λ r. refl) (λ r. refl),
              h.1,
            )

  -- Another role than the one found is not touched if it is an "All" role.
  plain_role :
      (team_id role_id : ℕ) (r : TeamRole)
      → find (is_role team_id role_id) db.roles ≡ some r
      → r.is_all ≡ false
      → (s : TeamRole) → Mem s db.roles
      → s.is_all ≡ true
      → (s.id == role_id) ≡ false
  plain_role team_id role_id r found plain s i a = elim (Bool-cases (s.id == role_id)) [
    | inl e ↦
        let (ri, re) = of_find (is_role team_id role_id) r db.roles found in
        absurd (cc (plain, a, h.0.one_flag r s ri i (of_eq (is_id r re) ∙ sym (of_eq e))))
    | inr e ↦ e
  ]
    where
      is_id : (r : TeamRole) → is_role team_id role_id r ≡ true → (r.id == role_id) ≡ true
      is_id r e = (of_and e).0

  pub delete_team_role-Synced :
      (team_id role_id : ℕ) → Synced (delete_team_role team_id role_id db).1
  unfolding delete_team_role
  delete_team_role-Synced team_id role_id =
      after-found Synced (find (is_role team_id role_id) db.roles) not_found _ db h λ r found.
        after-guard Synced r.is_all _ _ db h λ plain.
          cascade-Synced
            (record db { roles = select (λ r. not (is_role team_id role_id r)) db.roles })
            (roles-selected h.0 (λ r. not (is_role team_id role_id r))
              (λ s i a. rw (plain_role team_id role_id r found plain s i a) refl))

  pub assign_member_role-Synced :
      (team_id user_id role_id : ℕ) → Synced (assign_member_role team_id user_id role_id db).1
  unfolding assign_member_role
  assign_member_role-Synced team_id user_id role_id =
      after-found Synced (find (λ m. is_member team_id user_id m && is_active m.status) db.members)
        _ _ db h
        λ m _. after-guard Synced (any (is_assignment role_id m.id) db.member_roles) _ _ db h λ _.
          after-guard Synced (not (any (is_role team_id role_id) db.roles)) _ _ db h
            λ _. (member_roles-changed h.0 _ (λ r i a x xi e. inr xi), h.1)

  pub unassign_member_role-Synced :
      (team_id user_id role_id : ℕ) → Synced (unassign_member_role team_id user_id role_id db).1
  unfolding unassign_member_role
  unassign_member_role-Synced team_id user_id role_id =
      after-found Synced (find (is_role team_id role_id) db.roles) not_found _ db h λ r found.
        after-guard Synced r.is_all _ _ db h λ plain.
          after-fail_if Synced (not (any (is_held db team_id user_id role_id) db.member_roles))
            not_found _
            (
              member_roles-changed h.0 _ (λ s i a x xi e.
                  to_select (λ x. not (is_held db team_id user_id role_id x)) x db.member_roles xi
                    (rw (e, plain_role team_id role_id r found plain s i a) refl)),
              h.1,
            )

-- ===== src/Teams/Sync/Tables.antt =====
-- Changes of one table that keep the invariant: deletions with their cascade, updates, inserts.
use ullav_user_management.Prelude.{
  ℕ, ◌≡◌, sym, ap, ◌∙◌, Bool, true, ◌&&◌, List, ◌==◌, to_eq, of_eq, to_and, any, select, Mem,
  any_of, of_any, of_select, to_select,
}
use ullav_user_management.Teams.{
  Team, Member, TeamRole, MemberRole, TeamDb, is_active, is_role, has_team, cascade,
}
use ullav_user_management.Teams.Sync.{HoldsAll, Consistent, Loose, Synced}

pub to_has_team :
    (teams : List Team) (id : ℕ) (t : Team) → Mem t teams → t.id ≡ id → has_team teams id ≡ true
to_has_team teams id t i e = any_of (λ t. t.id == id) t teams i (to_eq e)

pub of_has_team :
    (teams : List Team) (id : ℕ) → has_team teams id ≡ true → (t : Team) × Mem t teams × (t.id ≡ id)
of_has_team teams id h = let (t, i, k) = of_any (λ t. t.id == id) teams h in (t, i, of_eq k)

module _ (db : TeamDb) (h : Loose db) where
  kept_role :
      (r : TeamRole)
      → Mem r db.roles
      → has_team db.teams r.team_id ≡ true
      → Mem r (cascade db).roles
  unfolding cascade
  kept_role r i k = to_select (λ r. has_team db.teams r.team_id) r db.roles i k

  cascade-holds :
      (m : Member)
      → Mem m (cascade db).members
      → is_active m.status ≡ true
      → HoldsAll (cascade db).roles (cascade db).member_roles m
  unfolding cascade
  cascade-holds m i a =
      let (j, k) = of_select (λ m. has_team db.teams m.team_id) m db.members i in
      let (r, ri, ra, rt, x, xi, xr, xm, xt) = h.active_holds_all m j a in
      let r_here = kept_role r ri (ap (has_team db.teams) rt ∙ k) in
      let role =
        any_of (is_role x.team_id x.role_id) r (cascade db).roles r_here
          (to_and (to_eq (sym xr)) (to_eq (rt ∙ sym xt))) in
      let member =
        any_of (λ m. m.id == x.member_id && m.team_id == x.team_id) m (cascade db).members i
          (to_and (to_eq (sym xm)) (to_eq (sym xt))) in
      let x_here =
        to_select
          (λ x.
            any (is_role x.team_id x.role_id) (cascade db).roles
            && any (λ m. m.id == x.member_id && m.team_id == x.team_id) (cascade db).members)
          x db.member_roles xi (to_and role member) in
      (r, r_here, ra, rt, x, x_here, xr, xm, xt)

  pub cascade-Synced : Synced (cascade db)
  unfolding cascade
  cascade-Synced = (
    record {
      team_has_all = λ t i.
          let (r, ri, ra, rt) = h.team_has_all t i in
          (r, kept_role r ri (to_has_team db.teams r.team_id t i (sym rt)), ra, rt);
      active_holds_all = cascade-holds;
      one_flag = λ r s i j e. h.one_flag r s (was_role r i) (was_role s j) e;
      one_row = λ m n i j e f. h.one_row m n (was_member m i) (was_member n j) e f;
      role_fresh = λ r i. h.role_fresh r (was_role r i);
      team_fresh = h.team_fresh;
    },
    λ m i.
        of_has_team db.teams m.team_id
          (of_select (λ m. has_team db.teams m.team_id) m db.members i).1,
  )
    where
      was_role :
          (r : TeamRole)
          → Mem r (select (λ r. has_team db.teams r.team_id) db.roles)
          → Mem r db.roles
      was_role r i = (of_select (λ r. has_team db.teams r.team_id) r db.roles i).0

      was_member :
          (m : Member)
          → Mem m (select (λ m. has_team db.teams m.team_id) db.members)
          → Mem m db.members
      was_member m i = (of_select (λ m. has_team db.teams m.team_id) m db.members i).0

module _ {teams : List Team} {members : List Member} {roles : List TeamRole}
    {member_roles : List MemberRole} {next_id : ℕ}
    (h : Consistent teams members roles member_roles next_id) where
  pub teams-selected :
      (p : Team → Bool) → Consistent (select p teams) members roles member_roles next_id
  teams-selected p = record {
    team_has_all = λ t i. h.team_has_all t (of_select p t teams i).0;
    active_holds_all = h.active_holds_all;
    one_flag = h.one_flag;
    one_row = h.one_row;
    role_fresh = h.role_fresh;
    team_fresh = λ t i. h.team_fresh t (of_select p t teams i).0;
  }

  pub members-selected :
      (p : Member → Bool) → Consistent teams (select p members) roles member_roles next_id
  members-selected p = record {
    team_has_all = h.team_has_all;
    active_holds_all = λ m i a. h.active_holds_all m (of_select p m members i).0 a;
    one_flag = h.one_flag;
    one_row = λ m n i j. h.one_row m n (of_select p m members i).0 (of_select p n members j).0;
    role_fresh = h.role_fresh;
    team_fresh = h.team_fresh;
  }

  -- A selection of the roles that has every "All" role.
  pub roles-selected :
      (p : TeamRole → Bool)
      → ((r : TeamRole) → Mem r roles → r.is_all ≡ true → p r ≡ true)
      → Consistent teams members (select p roles) member_roles next_id
  roles-selected p keep = record {
    team_has_all = λ t i.
        let (r, ri, ra, rt) = h.team_has_all t i in
        (r, to_select p r roles ri (keep r ri ra), ra, rt);
    active_holds_all = λ m i a.
        let (r, ri, ra, rt, x, xi, xr, xm, xt) = h.active_holds_all m i a in
        (r, to_select p r roles ri (keep r ri ra), ra, rt, x, xi, xr, xm, xt);
    one_flag = λ r s i j. h.one_flag r s (of_select p r roles i).0 (of_select p s roles j).0;
    one_row = h.one_row;
    role_fresh = λ r i. h.role_fresh r (of_select p r roles i).0;
    team_fresh = h.team_fresh;
  }

  -- A change of the assignments that keeps those of the "All" roles.
  pub member_roles-changed :
      (after : List MemberRole)
      → ((r : TeamRole)
          → Mem r roles
          → r.is_all ≡ true
          → (x : MemberRole) → Mem x member_roles
          → x.role_id ≡ r.id
          → Mem x after)
      → Consistent teams members roles after next_id
  member_roles-changed after keep = record {
    team_has_all = h.team_has_all;
    active_holds_all = λ m i a.
        let (r, ri, ra, rt, x, xi, xr, xm, xt) = h.active_holds_all m i a in
        (r, ri, ra, rt, x, keep r ri ra x xi xr, xr, xm, xt);
    one_flag = h.one_flag;
    one_row = h.one_row;
    role_fresh = h.role_fresh;
    team_fresh = h.team_fresh;
  }

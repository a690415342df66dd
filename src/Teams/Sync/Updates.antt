-- ===== src/Teams/Sync/Updates.antt =====
-- Updates of rows and inserts that keep the invariant.
use ullav_user_management.Prelude.{
  ℕ, ◌+◌, ◌<◌, ◌≡◌, refl, sym, ap, ◌∙◌, inl, inr, Bool, true, false, List, ◌∷◌, if◌then◌else◌,
  arith, update_where, Mem, of_update, to_update,
}
use ullav_user_management.Teams.{Team, Member, TeamRole, MemberRole, is_active}
use ullav_user_management.Teams.Sync.{Consistent, HasTeams}

-- A field that both rows agree on.
pub kept :
    {A B : Type 0} (g : A → B) (b : Bool) {x y : A} → g x ≡ g y → g (if b then x else y) ≡ g y
kept g true e = e
kept g false e = refl

module _ {teams : List Team} {members : List Member} {roles : List TeamRole}
    {member_roles : List MemberRole} {next_id : ℕ}
    (h : Consistent teams members roles member_roles next_id) where
  pub teams-updated :
      (p : Team → Bool) (f : Team → Team)
      → ((t : Team) → (f t).id ≡ t.id)
      → HasTeams teams members
      → Consistent (update_where p f teams) members roles member_roles next_id
        × HasTeams (update_where p f teams) members
  teams-updated p f same_id k = (
    record {
      team_has_all = λ t i.
          let (u, ui, e) = of_update p f t teams i in
          let (r, ri, ra, rt) = h.team_has_all u ui in
          (r, ri, ra, rt ∙ sym (id_kept u) ∙ ap (λ (t : Team). t.id) e);
      active_holds_all = h.active_holds_all;
      one_flag = h.one_flag;
      one_row = h.one_row;
      role_fresh = h.role_fresh;
      team_fresh = λ t i.
          let (u, ui, e) = of_update p f t teams i in rw (← e, id_kept u) (h.team_fresh u ui);
    },
    λ m i.
        let (t, ti, e) = k m i in (if p t then f t else t, to_update p f t teams ti, id_kept t ∙ e),
  )
    where
      id_kept : (u : Team) → (if p u then f u else u).id ≡ u.id
      id_kept u = kept (λ (t : Team). t.id) (p u) (same_id u)

  -- The columns that rows are found by stay, and no member becomes active.
  pub members-updated :
      (p : Member → Bool) (f : Member → Member)
      → ((m : Member) → (f m).id ≡ m.id)
      → ((m : Member) → (f m).team_id ≡ m.team_id)
      → ((m : Member) → (f m).user_id ≡ m.user_id)
      → ((m : Member) → (f m).status ≡ m.status)
      → HasTeams teams members
      → Consistent teams (update_where p f members) roles member_roles next_id
        × HasTeams teams (update_where p f members)
  members-updated p f same_id same_team same_user same_status k = (
    record {
      team_has_all = h.team_has_all;
      active_holds_all = λ m i a.
          let (n, ni, e) = of_update p f m members i in
          let n_active = ap is_active (status n m e) ∙ a in
          let (r, ri, ra, rt, x, xi, xr, xm, xt) = h.active_holds_all n ni n_active in
          (r, ri, ra, rt ∙ team n m e, x, xi, xr, xm ∙ id n m e, xt ∙ team n m e);
      one_flag = h.one_flag;
      one_row = λ m n i j e d.
          let (m', mi, me) = of_update p f m members i in
          let (n', ni, ne) = of_update p f n members j in
          sym (id m' m me)
          ∙ h.one_row m' n' mi ni (team m' m me ∙ e ∙ sym (team n' n ne))
              (user m' m me ∙ d ∙ sym (user n' n ne))
          ∙ id n' n ne;
      role_fresh = h.role_fresh;
      team_fresh = h.team_fresh;
    },
    λ m i.
        let (n, ni, e) = of_update p f m members i in
        let (t, ti, te) = k n ni in (t, ti, te ∙ team n m e),
  )
    where
      id : (n m : Member) → (if p n then f n else n) ≡ m → n.id ≡ m.id
      id n m e = sym (kept (λ (m : Member). m.id) (p n) (same_id n)) ∙ ap (λ (m : Member). m.id) e

      team : (n m : Member) → (if p n then f n else n) ≡ m → n.team_id ≡ m.team_id
      team n m e =
          sym (kept (λ (m : Member). m.team_id) (p n) (same_team n))
          ∙ ap (λ (m : Member). m.team_id) e

      status : (n m : Member) → (if p n then f n else n) ≡ m → n.status ≡ m.status
      status n m e =
          sym (kept (λ (m : Member). m.status) (p n) (same_status n))
          ∙ ap (λ (m : Member). m.status) e

      user : (n m : Member) → (if p n then f n else n) ≡ m → n.user_id ≡ m.user_id
      user n m e =
          sym (kept (λ (m : Member). m.user_id) (p n) (same_user n))
          ∙ ap (λ (m : Member). m.user_id) e

  pub roles-updated :
      (p : TeamRole → Bool) (f : TeamRole → TeamRole)
      → ((r : TeamRole) → (f r).id ≡ r.id)
      → ((r : TeamRole) → (f r).team_id ≡ r.team_id)
      → ((r : TeamRole) → (f r).is_all ≡ r.is_all)
      → Consistent teams members (update_where p f roles) member_roles next_id
  roles-updated p f same_id same_team same_flag = record {
    team_has_all = λ t i.
        let (r, ri, ra, rt) = h.team_has_all t i in
        (if p r then f r else r, to_update p f r roles ri, flag r ∙ ra, team r ∙ rt);
    active_holds_all = λ m i a.
        let (r, ri, ra, rt, x, xi, xr, xm, xt) = h.active_holds_all m i a in
        (
          if p r then f r else r,
          to_update p f r roles ri,
          flag r ∙ ra,
          team r ∙ rt,
          x,
          xi,
          xr ∙ sym (id r),
          xm,
          xt,
        );
    one_flag = λ r s i j e.
        let (q, qi, qe) = of_update p f r roles i in
        let (u, ui, ue) = of_update p f s roles j in
        ap (λ (r : TeamRole). r.is_all) (sym qe)
        ∙ flag q
        ∙ h.one_flag q u qi ui (
            sym (id q)
            ∙ ap (λ (r : TeamRole). r.id) qe
            ∙ e
            ∙ ap (λ (r : TeamRole). r.id) (sym ue)
            ∙ id u)
        ∙ sym (flag u)
        ∙ ap (λ (r : TeamRole). r.is_all) ue;
    one_row = h.one_row;
    role_fresh =
        λ r i. let (q, qi, qe) = of_update p f r roles i in rw (← qe, id q) (h.role_fresh q qi);
    team_fresh = h.team_fresh;
  }
    where
      id : (r : TeamRole) → (if p r then f r else r).id ≡ r.id
      id r = kept (λ (r : TeamRole). r.id) (p r) (same_id r)

      team : (r : TeamRole) → (if p r then f r else r).team_id ≡ r.team_id
      team r = kept (λ (r : TeamRole). r.team_id) (p r) (same_team r)

      flag : (r : TeamRole) → (if p r then f r else r).is_all ≡ r.is_all
      flag r = kept (λ (r : TeamRole). r.is_all) (p r) (same_flag r)

  -- A new role that is not an "All" role.
  pub role-created :
      (new : TeamRole)
      → new.id ≡ next_id
      → new.is_all ≡ false
      → Consistent teams members (new ∷ roles) member_roles (next_id + 1)
  role-created new new_id plain = record {
    team_has_all = λ t i. let (r, ri, ra, rt) = h.team_has_all t i in (r, inr ri, ra, rt);
    active_holds_all = λ m i a.
        let (r, ri, ra, rt, x, xi, xr, xm, xt) = h.active_holds_all m i a in
        (r, inr ri, ra, rt, x, xi, xr, xm, xt);
    one_flag = flags;
    one_row = h.one_row;
    role_fresh = fresh;
    team_fresh = λ t i. omega (arith, h.team_fresh t i);
  }
    where
      fresh : (r : TeamRole) → Mem r (new ∷ roles) → r.id < next_id + 1
      fresh r (inl e) = omega (arith, ap (λ (r : TeamRole). r.id) e, new_id)
      fresh r (inr i) = omega (arith, h.role_fresh r i)

      flags :
          (r s : TeamRole)
          → Mem r (new ∷ roles)
          → Mem s (new ∷ roles)
          → r.id ≡ s.id
          → r.is_all ≡ s.is_all
      flags r s (inl e) (inl d) k = ap (λ (r : TeamRole). r.is_all) (sym e ∙ d)
      flags r s (inl e) (inr j) k =
          absurd (omega (arith, ap (λ (r : TeamRole). r.id) e, new_id, h.role_fresh s j, k))
      flags r s (inr i) (inl d) k =
          absurd (omega (arith, ap (λ (r : TeamRole). r.id) d, new_id, h.role_fresh r i, k))
      flags r s (inr i) (inr j) k = h.one_flag r s i j k

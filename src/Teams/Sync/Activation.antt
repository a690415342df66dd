-- ===== src/Teams/Sync/Activation.antt =====
-- A new team, a new member and a member that becomes active: `assign_all_role_to_member` restores
-- the invariant.
use ullav_user_management.Prelude.{
  ℕ, ◌+◌, ◌≡◌, refl, sym, ap, subst, ◌∙◌, inl, inr, Bool, true, false, ◌&&◌, List, [], ◌∷◌, ◌==◌,
  to_eq, of_eq, to_and, of_and, if◌then◌else◌, arith, any, update_where, Mem, any_of, of_any,
  of_update, Bool-cases,
}
use ullav_user_management.Teams.{Team, Member, TeamRole, MemberRole, is_active, has_team, is_member}
use ullav_user_management.Teams.Members.{
  is_all_of, holds, add_role, add_all_roles, add_member_roles,
}
use ullav_user_management.Teams.Sync.Updates.{kept}
use ullav_user_management.Teams.Sync.{HoldsAll, Consistent, HasTeams}

abbrev Holds : List MemberRole → Member → TeamRole → Type 0
Holds member_roles m r =
    (x : MemberRole) × Mem x member_roles
    × (x.role_id ≡ r.id)
    × (x.member_id ≡ m.id)
    × (x.team_id ≡ m.team_id)

add_role-keeps :
    (mr : List MemberRole) (m : Member) (r : TeamRole) (x : MemberRole)
    → Mem x mr
    → Mem x (add_role mr m r)
add_role-keeps mr m r x i = elim (Bool-cases (holds mr m r)) [
  | inl e ↦ rw e i
  | inr e ↦ rw e (inr i)
]

add_role-Holds : (mr : List MemberRole) (m : Member) (r : TeamRole) → Holds (add_role mr m r) m r
add_role-Holds mr m r = elim (Bool-cases (holds mr m r)) [
  | inl e ↦
      let (x, i, k) =
        of_any (λ x. x.role_id == r.id && x.member_id == m.id && x.team_id == m.team_id) mr e in
      let (k1, k4) = of_and k in
      let (k2, k3) = of_and k1 in rw e (x, i, of_eq k2, of_eq k3, of_eq k4)
  | inr e ↦
      rw e (
        record { team_id = m.team_id; role_id = r.id; member_id = m.id },
        inl refl,
        refl,
        refl,
        refl,
      )
]

add_all_roles-keeps :
    (roles : List TeamRole) (m : Member) (mr : List MemberRole) (x : MemberRole)
    → Mem x mr
    → Mem x (add_all_roles roles m mr)
unfolding add_all_roles
add_all_roles-keeps [] m mr x i = i
add_all_roles-keeps (r ∷ rs) m mr x i =
    let rest = add_all_roles-keeps rs m mr x i in
    elim (Bool-cases (is_all_of m.team_id r)) [
      | inl e ↦ rw e (add_role-keeps (add_all_roles rs m mr) m r x rest)
      | inr e ↦ rw e rest
    ]

add_all_roles-Holds :
    (roles : List TeamRole) (m : Member) (mr : List MemberRole) (r : TeamRole)
    → Mem r roles
    → is_all_of m.team_id r ≡ true
    → Holds (add_all_roles roles m mr) m r
unfolding add_all_roles
add_all_roles-Holds [] m mr r i e = absurd i
add_all_roles-Holds (s ∷ rs) m mr r (inl q) e =
    let s_all = ap (is_all_of m.team_id) q ∙ e in
    rw (← q) (rw s_all (add_role-Holds (add_all_roles rs m mr) m s))
add_all_roles-Holds (s ∷ rs) m mr r (inr i) e =
    let (x, xi, xr, xm, xt) = add_all_roles-Holds rs m mr r i e in
    elim (Bool-cases (is_all_of m.team_id s)) [
      | inl k ↦ rw k (x, add_role-keeps (add_all_roles rs m mr) m s x xi, xr, xm, xt)
      | inr k ↦ rw k (x, xi, xr, xm, xt)
    ]

module _ (roles : List TeamRole) (member_id : ℕ) where
  pub add_member_roles-keeps :
      (ms : List Member) (mr : List MemberRole) (x : MemberRole)
      → Mem x mr
      → Mem x (add_member_roles roles member_id ms mr)
  unfolding add_member_roles
  add_member_roles-keeps [] mr x i = i
  add_member_roles-keeps (m ∷ ms) mr x i =
      let rest = add_member_roles-keeps ms mr x i in
      elim (Bool-cases (m.id == member_id && is_active m.status)) [
        | inl e ↦ rw e (add_all_roles-keeps roles m (add_member_roles roles member_id ms mr) x rest)
        | inr e ↦ rw e rest
      ]

  add_member_roles-Holds :
      (ms : List Member) (mr : List MemberRole) (m : Member) (r : TeamRole)
      → Mem m ms
      → m.id ≡ member_id
      → is_active m.status ≡ true
      → Mem r roles
      → is_all_of m.team_id r ≡ true
      → Holds (add_member_roles roles member_id ms mr) m r
  unfolding add_member_roles
  add_member_roles-Holds [] mr m r i id a ri e = absurd i
  add_member_roles-Holds (n ∷ ms) mr m r (inl q) id a ri e =
      let here =
        to_and (to_eq (ap (λ (m : Member). m.id) q ∙ id))
          (ap (λ (m : Member). is_active m.status) q ∙ a) in
      rw (← q) (
        rw here (
          add_all_roles-Holds roles n (add_member_roles roles member_id ms mr) r ri
            (ap (λ (m : Member). is_all_of m.team_id r) q ∙ e)))
  add_member_roles-Holds (n ∷ ms) mr m r (inr i) id a ri e =
      let (x, xi, xr, xm, xt) = add_member_roles-Holds ms mr m r i id a ri e in
      elim (Bool-cases (n.id == member_id && is_active n.status)) [
        | inl k ↦ rw k (
          x,
          add_all_roles-keeps roles n (add_member_roles roles member_id ms mr) x xi,
          xr,
          xm,
          xt,
        )
        | inr k ↦ rw k (x, xi, xr, xm, xt)
      ]

module _ {teams : List Team} {members : List Member} {roles : List TeamRole}
    {member_roles : List MemberRole} {next_id : ℕ}
    (h : Consistent teams members roles member_roles next_id) (k : HasTeams teams members) where
  -- A row more, whose role assignments are already there.
  pub member-added :
      (new : Member) (after : List MemberRole)
      → has_team teams new.team_id ≡ true
      → any (is_member new.team_id new.user_id) members ≡ false
      → ((x : MemberRole) → Mem x member_roles → Mem x after)
      → (is_active new.status ≡ true → HoldsAll roles after new)
      → Consistent teams (new ∷ members) roles after (next_id + 1) × HasTeams teams (new ∷ members)
  member-added new after found free keep new_holds = (
    record {
      team_has_all = h.team_has_all;
      active_holds_all = holders;
      one_flag = h.one_flag;
      one_row = rows;
      role_fresh = λ r i. omega (arith, h.role_fresh r i);
      team_fresh = λ t i. omega (arith, h.team_fresh t i);
    },
    owners,
  )
    where
      holders :
          (m : Member) → Mem m (new ∷ members) → is_active m.status ≡ true → HoldsAll roles after m
      holders m (inl e) a =
          subst (HoldsAll roles after) e (new_holds (ap (λ (m : Member). is_active m.status) e ∙ a))
      holders m (inr i) a =
          let (r, ri, ra, rt, x, xi, xr, xm, xt) = h.active_holds_all m i a in
          (r, ri, ra, rt, x, keep x xi, xr, xm, xt)

      clash :
          (m n : Member)
          → new ≡ m
          → Mem n members
          → m.team_id ≡ n.team_id
          → m.user_id ≡ n.user_id
          → m.id ≡ n.id
      clash m n e j t u = absurd (
          cc (
            free,
            any_of (is_member new.team_id new.user_id) n members j (
                to_and (to_eq (sym t ∙ ap (λ (m : Member). m.team_id) (sym e)))
                  (to_eq (sym u ∙ ap (λ (m : Member). m.user_id) (sym e)))),
          ))

      rows :
          (m n : Member)
          → Mem m (new ∷ members)
          → Mem n (new ∷ members)
          → m.team_id ≡ n.team_id
          → m.user_id ≡ n.user_id
          → m.id ≡ n.id
      rows m n (inl e) (inl d) t u = ap (λ (m : Member). m.id) (sym e ∙ d)
      rows m n (inl e) (inr j) t u = clash m n e j t u
      rows m n (inr i) (inl d) t u = sym (clash n m d i (sym t) (sym u))
      rows m n (inr i) (inr j) t u = h.one_row m n i j t u

      owners : (m : Member) → Mem m (new ∷ members) → (t : Team) × Mem t teams × (t.id ≡ m.team_id)
      owners m (inl e) =
          let (t, i, d) = of_any (λ t. t.id == new.team_id) teams found in
          (t, i, of_eq d ∙ ap (λ (m : Member). m.team_id) e)
      owners m (inr i) = k m i

  -- The roles that `assign_all_role_to_member` gives to an active member of a team.
  pub assigned :
      (ms : List Member) (m : Member)
      → Mem m ms
      → is_active m.status ≡ true
      → ((t : Team) × Mem t teams × (t.id ≡ m.team_id))
      → HoldsAll roles (add_member_roles roles m.id ms member_roles) m
  assigned ms m i a (t, ti, te) =
      let (r, ri, ra, rt) = h.team_has_all t ti in
      let (x, xi, xr, xm, xt) =
        add_member_roles-Holds roles m.id ms member_roles m r i refl a ri
          (to_and ra (to_eq (rt ∙ te))) in
      (r, ri, ra, rt ∙ te, x, xi, xr, xm, xt)

  -- The rows that become active are those of one member, which gets the roles.
  pub member-activated :
      (p : Member → Bool) (f : Member → Member) (member_id : ℕ)
      → ((m : Member) → (f m).id ≡ m.id)
      → ((m : Member) → (f m).team_id ≡ m.team_id)
      → ((m : Member) → (f m).user_id ≡ m.user_id)
      → ((m : Member) → Mem m members → p m ≡ true → m.id ≡ member_id)
      → Consistent teams
          (update_where p f members)
          roles
          (add_member_roles roles member_id (update_where p f members) member_roles)
          next_id
        × HasTeams teams (update_where p f members)
  member-activated p f member_id same_id same_team same_user found = (
    record {
      team_has_all = h.team_has_all;
      active_holds_all = holders;
      one_flag = h.one_flag;
      one_row = λ m n i j e d.
          let (m', mi, me) = of_update p f m members i in
          let (n', ni, ne) = of_update p f n members j in
          sym (id m' m me)
          ∙ h.one_row m' n' mi ni (team m' m me ∙ e ∙ sym (team n' n ne))
              (user m' m me ∙ d ∙ sym (user n' n ne))
          ∙ id n' n ne;
      role_fresh = h.role_fresh;
      team_fresh = h.team_fresh;
    },
    owners,
  )
    where
      id : (n m : Member) → (if p n then f n else n) ≡ m → n.id ≡ m.id
      id n m e = sym (kept (λ (m : Member). m.id) (p n) (same_id n)) ∙ ap (λ (m : Member). m.id) e

      team : (n m : Member) → (if p n then f n else n) ≡ m → n.team_id ≡ m.team_id
      team n m e =
          sym (kept (λ (m : Member). m.team_id) (p n) (same_team n))
          ∙ ap (λ (m : Member). m.team_id) e

      user : (n m : Member) → (if p n then f n else n) ≡ m → n.user_id ≡ m.user_id
      user n m e =
          sym (kept (λ (m : Member). m.user_id) (p n) (same_user n))
          ∙ ap (λ (m : Member). m.user_id) e

      owners :
          (m : Member)
          → Mem m (update_where p f members)
          → (t : Team) × Mem t teams × (t.id ≡ m.team_id)
      owners m i =
          let (n, ni, e) = of_update p f m members i in
          let (t, ti, te) = k n ni in (t, ti, te ∙ team n m e)

      holders :
          (m : Member)
          → Mem m (update_where p f members)
          → is_active m.status ≡ true
          → HoldsAll roles
              (add_member_roles roles member_id (update_where p f members) member_roles)
              m
      holders m i a =
          let (n, ni, e) = of_update p f m members i in
          elim (Bool-cases (p n)) [
            | inl pe ↦
                let same = sym (id n m e) ∙ found n ni pe in
                subst
                  (λ i.
                    HoldsAll roles
                      (add_member_roles roles i (update_where p f members) member_roles) m)
                  same (assigned (update_where p f members) m i a (owners m i))
            | inr pe ↦
                let here = subst (λ m. Mem m members) (rw pe at e) ni in
                let (r, ri, ra, rt, x, xi, xr, xm, xt) = h.active_holds_all m here a in
                (
                  r,
                  ri,
                  ra,
                  rt,
                  x,
                  add_member_roles-keeps roles member_id (update_where p f members) member_roles x
                      xi,
                  xr,
                  xm,
                  xt,
                )
          ]

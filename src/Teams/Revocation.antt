-- ===== src/Teams/Revocation.antt =====
-- What a removal takes away by the cascades, and what it leaves.
use ullav_user_management.Prelude.{
  ℕ, ◌≡◌, refl, ap, ◌∙◌, inl, inr, Bool, true, false, not, ◌&&◌, List, ◌==◌, arith, any, find,
  select, String, same, eq_iff, Bool-cases, Option-cases, Mem, of_any, any_of, of_select, of_and,
}
use ullav_user_management.Errors.{AppError, not_found, forbidden}
use ullav_user_management.Exec.{fail_if}
use ullav_user_management.Exec.Keeps.{after-fail_if}
use ullav_user_management.Teams.{
  Team, Member, ProductRole, TeamDb, has_team, is_member, is_access, cascade,
}
use ullav_user_management.Teams.Store.{get_team_ownership}
use ullav_user_management.Teams.Members.{remove_team_member}
use ullav_user_management.Teams.Roles.{disable_team_product}
use ullav_user_management.Teams.Handlers.{owner_or_leader}

none_passes :
    {A : Type 0} (p : A → Bool) (xs : List A)
    → ((x : A) → Mem x xs → p x ≡ true → ⊥)
    → any p xs ≡ false
none_passes p xs h = elim (Bool-cases (any p xs)) [
  | inl e ↦ let (x, i, k) = of_any p xs e in absurd (h x i k)
  | inr e ↦ e
]

-- A product role stands on a membership and on the team's access to the product.
product_role-stands :
    (db : TeamDb) (x : ProductRole)
    → Mem x (cascade db).product_roles
    → (any (is_member x.team_id x.user_id) db.members ≡ true)
      × (any (is_access x.team_id x.product_slug) db.product_access ≡ true)
unfolding cascade
product_role-stands db x i =
    let (j, k) =
      of_select
        (λ x.
          any (is_member x.team_id x.user_id) (cascade db).members
          && any (is_access x.team_id x.product_slug) (cascade db).product_access)
        x db.product_roles i in
    let (a, b) = of_and k in
    let (m, mi, mk) = of_any (is_member x.team_id x.user_id) (cascade db).members a in
    let (c, ci, ck) = of_any (is_access x.team_id x.product_slug) (cascade db).product_access b in
    (
      any_of (is_member x.team_id x.user_id) m db.members
          (of_select (λ m. has_team db.teams m.team_id) m db.members mi).0 mk,
      any_of (is_access x.team_id x.product_slug) c db.product_access
          (of_select (λ c. has_team db.teams c.team_id) c db.product_access ci).0 ck,
    )

-- When a product is disabled for a team, no member of the team keeps a role for it.
pub disable_team_product-revokes :
    (team_id : ℕ) (product_slug : String) (db : TeamDb)
    → any
        (λ (x : ProductRole). x.team_id == team_id && same x.product_slug product_slug)
        (disable_team_product team_id product_slug db).1.product_roles
      ≡ false
unfolding disable_team_product
disable_team_product-revokes team_id product_slug db =
    after-fail_if
      (λ (s : TeamDb).
        any (λ (x : ProductRole). x.team_id == team_id && same x.product_slug product_slug)
          s.product_roles
        ≡ false)
      (not (any (is_access team_id product_slug) db.product_access)) not_found _
      (none_passes _ _ λ x i k.
        let rest = select (λ a. not (is_access team_id product_slug a)) db.product_access in
        let (_, access) = product_role-stands (record db { product_access = rest }) x i in
        let (c, ci, ck) = of_any (is_access x.team_id x.product_slug) rest access in
        let (_, other) =
          of_select (λ a. not (is_access team_id product_slug a)) c db.product_access ci in
        absurd (
          ground (
            arith,
            k,
            ck,
            other,
            eq_iff x.product_slug product_slug,
            eq_iff c.product_slug x.product_slug,
            eq_iff c.product_slug product_slug,
          )))

-- A member who is removed from a team is no member of any status and keeps no role for a product of that team.
pub remove_team_member-revokes :
    (team_id user_id : ℕ) (db : TeamDb)
    → (any (is_member team_id user_id) (remove_team_member team_id user_id db).1.members ≡ false)
      × (any
            (λ (x : ProductRole). x.team_id == team_id && x.user_id == user_id)
            (remove_team_member team_id user_id db).1.product_roles
          ≡ false)
unfolding remove_team_member
remove_team_member-revokes team_id user_id db =
    after-fail_if
      (λ s.
        (any (is_member team_id user_id) s.members ≡ false)
        × (any (λ (x : ProductRole). x.team_id == team_id && x.user_id == user_id) s.product_roles
            ≡ false))
      (not (any (is_member team_id user_id) db.members)) not_found (cascade left)
      (members_gone, roles_gone)
  where
    left : TeamDb
    left = record db { members = select (λ m. not (is_member team_id user_id m)) db.members }

    gone : (m : Member) → Mem m left.members → is_member team_id user_id m ≡ true → ⊥
    gone m i k =
        let (_, other) = of_select (λ m. not (is_member team_id user_id m)) m db.members i in
        absurd (ground (arith, k, other))

    members_gone : any (is_member team_id user_id) (cascade left).members ≡ false
    members_gone =
        none_passes _ _
          λ m i k. gone m (of_select (λ m. has_team db.teams m.team_id) m left.members i).0 k

    roles_gone :
        any
          (λ (x : ProductRole). x.team_id == team_id && x.user_id == user_id)
          (cascade left).product_roles
        ≡ false
    roles_gone = none_passes _ _ λ x i k.
        let (member, _) = product_role-stands left x i in
        let (m, mi, mk) = of_any (is_member x.team_id x.user_id) left.members member in
        gone m mi (ground (arith, k, mk))

fail_if-result : (b : Bool) (e : AppError) (s t : TeamDb) → (fail_if b e s).0 ≡ (fail_if b e t).0
fail_if-result true e s t = refl
fail_if-result false e s t = refl

-- The check reads the teams only.
owner_or_leader-teams :
    (user_id team_id : ℕ) (s t : TeamDb)
    → s.teams ≡ t.teams
    → (owner_or_leader user_id team_id s).0 ≡ (owner_or_leader user_id team_id t).0
unfolding owner_or_leader get_team_ownership
owner_or_leader-teams user_id team_id s t e =
    elim (Option-cases (find (λ t. t.id == team_id) t.teams)) [
      | inl k ↦ rw (ap (find (λ (t : Team). t.id == team_id)) e ∙ k, k) refl
      | inr (row, k) ↦
          rw (ap (find (λ (t : Team). t.id == team_id)) e ∙ k, k) (fail_if-result _ forbidden s t)
    ]

remove_team_member-teams :
    (team_id target : ℕ) (db : TeamDb) → (remove_team_member team_id target db).1.teams ≡ db.teams
unfolding remove_team_member cascade
remove_team_member-teams team_id target db =
    after-fail_if (λ (s : TeamDb). s.teams ≡ db.teams)
      (not (any (is_member team_id target) db.members)) not_found _ refl

-- A removal changes nobody's rights over a team: whoever passes the check for the owner or the leader
-- before it passes it after it, also the leader who was removed.
pub remove_team_member-rights :
    (team_id target : ℕ) (db : TeamDb) (user_id managed : ℕ)
    → (owner_or_leader user_id managed (remove_team_member team_id target db).1).0
      ≡ (owner_or_leader user_id managed db).0
remove_team_member-rights team_id target db user_id managed =
    owner_or_leader-teams user_id managed _ db (remove_team_member-teams team_id target db)

-- ===== src/Teams/SupportFlag.antt =====
-- A team that is made the Support team of an organization is the only one there.
use ullav_user_management.Prelude.{
  ℕ, ◌≡◌, refl, sym, ap, ◌∙◌, Bool, true, false, not, ◌&&◌, some, List, [], ◌∷◌, ◌==◌, arith, any,
  update_where,
}
use ullav_user_management.Errors.{ok, database, not_found}
use ullav_user_management.Exec.Keeps.{after-fail_if, after-guard, query-passed, transaction-passed}
use ullav_user_management.Teams.{Team, TeamDb, has_team}
use ullav_user_management.Teams.Store.{check_slug, is_too_long}
use ullav_user_management.Teams.Support.{
  AdminTeamUpdate, admin_updated, is_support_of, check_organization, write_team, admin_update_team,
}
use ullav_user_management.Teams.Sync.Structure.{check_slug-reads}
use ullav_user_management.Teams.Sync.Products.{check_organization-reads}

-- Another Support team of the organization.
abbrev pub is_rival : ℕ → ℕ → Team → Bool
is_rival team_id org t = is_support_of org t && not (t.id == team_id)

no_rival :
    (team_id org : ℕ) (u : AdminTeamUpdate) (ts : List Team)
    → any (is_rival team_id org) (
        update_where
          (λ t. t.id == team_id)
          (admin_updated u)
          (update_where (is_support_of org) (λ t. record t { is_support_team = false }) ts))
      ≡ false
no_rival team_id org u [] = refl
no_rival team_id org u (t ∷ ts) = ground (arith, no_rival team_id org u ts)

unset_rival :
    (team_id org : ℕ) (ts : List Team)
    → any
        (is_rival team_id org)
        (update_where (is_support_of org) (λ t. record t { is_support_team = false }) ts)
      ≡ false
unset_rival team_id org [] = refl
unset_rival team_id org (t ∷ ts) = ground (arith, unset_rival team_id org ts)

write_team-alone :
    (team_id org : ℕ) (u : AdminTeamUpdate) (db : TeamDb)
    → u.organization_id ≡ some (some org)
    → u.is_support_team ≡ some true
    → any (is_rival team_id org) (write_team team_id u db).1.teams ≡ false
unfolding write_team
write_team-alone team_id org u db e f =
    let teams =
      update_where (is_support_of org) (λ t. record t { is_support_team = false }) db.teams in
    rw (e, f)
      (after-guard (λ (s : TeamDb). any (is_rival team_id org) s.teams ≡ false)
        (has_team teams team_id && is_too_long u.name u.slug u.avatar_url)
        (database "string_data_right_truncation") _ _ (unset_rival team_id org db.teams)
        λ _.
          after-fail_if (λ (s : TeamDb). any (is_rival team_id org) s.teams ≡ false)
            (not (
              has_team
                (update_where (is_support_of org) (λ t. record t { is_support_team = false })
                  db.teams)
                team_id))
            not_found _
            (no_rival team_id org
              (record u { organization_id = some (some org); is_support_team = some true })
              db.teams))

-- Where an administrator's update with success moves a team to an organization and flags it as the Support team, no
-- other team of the organization is flagged.
pub admin_update_team-alone :
    (team_id org : ℕ) (u : AdminTeamUpdate) (db : TeamDb)
    → u.organization_id ≡ some (some org)
    → u.is_support_team ≡ some true
    → (admin_update_team team_id u db).0 ≡ ok tt
    → any (is_rival team_id org) (admin_update_team team_id u db).1.teams ≡ false
unfolding admin_update_team
admin_update_team-alone team_id org u db e f done =
    let (_, p) =
      query-passed (check_slug u.slug team_id) _ db tt (check_slug-reads db u.slug team_id) done in
    let (_, q) =
      query-passed (check_organization u.organization_id) _ db tt
        (check_organization-reads u.organization_id db) (ap (λ r. r.0) (sym p) ∙ done) in
    let w = transaction-passed (write_team team_id u) db tt (ap (λ r. r.0) (sym (p ∙ q)) ∙ done) in
    ap (λ r. any (is_rival team_id org) r.1.teams) (p ∙ q ∙ w)
    ∙ write_team-alone team_id org u db e f

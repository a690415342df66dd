-- ===== src/Teams/Organizations/Clann.antt =====
-- Every Clann user gets a team in the shared organization, once.
use ullav_user_management.Prelude.{
  ℕ, ◌≡◌, refl, inl, inr, ◌⊎◌, ◌+◌, ◌<◌, subst, arith, true, false, ltb, length, map, any,
  same_chars, List, Option, none, some, Bool-cases, Option-cases, Chars, codes, to_eq,
}
use ullav_user_management.Errors.{AppError, ok, err, database}
use ullav_user_management.Accounts.{User, has_user}
use ullav_user_management.Slug.Format.{LowercaseLaws}
use ullav_user_management.Slug.{unique_team_slug}
use ullav_user_management.Slug.Unique.{unique_team_slug_total}
use ullav_user_management.Teams.{Team, Organization, TeamDb}
use ullav_user_management.Teams.Store.{create_team, insert_team, slugs, slug_taken}
use ullav_user_management.Teams.Organizations.{
  get_organization_by_slug, ensure_organization_by_slug, insert_organization, user_has_team_in_org,
  ensure_clann_team, family_name,
}

-- The shared organization is there, and the user has a team in it.
pub InClann : User → TeamDb → Type 0
InClann user db =
    (o : Organization) × (get_organization_by_slug (codes "clann") db ≡ some o)
    × (user_has_team_in_org user.id o.id db ≡ true)

-- The name of the team or its slug is longer than its column.
pub TooLong : (Chars → Chars) → User → TeamDb → Type 0
TooLong lower user db =
    (255 < length (family_name user))
    ⊎ ((slug : Chars) × (unique_team_slug lower (length (slugs db) + 1) (slug_taken db)
            (family_name user)
          ≡ some slug)
        × (255 < length slug))

module _ (lower : Chars → Chars) (laws : LowercaseLaws lower) (users : List User) where
  -- The team is made, or the tables are as they were, since a column is too short or there is no such user.
  created :
      (user : User) (org_id now : ℕ) (db : TeamDb)
      → ((slug : Chars) × (create_team lower users
              (family_name user)
              none
              none
              none
              user.id
              (some org_id)
              now
              db
            ≡ (
              ok db.next_id,
              insert_team (family_name user) slug none none none user.id (some org_id) now db,
            )))
        ⊎ (e : AppError) × (create_team lower users
              (family_name user)
              none
              none
              none
              user.id
              (some org_id)
              now
              db
            ≡ (err e, db))
          × (TooLong lower user db ⊎ (has_user users user.id ≡ false))
  unfolding create_team TooLong
  created user org_id now db =
      let (slug, e, _, _) = unique_team_slug_total lower laws (slugs db) (family_name user) in
      elim (Bool-cases (ltb 255 (length (family_name user)))) [
        | inl l ↦
            inr (
              database "string_data_right_truncation",
              rw (e, l) refl,
              inl (inl (ground (arith, l))),
            )
        | inr l ↦ elim (Bool-cases (ltb 255 (length slug))) [
          | inl k ↦ inr (
            database "string_data_right_truncation",
            rw (e, l, k) refl,
            inl (inr (slug, e, ground (arith, k))),
          )
          | inr k ↦ elim (Bool-cases (has_user users user.id)) [
            | inr u ↦ inr (database "foreign_key_violation", rw (e, l, k, u) refl, inr u)
            | inl u ↦ inl (slug, rw (e, l, k, u) refl)
          ]
        ]
      ]

ensured :
    (db : TeamDb)
    → (o : Organization) × (after : TeamDb) × (ensure_organization_by_slug
          (codes "clann")
          (codes "Clann")
          db
        ≡ (ok o.id, after))
      × (get_organization_by_slug (codes "clann") after ≡ some o)
      × (after.teams ≡ db.teams)
      × (after.members ≡ db.members)
unfolding ensure_organization_by_slug get_organization_by_slug
ensured db = elim (Option-cases (get_organization_by_slug (codes "clann") db)) [
  | inr (o, e) ↦ (o, db, rw e refl, e, refl, refl)
  | inl e ↦ (
    record { id = db.next_id; name = codes "Clann"; slug = codes "clann"; description = none },
    insert_organization (codes "Clann") (codes "clann") none db,
    rw e refl,
    refl,
    refl,
    refl,
  )
]

inserted-InClann :
    (name slug : Chars) (now : ℕ) (user : User) (o : Organization) (db : TeamDb)
    → get_organization_by_slug (codes "clann") db ≡ some o
    → InClann user (insert_team name slug none none none user.id (some o.id) now db)
unfolding InClann insert_team user_has_team_in_org get_organization_by_slug
inserted-InClann name slug now user o db found = (
  o,
  found,
  rw (to_eq {a = user.id} refl, to_eq {a = db.next_id} refl, to_eq {a = o.id} refl) refl,
)

clann_team_already :
    (lower : Chars → Chars) (users : List User) (now : ℕ) (user : User) (db : TeamDb)
    → InClann user db
    → ensure_clann_team lower users now user db ≡ (ok none, db)
unfolding ensure_clann_team ensure_organization_by_slug InClann
clann_team_already lower users now user db (o, e, present) = rw (e, present) refl

reason_before :
    (lower : Chars → Chars) (users : List User) (user : User) (middle db : TeamDb)
    → middle.teams ≡ db.teams
    → TooLong lower user middle ⊎ (has_user users user.id ≡ false)
    → TooLong lower user db ⊎ (has_user users user.id ≡ false)
unfolding TooLong
reason_before lower users user middle db e (inl (inl l)) = inl (inl l)
reason_before lower users user middle db e (inl (inr (slug, s, l))) = inl (
    inr (
      slug,
      subst
          (λ (ts : List Team).
            unique_team_slug lower (length (map (λ (t : Team). t.slug) ts) + 1)
              (λ s. any (λ r. same_chars r s) (map (λ (t : Team). t.slug) ts)) (family_name user)
            ≡ some slug)
          e s,
      l,
    ))
reason_before lower users user middle db e (inr u) = inr u

module _ (lower : Chars → Chars) (laws : LowercaseLaws lower) (users : List User) where
  -- Where `to_lowercase` obeys `LowercaseLaws`: `ensure_clann_team` ends in one of two ways. With success: then the
  -- organization `clann` is there and the user is an active member of a team of it, and to ensure it again, at any time,
  -- makes no team and changes nothing. Or with an error, with the teams and the memberships as they were: then the name
  -- of the team or its slug has more than 255 characters, or the user is not in the table of users.
  pub ensure_clann_team_ends :
      (now later : ℕ) (user : User) (db : TeamDb)
      → ((made : Option ℕ) × (after : TeamDb) × (ensure_clann_team lower users now user db
            ≡ (ok made, after))
          × InClann user after
          × (ensure_clann_team lower users later user after ≡ (ok none, after)))
        ⊎ (e : AppError) × (after : TeamDb) × (ensure_clann_team lower users now user db
            ≡ (err e, after))
          × (after.teams ≡ db.teams)
          × (after.members ≡ db.members)
          × (TooLong lower user db ⊎ (has_user users user.id ≡ false))
  unfolding ensure_clann_team InClann
  ensure_clann_team_ends now later user db =
      let (o, middle, e, found, same_teams, same_members) = ensured db in
      elim (Bool-cases (user_has_team_in_org user.id o.id middle)) [
        | inl present ↦ inl (
          none,
          middle,
          rw (e, present) refl,
          (o, found, present),
          clann_team_already lower users later user middle (o, found, present),
        )
        | inr absent ↦ elim (created lower laws users user o.id now middle) [
          | inl (slug, done) ↦
              let in_clann = inserted-InClann (family_name user) slug now user o middle found in
              inl (
                some middle.next_id,
                insert_team (family_name user) slug none none none user.id (some o.id) now middle,
                rw (e, absent, done) refl,
                in_clann,
                clann_team_already lower users later user _ in_clann,
              )
          | inr (failure, done, why) ↦ inr (
            failure,
            middle,
            rw (e, absent, done) refl,
            same_teams,
            same_members,
            reason_before lower users user middle db same_teams why,
          )
        ]
      ]

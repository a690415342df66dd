-- ===== src/Users/Confirm.antt =====
-- The confirmation of an e-mail address: handlers/auth.rs.
use ullav_user_management.Prelude.{
  ℕ, ◌≡◌, ◌∙◌, refl, sym, ap, subst, String, inl, inr, ◌⊎◌, Mem, any_of, of_select, true, false,
  none, List, [], ◌∷◌, ◌==◌, ltb, select, update_where, arith, Bool-cases, Option-cases, to_eq,
}
use ullav_user_management.Errors.{ok, err, invalid_token, Result-cases}
use ullav_user_management.Accounts.{User, has_user, get_user_by_id}
use ullav_user_management.Slug.Format.{LowercaseLaws}
use ullav_user_management.Teams.{TeamDb}
use ullav_user_management.Teams.Organizations.{ensure_clann_team}
use ullav_user_management.Teams.Organizations.Clann.{InClann, TooLong, ensure_clann_team_ends}
use ullav_user_management.Users.{UserDb}
use ullav_user_management.Users.Context.{UserContext}
use ullav_user_management.Users.Store.{
  is_confirmed_by, sole, get_user_by_confirmation_token, activate_user,
}
use ullav_user_management.Users.Auth.{activate_and_provision, activate_by_token}

-- The row of a user who is activated.
abbrev activated : User → User
activated u = record u {
  is_active = true;
  confirmation_token = none;
  confirmation_token_expires_at = none;
}

cons_parts : {A : Type 0} {x y : A} {xs ys : List A} → x ∷ xs ≡ y ∷ ys → (x ≡ y) × (xs ≡ ys)
cons_parts e = (cc, cc)

of_sole : (users : List User) (u : User) → sole users ≡ ok u → users ≡ u ∷ []
of_sole [] u h = absurd (ground (arith, h))
of_sole (v ∷ []) u h = ap (λ w. w ∷ []) (ground (arith, h))
of_sole (v ∷ w ∷ users) u h = absurd (ground (arith, h))

module _ (token : String) (id : ℕ) where
  none_left :
      (users : List User)
      → select (is_confirmed_by token) users ≡ []
      → select (is_confirmed_by token) (update_where (λ v. v.id == id) activated users) ≡ []
  none_left [] h = refl
  none_left (v ∷ users) h = ground (arith, h, none_left users)

  one_cleared :
      (u : User) (users : List User)
      → u.id ≡ id
      → select (is_confirmed_by token) users ≡ u ∷ []
      → select (is_confirmed_by token) (update_where (λ v. v.id == id) activated users) ≡ []
  one_cleared u [] own h = absurd (ground (arith, h))
  one_cleared u (v ∷ users) own h = elim (Bool-cases (is_confirmed_by token v)) [
    | inl e ↦
        let (head, tail) = cons_parts (rw e at h) in
        rw (to_eq (ap (λ w. w.id) head ∙ own)) (none_left users tail)
    | inr e ↦ elim (Bool-cases (v.id == id)) [
      | inl k ↦ rw k (one_cleared u users own (rw e at h))
      | inr k ↦ rw (k, e) (one_cleared u users own (rw e at h))
    ]
  ]

module _ (context : UserContext) (token : String) (now : ℕ) where
  activation_done :
      (db : UserDb)
      → (activate_by_token context token now db).0 ≡ ok tt
      → (u : User) × (select (is_confirmed_by token) db.users ≡ u ∷ [])
        × (activate_by_token context token now db
            ≡ activate_and_provision context u now u.is_active db)
  unfolding activate_by_token get_user_by_confirmation_token
  activation_done db h = elim (Result-cases (sole (select (is_confirmed_by token) db.users))) [
    | inr (e, s) ↦ absurd (ground (arith, (rw s at h)))
    | inl (u, s) ↦ elim (Option-cases u.confirmation_token_expires_at) [
      | inl x ↦ absurd (ground (arith, (rw (s, x) at h)))
      | inr (t, x) ↦ elim (Bool-cases (ltb t now)) [
        | inl l ↦ absurd (ground (arith, (rw (s, x, l) at h)))
        | inr l ↦ (u, of_sole (select (is_confirmed_by token) db.users) u s, rw (s, x, l) refl)
      ]
    ]
  ]

  -- The tables after the first activation.
  provisioned :
      (u : User) (db : UserDb)
      → ((activate_and_provision context u now false db).1.users
          ≡ update_where (λ v. v.id == u.id) activated db.users)
        × ((activate_and_provision context u now false db).1.teams
            ≡ (ensure_clann_team context.to_lowercase
                (update_where (λ v. v.id == u.id) activated db.users)
                now
                u
                db.teams).1)
  unfolding activate_user
  provisioned u db = (refl, refl)

known_after :
    (id : ℕ) (users : List User)
    → has_user users id ≡ true
    → has_user (update_where (λ w. w.id == id) activated users) id ≡ true
known_after id [] h = h
known_after id (v ∷ users) h = ground (arith, h, known_after id users)

still_there :
    (token : String) (u : User) (users : List User)
    → select (is_confirmed_by token) users ≡ u ∷ []
    → has_user (update_where (λ w. w.id == u.id) activated users) u.id ≡ false
    → ⊥
still_there token u users only unknown =
    let (i, _) = of_select (is_confirmed_by token) u users (subst (Mem u) (sym only) (inl refl)) in
    ground (
      arith,
      unknown,
      known_after u.id users (any_of (λ v. v.id == u.id) u users i (to_eq {a = u.id} refl)),
    )

active_of :
    (id : ℕ) (users : List User) (v : User)
    → get_user_by_id (update_where (λ w. w.id == id) activated users) id ≡ ok v
    → v.is_active ≡ true
unfolding get_user_by_id
active_of id [] v h = absurd (ground (arith, h))
active_of id (w ∷ users) v h = elim (Bool-cases (w.id == id)) [
  | inl e ↦ ground (arith, (rw (e, e) at h))
  | inr e ↦ active_of id users v (rw (e, e) at h)
]

refused :
    (context : UserContext) (token : String) (later : ℕ) (db : UserDb)
    → select (is_confirmed_by token) db.users ≡ []
    → (activate_by_token context token later db).0 ≡ err invalid_token
unfolding activate_by_token get_user_by_confirmation_token
refused context token later db none_with = rw none_with refl

-- What is claimed of the tables after a confirmation.
abbrev Confirmed : UserContext → String → User → TeamDb → UserDb → Type 0
Confirmed context token u before after =
    ((v : User) → get_user_by_id after.users u.id ≡ ok v → v.is_active ≡ true)
    × (InClann u after.teams ⊎ TooLong context.to_lowercase u before)
    × ((later : ℕ) → (activate_by_token context token later after).0 ≡ err invalid_token)

module _ (context : UserContext) (laws : LowercaseLaws context.to_lowercase) (token : String)
    (now : ℕ) where
  provisioned-Confirmed :
      (u : User) (db : UserDb)
      → select (is_confirmed_by token) db.users ≡ u ∷ []
      → Confirmed context token u db.teams (activate_and_provision context u now false db).1
  provisioned-Confirmed u db only =
      let (users_after, teams_after) = provisioned context token now u db in
      (
        λ v g. active_of u.id db.users v (rw users_after at g),
        elim (ensure_clann_team_ends context.to_lowercase laws
            (update_where (λ v. v.id == u.id) activated db.users) now now u db.teams) [
              | inl (made, after, ensured, in_clann, _) ↦ inl (rw (teams_after, ensured) in_clann)
              | inr (_, _, _, _, _, inl long) ↦ inr long
              | inr (_, _, _, _, _, inr unknown) ↦
                  absurd (still_there token u db.users only unknown)
            ],
        λ later.
            refused context token later _
              (rw users_after (one_cleared token u.id u db.users refl only)),
      )

  -- Where `to_lowercase` obeys `LowercaseLaws`: after a confirmation that succeeded, of a user who was not active, the
  -- account is active, the token is invalid at any later time, and its user is in a team of the organization
  -- `clann`, unless the name of that team or its slug, from the user's names, has more than 255 characters.
  pub activate_by_token_ends :
      (u : User) (db : UserDb)
      → (get_user_by_confirmation_token token db).0 ≡ ok u
      → u.is_active ≡ false
      → (activate_by_token context token now db).0 ≡ ok tt
      → ((v : User)
          → get_user_by_id (activate_by_token context token now db).1.users u.id ≡ ok v
          → v.is_active ≡ true)
        × (InClann u (activate_by_token context token now db).1.teams
            ⊎ TooLong context.to_lowercase u db.teams)
        × ((later : ℕ)
            → (activate_by_token context token later (activate_by_token context token now db).1).0
              ≡ err invalid_token)
  unfolding get_user_by_confirmation_token
  activate_by_token_ends u db known inactive h =
      let (u2, only, done) = activation_done context token now db h in
      let only_u = of_sole (select (is_confirmed_by token) db.users) u known in
      let same_user = (cons_parts (sym only ∙ only_u)).0 in
      let done_u =
        done
        ∙ ap (λ w. activate_and_provision context w now w.is_active db) same_user
        ∙ ap (λ b. activate_and_provision context u now b db) inactive in
      subst (λ r. Confirmed context token u db.teams r.1) (sym done_u)
        (provisioned-Confirmed u db only_u)

-- ===== src/Users/Rights.antt =====
-- Who may change a password: handlers/auth.rs.
use ullav_user_management.Prelude.{
  ℕ, ◌≡◌, ◌≢◌, refl, ap, subst, String, ◌⊎◌, inl, inr, true, false, not, ◌&&◌, Option, none, some,
  List, [], ◌∷◌, ◌==◌, same, eq_iff, update_where, arith, Bool-cases, Option-cases, Mem, of_any,
  to_eq, of_eq,
}
use ullav_user_management.Errors.{AppError, ok, err, forbidden, invalid_token, Result-cases}
use ullav_user_management.Accounts.{User, Claims, get_user_by_id}
use ullav_user_management.Checks.{validate_password}
use ullav_user_management.Users.{UserDb, has_id}
use ullav_user_management.Users.Context.{UserContext}
use ullav_user_management.Users.Store.{update_password}
use ullav_user_management.Users.Auth.{is_sub, is_admin, check_current, change_password}

-- The owner who gave the current password, or another with the permission.
abbrev pub Entitled : UserContext → Claims → ℕ → Option String → User → Type 0
Entitled context claims user_id current u =
    ((claims.sub ≡ some user_id)
      × (password : String) × (current ≡ some password)
      × (context.verify_password password u.password_hash ≡ ok true))
    ⊎ ((claims.sub ≢ some user_id) × Mem "users:change_any_password" claims.permissions)

module _ (context : UserContext) where
  own_of : (user_id : ℕ) (sub : Option ℕ) → is_sub context user_id sub ≡ true → sub ≡ some user_id
  own_of user_id none h = absurd (ground (arith, h))
  own_of user_id (some s) h = ap some (of_eq h)

  not_own_of :
      (user_id : ℕ) (sub : Option ℕ) → is_sub context user_id sub ≡ false → sub ≢ some user_id
  not_own_of user_id sub h e = ground (arith, (rw e at h), to_eq {a = user_id} refl)

  checked_of :
      (claims : Claims) (user_id : ℕ) (current : Option String) (u : User)
      → is_sub context user_id claims.sub ≡ true
      → check_current context true current u.password_hash ≡ ok tt
      → Entitled context claims user_id current u
  checked_of claims user_id none u own h = absurd (ground (arith, h))
  checked_of claims user_id (some password) u own h =
      elim (Result-cases (context.verify_password password u.password_hash)) [
        | inr (e, v) ↦ absurd (ground (arith, (rw v at h)))
        | inl (true, v) ↦ inl (own_of user_id claims.sub own, password, refl, v)
        | inl (false, v) ↦ absurd (ground (arith, (rw v at h)))
      ]

  admin_of :
      (claims : Claims)
      → is_admin context claims ≡ true
      → Mem "users:change_any_password" claims.permissions
  admin_of claims h =
      let (p, i, e) = of_any (λ p. same p "users:change_any_password") claims.permissions h in
      subst (λ q. Mem q claims.permissions)
        (ground (arith, e, eq_iff p "users:change_any_password")) i

  right_of :
      (claims : Claims) (user_id : ℕ) (current : Option String) (u : User)
      → (not (is_sub context user_id claims.sub) && not (is_admin context claims)) ≡ false
      → check_current context (is_sub context user_id claims.sub) current u.password_hash ≡ ok tt
      → Entitled context claims user_id current u
  right_of claims user_id current u allowed checked =
      elim (Bool-cases (is_sub context user_id claims.sub)) [
        | inl own ↦ checked_of claims user_id current u own (rw own at checked)
        | inr other ↦
            inr (
              not_own_of user_id claims.sub other,
              admin_of claims (ground (arith, other, allowed)),
            )
      ]

has_id_of :
    (users : List User) (id : ℕ) (u : User)
    → get_user_by_id users id ≡ ok u
    → has_id users id ≡ true
unfolding get_user_by_id
has_id_of [] id u h = absurd (ground (arith, h))
has_id_of (v ∷ users) id u h = elim (Bool-cases (v.id == id)) [
  | inl e ↦ rw e refl
  | inr e ↦ rw e (has_id_of users id u (rw e at h))
]

module _ (context : UserContext) (claims : Option Claims) (user_id : ℕ) (current : Option String)
    (new_password : String) (db : UserDb) where
  -- A change of password fails and changes nothing, or the caller is the owner of the account and gave its
  -- current password, or is not the owner and has the permission `users:change_any_password`; the new
  -- password is acceptable, the account exists, and only its password hash is changed, to one of the new
  -- password.
  pub change_password_cases :
      ((e : AppError) × (change_password context claims user_id current new_password db
          ≡ (err e, db)))
      ⊎ ((c : Claims) × (u : User) × (new_hash : String) × (claims ≡ some c)
          × (get_user_by_id db.users user_id ≡ ok u)
          × Entitled context c user_id current u
          × (validate_password new_password ≡ ok tt)
          × (context.hash_password new_password ≡ ok new_hash)
          × (change_password context claims user_id current new_password db ≡ (
            ok tt,
            record db {
              users =
                  update_where
                    (λ v. v.id == user_id)
                    (λ v. record v { password_hash = new_hash })
                    db.users;
            },
          )))
  unfolding change_password update_password
  change_password_cases = elim (Option-cases claims) [
    | inl c ↦ inl (invalid_token, rw c refl)
    | inr (its, c) ↦
        elim (Bool-cases (not (is_sub context user_id its.sub) && not (is_admin context its))) [
          | inl a ↦ inl (forbidden, rw (c, a) refl)
          | inr a ↦ elim (Result-cases (validate_password new_password)) [
            | inr (e, v) ↦ inl (e, rw (c, a, v) refl)
            | inl (t, v) ↦ elim (Result-cases (get_user_by_id db.users user_id)) [
              | inr (e, g) ↦ inl (e, rw (c, a, v, g) refl)
              | inl (u, g) ↦
                  elim (Result-cases (
                    check_current context (is_sub context user_id its.sub) current
                      u.password_hash)) [
                        | inr (e, k) ↦ inl (e, rw (c, a, v, g, k) refl)
                        | inl (done, k) ↦ elim (Result-cases (context.hash_password new_password)) [
                          | inr (e, p) ↦ inl (e, rw (c, a, v, g, k, p) refl)
                          | inl (new_hash, p) ↦ inr (
                            its,
                            u,
                            new_hash,
                            c,
                            g,
                            right_of context its user_id current u a k,
                            v,
                            p,
                            rw (c, a, v, g, k, p, has_id_of db.users user_id u g) refl,
                          )
                        ]
                      ]
            ]
          ]
        ]
  ]

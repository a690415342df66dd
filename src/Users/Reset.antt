-- ===== src/Users/Reset.antt =====
-- A password reset: the token works once, and the new password logs in.
use ullav_user_management.Prelude.{
  ℕ, ◌≡◌, ◌≢◌, ◌∙◌, refl, sym, ap, String, inl, inr, Bool, true, false, ◌||◌, none, some, List, [],
  ◌∷◌, ◌==◌, same, ltb, find, update_where, arith, Bool-cases, Option-cases, to_eq,
}
use ullav_user_management.Errors.{ok, Result-cases}
use ullav_user_management.Accounts.{User, get_user_by_email}
use ullav_user_management.Checks.{validate_password}
use ullav_user_management.Users.{PasswordResetToken, UserDb, has_id}
use ullav_user_management.Users.Context.{UserContext}
use ullav_user_management.Users.Store.{
  has_token, get_reset_token, update_password, consume_reset_token, activate_user,
}
use ullav_user_management.Users.Auth.{login, LoginResponse, confirm_password_reset}

module _ (context : UserContext) (token new_password : String) (now : ℕ) where
  -- The tables after a reset that succeeded.
  abbrev reset_db : PasswordResetToken → String → UserDb → UserDb
  reset_db row new_hash db = record db {
    users =
        update_where (λ u. u.id == row.user_id)
          (λ u. record u {
            is_active = true;
            confirmation_token = none;
            confirmation_token_expires_at = none;
          })
          (update_where (λ u. u.id == row.user_id) (λ u. record u { password_hash = new_hash })
            db.users);
    reset_tokens = update_where (has_token token) (λ r. record r { used = true }) db.reset_tokens;
  }

  reset_done :
      (db : UserDb)
      → (confirm_password_reset context token new_password now db).0 ≡ ok tt
      → (row : PasswordResetToken) × (new_hash : String) × (find (has_token token) db.reset_tokens
          ≡ some row)
        × (row.used ≡ false)
        × (context.hash_password new_password ≡ ok new_hash)
        × (has_id db.users row.user_id ≡ true)
        × (confirm_password_reset context token new_password now db
            ≡ (ok tt, reset_db row new_hash db))
  unfolding confirm_password_reset get_reset_token update_password consume_reset_token activate_user
  reset_done db h = elim (Result-cases (validate_password new_password)) [
    | inr (e, v) ↦ absurd (ground (arith, (rw v at h)))
    | inl (t, v) ↦ elim (Option-cases (find (has_token token) db.reset_tokens)) [
      | inl f ↦ absurd (ground (arith, (rw (v, f) at h)))
      | inr (row, f) ↦ elim (Bool-cases (row.used || ltb row.expires_at now)) [
        | inl x ↦ absurd (ground (arith, (rw (v, f, x) at h)))
        | inr x ↦ elim (Result-cases (context.hash_password new_password)) [
          | inr (e, p) ↦ absurd (ground (arith, (rw (v, f, x, p) at h)))
          | inl (new_hash, p) ↦ elim (Bool-cases (has_id db.users row.user_id)) [
            | inr u ↦ absurd (ground (arith, (rw (v, f, x, p, u) at h)))
            | inl u ↦ (row, new_hash, f, ground (arith, x), p, u, rw (v, f, x, p, u) refl)
          ]
        ]
      ]
    ]
  ]

-- A test that an UPDATE does not change finds the row again, updated.
find-update_where :
    {A : Type 0} (p q : A → Bool) (f : A → A) (x : A) (xs : List A)
    → ((y : A) → p (f y) ≡ p y)
    → q x ≡ true
    → find p xs ≡ some x
    → find p (update_where q f xs) ≡ some (f x)
find-update_where p q f x [] same k h = absurd (ground (arith, h))
find-update_where p q f x (y ∷ ys) same k h =
    ground (arith, h, k, same y, find-update_where p q f x ys same k)

used_up :
    (token : String) (r : PasswordResetToken) (rows : List PasswordResetToken)
    → find (has_token token) (update_where (has_token token) (λ r. record r { used = true }) rows)
      ≡ some r
    → r.used ≡ true
used_up token r [] h = absurd (ground (arith, h))
used_up token r (x ∷ rows) h = elim (Bool-cases (has_token token x)) [
  | inl e ↦ ground (arith, (rw (e, e) at h))
  | inr e ↦ used_up token r rows (rw (e, e) at h)
]

-- Once a reset with a token succeeded, no later reset with the token does, whatever its password. (The reset
-- that succeeded had an unused token.)
pub confirm_password_reset_once :
    (context : UserContext) (token new_password other_password : String) (now later : ℕ)
    (db : UserDb)
    → (confirm_password_reset context token new_password now db).0 ≡ ok tt
    → (confirm_password_reset context token other_password later
        (confirm_password_reset context token new_password now db).1).0
      ≢ ok tt
confirm_password_reset_once context token new_password other_password now later db h again =
    let (row, new_hash, _, _, _, _, done) = reset_done context token new_password now db h in
    let (row2, _, found, unused, _, _, _) =
      reset_done context token other_password later
        (reset_db context token new_password now row new_hash db) (rw done at again) in
    ground (arith, used_up token row2 db.reset_tokens found, unused)

some_injective : {A : Type 0} {x y : A} → some x ≡ some y → x ≡ y
some_injective e = cc

of_email :
    (users : List User) (email : String) (u : User)
    → get_user_by_email users email ≡ ok u
    → find (λ v. same v.email email) users ≡ some u
unfolding get_user_by_email
of_email users email u h = elim (Option-cases (find (λ v. same v.email email) users)) [
  | inl e ↦ absurd (ground (arith, (rw e at h)))
  | inr (v, e) ↦ ground (arith, e, (rw e at h))
]

-- The row of a user whose password was reset.
abbrev reset_user : String → User → User
reset_user new_hash u = record u {
  password_hash = new_hash;
  is_active = true;
  confirmation_token = none;
  confirmation_token_expires_at = none;
}

found_after :
    (context : UserContext) (token new_password new_hash email : String) (now : ℕ)
    (row : PasswordResetToken) (u : User) (db : UserDb)
    → get_user_by_email db.users email ≡ ok u
    → row.user_id ≡ u.id
    → get_user_by_email (reset_db context token new_password now row new_hash db).users email
      ≡ ok (reset_user new_hash u)
unfolding get_user_by_email
found_after context token new_password new_hash email now row u db known own =
    let is_own = to_eq (sym own) in
    let first =
      find-update_where (λ v. same v.email email) (λ v. v.id == row.user_id)
        (λ v. record v { password_hash = new_hash }) u db.users (λ v. refl) is_own
        (of_email db.users email u known) in
    let second =
      find-update_where (λ v. same v.email email) (λ v. v.id == row.user_id)
        (λ v. record v {
          is_active = true;
          confirmation_token = none;
          confirmation_token_expires_at = none;
        })
        (record u { password_hash = new_hash })
        (update_where (λ v. v.id == row.user_id) (λ v. record v { password_hash = new_hash })
          db.users)
        (λ v. refl) is_own first in
    rw second refl

-- Where Argon2 verifies what it hashed, and an identity token can be made for every user: after a reset
-- that succeeded, the user of the token, also one who had not confirmed the e-mail address, logs in with
-- the new password under each address by which the user is found.
pub confirm_password_reset-login :
    (context : UserContext)
    → ((password hash : String)
        → context.hash_password password ≡ ok hash
        → context.verify_password password hash ≡ ok true)
    → ((db : UserDb) (u : User) → (t : String) × (context.mint_identity_token db u ≡ ok t))
    → (token new_password session_raw email : String) (now later : ℕ) (u : User)
      (row : PasswordResetToken) (db : UserDb)
    → get_user_by_email db.users email ≡ ok u
    → find (has_token token) db.reset_tokens ≡ some row
    → row.user_id ≡ u.id
    → (confirm_password_reset context token new_password now db).0 ≡ ok tt
    → (r : LoginResponse) × ((login context email new_password session_raw later
          (confirm_password_reset context token new_password now db).1).0
        ≡ ok r)
      × (r.user.id ≡ u.id)
unfolding login
confirm_password_reset-login context argon2 mints token new_password session_raw email now later u
      row db known given own h =
    let (row2, new_hash, found, _, hashed, _, done) =
      reset_done context token new_password now db h in
    let same_row = some_injective (sym found ∙ given) in
    let (t, minted) =
      mints (reset_db context token new_password now row2 new_hash db) (reset_user new_hash u) in
    (
      record { token = t; user = reset_user new_hash u },
      rw
          (
            done,
            found_after context token new_password new_hash email now row2 u db known
                (ap (λ r. r.user_id) same_row ∙ own),
            argon2 new_password new_hash hashed,
            minted,
          )
          refl,
      refl,
    )

-- ===== src/Exec/Keeps.antt =====
-- What holds of the store after an action, from what holds before it.
use ullav_user_management.Prelude.{
  ◌≡◌, refl, sym, subst, Option, none, some, Bool, true, false, arith,
}
use ullav_user_management.Errors.{AppError, Result, ok, err}
use ullav_user_management.Exec.{Exec, fail_if, or_fail, lift, transaction, ◌>>=◌, ◌>>◌}

module _ {S : Type 0} (P : S → Type 0) where
  pub after-fail_if : (b : Bool) (e : AppError) (s : S) → P s → P (fail_if b e s).1
  after-fail_if true e s h = h
  after-fail_if false e s h = h

  pub after-guard :
      {B : Type 0} (b : Bool) (e : AppError) (k : Exec S B) (s : S)
      → P s
      → (b ≡ false → P (k s).1)
      → P ((fail_if b e >>= λ _. k) s).1
  after-guard true e k s h next = h
  after-guard false e k s h next = next refl

  pub after-found :
      {A B : Type 0} (o : Option A) (e : AppError) (k : A → Exec S B) (s : S)
      → P s
      → ((a : A) → o ≡ some a → P (k a s).1)
      → P ((or_fail o e >>= k) s).1
  after-found none e k s h next = h
  after-found (some a) e k s h next = next a refl

  pub after-lift :
      {A B : Type 0} (r : Result A) (k : A → Exec S B) (s : S)
      → P s
      → ((a : A) → r ≡ ok a → P (k a s).1)
      → P ((lift r >>= k) s).1
  after-lift (ok a) k s h next = next a refl
  after-lift (err e) k s h next = h

  pub after-transaction :
      {A : Type 0} (m : Exec S A) (s : S) → P s → P (m s).1 → P (transaction m s).1
  after-transaction {A = A} m s h next = settled (m s).0 (m s).1 next
    where
      settled : (r : Result A) (t : S) → P t → P (transaction (λ _. (r, t)) s).1
      settled (ok a) t k = k
      settled (err e) t k = h

  -- After a query, which only reads.
  pub after-query :
      {A B : Type 0} (m : Exec S A) (k : A → Exec S B) (s : S)
      → (m s).1 ≡ s
      → P s
      → ((a : A) → (m s).0 ≡ ok a → P (k a s).1)
      → P ((m >>= k) s).1
  after-query {A = A} m k s same h next =
      subst (λ t. P ((lift_at t >>= k) s).1) (sym same) (known (m s).0 refl)
    where
      lift_at : S → Exec S A
      lift_at t _ = ((m s).0, t)

      known : (r : Result A) → (m s).0 ≡ r → P (((λ t. (r, t)) >>= k) s).1
      known (ok a) e = next a e
      known (err e') e = h

  pub after-then :
      {A B : Type 0} (m : Exec S A) (k : A → Exec S B) (s : S)
      → P (m s).1
      → ((a : A) (t : S) → P t → P (k a t).1)
      → P ((m >>= k) s).1
  after-then {A = A} m k s h next = known (m s).0 (m s).1 h
    where
      known : (r : Result A) (t : S) → P t → P (((λ _. (r, t)) >>= k) s).1
      known (ok a) t i = next a t i
      known (err e) t i = i

module _ {S : Type 0} where
  pub after_ok :
      {A B : Type 0} (m : Exec S A) (k : Exec S B) (s t : S) (a : A)
      → m s ≡ (ok a, t)
      → (m >> k) s ≡ k t
  after_ok m k s t a h = rw h refl

  pub after_err :
      {A B : Type 0} (m : Exec S A) (k : Exec S B) (s t : S) (e : AppError)
      → m s ≡ (err e, t)
      → (m >> k) s ≡ (err e, t)
  after_err m k s t e h = rw h refl

  -- A guard that let the action succeed was passed.
  pub guard-passed :
      {B : Type 0} (b : Bool) (e : AppError) (k : Exec S B) (s : S) (a : B)
      → ((fail_if b e >>= λ _. k) s).0 ≡ ok a
      → (fail_if b e >>= λ _. k) s ≡ k s
  guard-passed true e k s a h = absurd (ground (arith, h))
  guard-passed false e k s a h = refl

  pub guard-false :
      {B : Type 0} (b : Bool) (e : AppError) (k : Exec S B) (s : S) (a : B)
      → ((fail_if b e >>= λ _. k) s).0 ≡ ok a
      → (b ≡ false) × ((k s).0 ≡ ok a)
  guard-false true e k s a h = absurd (ground (arith, h))
  guard-false false e k s a h = (refl, h)

  pub query-passed :
      {A B : Type 0} (m : Exec S A) (k : A → Exec S B) (s : S) (b : B)
      → (m s).1 ≡ s
      → ((m >>= k) s).0 ≡ ok b
      → (a : A) × ((m >>= k) s ≡ k a s)
  query-passed {A = A} m k s b same h = known (m s).0 refl
    where
      known : (r : Result A) → (m s).0 ≡ r → (a : A) × ((m >>= k) s ≡ k a s)
      known (ok a) e = (a, rw (e, same) refl)
      known (err f) e = absurd (ground (arith, (rw e at h)))

  pub transaction-passed :
      {A : Type 0} (m : Exec S A) (s : S) (a : A)
      → (transaction m s).0 ≡ ok a
      → transaction m s ≡ m s
  transaction-passed {A = A} m s a h = settled (m s).0 (m s).1 h
    where
      settled :
          (r : Result A) (t : S)
          → (transaction (λ _. (r, t)) s).0 ≡ ok a
          → transaction (λ _. (r, t)) s ≡ (r, t)
      settled (ok b) t k = refl
      settled (err f) t k = absurd (ground (arith, k))

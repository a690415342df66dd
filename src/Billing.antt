-- ===== src/Billing.antt =====
-- Subscriptions: the tables of the migrations 005 and 006, and what PostgreSQL checks when a row of
-- `subscriptions` is written. The functions of db/mod.rs are in Billing/Store.antt, the webhooks of
-- the payment providers in Billing/Stripe.antt and Billing/Paypal.antt.
-- created_at and updated_at, which nothing tests, are left out.
pub mod Store
pub mod Provision
pub mod Providers
pub mod Stripe
pub mod Paypal
pub mod Handlers
pub mod Requests
pub mod Sound
pub mod Retry
pub mod Signature
pub mod Metadata
pub mod Cancellation
mod Tests
use ullav_user_management.Prelude.{
  ℕ, ◌+◌, Bool, true, false, not, ◌&&◌, ◌||◌, Option, none, some, List, [], ◌∷◌, ◌==◌, leb, any,
  all, find, update_where, if◌then◌else◌, Chars, codes, same_chars,
}
use ullav_user_management.Prelude.Int.{ℤ, pos, negsuc}
use ullav_user_management.Errors.{AppError, database}
use ullav_user_management.Exec.{Exec, fail_if, modify, gets, pure, ◌>>=◌, ◌>>◌}
use ullav_user_management.Accounts.{User}

-- A row of `products`.
pub record Product : Type 0 where
  pub id : ℕ
  pub slug : Chars

-- A row of `subscriptions`; `seat_count` is a SMALLINT.
pub record Subscription : Type 0 where
  pub id : ℕ
  pub user_id : ℕ
  pub product_id : ℕ
  pub plan : Chars
  pub status : Chars
  pub payment_provider : Option Chars
  pub provider_subscription_id : Option Chars
  pub provider_customer_id : Option Chars
  pub seat_count : ℤ
  pub trial_end : Option ℕ
  pub current_period_start : Option ℕ
  pub current_period_end : Option ℕ

pub record BillingDb : Type 0 where
  pub users : List User
  pub products : List Product
  pub subscriptions : List Subscription
  pub next_id : ℕ

abbrev pub one_of : List Chars → Chars → Bool
one_of names s = any (same_chars s) names

-- `status IN ('active','trialing','past_due')`
abbrev pub is_live : Subscription → Bool
is_live s = one_of (codes "active" ∷ codes "trialing" ∷ codes "past_due" ∷ []) s.status

abbrev pub at_least_one : ℤ → Bool
at_least_one (pos n) = leb 1 n
at_least_one (negsuc n) = false

abbrev pub is_provider : Option Chars → Bool
is_provider none = true
is_provider (some p) = one_of (codes "stripe" ∷ codes "paypal" ∷ codes "manual" ∷ []) p

-- The CHECK constraints of a row.
abbrev pub is_valid : Subscription → Bool
is_valid s =
    one_of
      (codes "active"
        ∷ codes "trialing"
        ∷ codes "past_due"
        ∷ codes "cancelled"
        ∷ codes "pending"
        ∷ [])
      s.status
    && is_provider s.payment_provider
    && at_least_one s.seat_count

abbrev pub same_key : Subscription → Subscription → Bool
same_key s t = s.user_id == t.user_id && s.product_id == t.product_id

-- Both rows are in the partial unique index, under one key.
abbrev pub clashes : Subscription → Subscription → Bool
clashes s t = is_live s && is_live t && same_key s t

-- The unique index `subscriptions_user_product_active`.
abbrev pub one_live : List Subscription → Bool
one_live [] = true
one_live (s ∷ rows) = not (any (clashes s) rows) && one_live rows

abbrev pub has_user : List User → ℕ → Bool
has_user users id = any (λ u. u.id == id) users

-- What an INSERT meets: the CHECKs, then the unique index, then the foreign key of the user.
pub data Outcome : Type 0 where
  inserted unique_violation : Outcome
  violation : AppError → Outcome

abbrev pub insert_outcome : Subscription → BillingDb → Outcome
insert_outcome s db =
    if not (is_valid s)
    then violation (database "check_violation")
    else if any (clashes s) db.subscriptions
    then unique_violation
    else if not (has_user db.users s.user_id)
    then violation (database "foreign_key_violation")
    else inserted

abbrev pub add_row : Subscription → BillingDb → BillingDb
add_row s db = record db { subscriptions = s ∷ db.subscriptions; next_id = db.next_id + 1 }

abbrev pub count_where : {A : Type 0} → (A → Bool) → List A → ℕ
count_where p [] = 0
count_where p (x ∷ xs) = (if p x then 1 else 0) + count_where p xs

-- UPDATE subscriptions: the number of rows that it met. Where a new row breaks a constraint, none is
-- changed.
unfoldable pub update_subscriptions :
    (Subscription → Bool) → (Subscription → Subscription) → Exec BillingDb ℕ
update_subscriptions p f = do
  rows ← gets λ db. db.subscriptions
  fail_if (not (all is_valid (update_where p f rows))) (database "check_violation")
  fail_if (not (one_live (update_where p f rows))) (database "unique_violation")
  modify λ db. record db { subscriptions = update_where p f rows }
  pure (count_where p rows)

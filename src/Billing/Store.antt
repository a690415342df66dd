-- ===== src/Billing/Store.antt =====
-- db/mod.rs: the functions on subscriptions. Those that join `users` and `products` to show a row
-- give the row itself.
use ullav_user_management.Prelude.{
  ℕ, Bool, ◌&&◌, Option, none, some, List, ◌==◌, any, find, select, not, Chars, codes, same_chars,
}
use ullav_user_management.Prelude.Int.{ℤ, pos}
use ullav_user_management.Errors.{AppError, ok, err, database, conflict, not_found}
use ullav_user_management.Exec.{Exec, gets, modify, pure, fail_if, or_fail, ◌>>=◌, ◌>>◌}
use ullav_user_management.Billing.{
  Product, Subscription, BillingDb, is_live, Outcome, inserted, unique_violation, violation,
  insert_outcome, add_row, update_subscriptions,
}

-- `WHERE p.slug = $n`; slugs are unique.
abbrev pub find_product : Chars → BillingDb → Option Product
find_product slug db = find (λ p. same_chars p.slug slug) db.products

abbrev pub has_slug : BillingDb → Chars → ℕ → Bool
has_slug db slug product_id = any (λ p. p.id == product_id && same_chars p.slug slug) db.products

unfoldable pub get_subscription : ℕ → Chars → BillingDb → Option Subscription
get_subscription user_id product_slug db =
    find (λ s. s.user_id == user_id && has_slug db product_slug s.product_id && is_live s)
      db.subscriptions

unfoldable pub get_all_user_subscriptions : ℕ → BillingDb → List Subscription
get_all_user_subscriptions user_id db =
    select (λ s. s.user_id == user_id && is_live s) db.subscriptions

-- The error of a unique violation is `Conflict`, any other is `Database`.
abbrev pub settle_insert : Subscription → Outcome → Exec BillingDb Subscription
settle_insert s inserted db = (ok s, add_row s db)
settle_insert s unique_violation db = (err conflict, db)
settle_insert s (violation e) db = (err e, db)

abbrev pub insert : Subscription → Exec BillingDb Subscription
insert s db = settle_insert s (insert_outcome s db) db

-- ON CONFLICT DO NOTHING
abbrev pub settle_ignore : Subscription → Outcome → Exec BillingDb (Unit {0})
settle_ignore s inserted db = (ok tt, add_row s db)
settle_ignore s unique_violation db = (ok tt, db)
settle_ignore s (violation e) db = (err e, db)

abbrev pub insert_ignore : Subscription → Exec BillingDb (Unit {0})
insert_ignore s db = settle_ignore s (insert_outcome s db) db

-- The details that a provider's event tells of a subscription.
pub record Details : Type 0 where
  pub user_id : ℕ
  pub product_slug : Chars
  pub plan : Chars
  pub payment_provider : Chars
  pub provider_subscription_id : Chars
  pub provider_customer_id : Chars
  pub seat_count : ℤ
  pub trial_end : Option ℕ
  pub current_period_start : Option ℕ
  pub current_period_end : Option ℕ

abbrev pub activated_row : Details → ℕ → ℕ → Subscription
activated_row d id product_id = record {
  id = id;
  user_id = d.user_id;
  product_id = product_id;
  plan = d.plan;
  status = codes "active";
  payment_provider = some d.payment_provider;
  provider_subscription_id = some d.provider_subscription_id;
  provider_customer_id = some d.provider_customer_id;
  seat_count = d.seat_count;
  trial_end = d.trial_end;
  current_period_start = d.current_period_start;
  current_period_end = d.current_period_end;
}

-- INSERT … SELECT gives no row where the product is unknown, which `query_one` refuses.
abbrev pub no_row : AppError
no_row = database "query returned an unexpected number of rows"

unfoldable pub activate_subscription : Details → Exec BillingDb Subscription
activate_subscription d = do
  id ← gets λ db. db.next_id
  found ← gets (find_product d.product_slug)
  product ← or_fail found no_row
  insert (activated_row d id product.id)

abbrev pub free_row : ℕ → ℕ → Chars → Chars → ℤ → ℕ → Subscription
free_row id user_id plan status seat_count product_id = record {
  id = id;
  user_id = user_id;
  product_id = product_id;
  plan = plan;
  status = status;
  payment_provider = none;
  provider_subscription_id = none;
  provider_customer_id = none;
  seat_count = seat_count;
  trial_end = none;
  current_period_start = none;
  current_period_end = none;
}

abbrev pub ensure_product : ℕ → Option Product → Exec BillingDb (Unit {0})
ensure_product user_id none db = (ok tt, db)
ensure_product user_id (some product) db =
    insert_ignore
      (free_row db.next_id user_id (codes "individual") (codes "active") (pos 1) product.id) db

unfoldable pub ensure_comad_individual : ℕ → Exec BillingDb (Unit {0})
ensure_comad_individual user_id db = ensure_product user_id (find_product (codes "comad") db) db

abbrev pub has_provider_id : Chars → Option Chars → Bool
has_provider_id id none = Bool.false
has_provider_id id (some provider_id) = same_chars provider_id id

-- `WHERE provider_subscription_id = $1`
abbrev pub is_provided : Chars → Subscription → Bool
is_provided id s = has_provider_id id s.provider_subscription_id

unfoldable pub cancel_subscription : Chars → Exec BillingDb (Unit {0})
cancel_subscription id = do
  updated ← update_subscriptions (is_provided id) λ s. record s { status = codes "cancelled" }
  pure tt

unfoldable pub set_subscription_status : Chars → Chars → Exec BillingDb (Unit {0})
set_subscription_status id status = do
  updated ← update_subscriptions (is_provided id) λ s. record s { status = status }
  pure tt

unfoldable pub update_subscription_period :
    Chars → Chars → Option ℕ → Option ℕ → Option ℕ → Exec BillingDb (Unit {0})
update_subscription_period id status trial_end current_period_start current_period_end = do
  updated ← update_subscriptions (is_provided id) λ s. record s {
    status = status;
    trial_end = trial_end;
    current_period_start = current_period_start;
    current_period_end = current_period_end;
  }
  pure tt

unfoldable pub upsert_subscription_by_provider_id :
    Chars → Chars → Chars → ℤ → Option ℕ → Option ℕ → Option ℕ → Exec BillingDb (Unit {0})
upsert_subscription_by_provider_id id plan status seat_count trial_end start end = do
  updated ← update_subscriptions (is_provided id) λ s. record s {
    plan = plan;
    status = status;
    seat_count = seat_count;
    trial_end = trial_end;
    current_period_start = start;
    current_period_end = end;
  }
  pure tt

unfoldable pub admin_get_subscription : ℕ → Exec BillingDb Subscription
admin_get_subscription id = do
  row ← gets λ db. find (λ s. s.id == id) db.subscriptions
  or_fail row not_found

abbrev pub coalesce : {A : Type 0} → Option A → A → A
coalesce none old = old
coalesce (some new) old = new

unfoldable pub admin_update_subscription :
    ℕ → Option Chars → Option Chars → Option ℤ → Exec BillingDb Subscription
admin_update_subscription id plan status seat_count = do
  updated ←
      update_subscriptions (λ s. s.id == id)
        λ s. record s {
          plan = coalesce plan s.plan;
          status = coalesce status s.status;
          seat_count = coalesce seat_count s.seat_count;
        }
  fail_if (updated == 0) not_found
  admin_get_subscription id

unfoldable pub admin_create_subscription :
    ℕ → Chars → Chars → Chars → ℤ → Exec BillingDb Subscription
admin_create_subscription user_id product_slug plan status seat_count = do
  id ← gets λ db. db.next_id
  found ← gets (find_product product_slug)
  product ← or_fail found no_row
  row ← insert (free_row id user_id plan status seat_count product.id)
  admin_get_subscription row.id

unfoldable pub admin_delete_subscription : ℕ → Exec BillingDb (Unit {0})
admin_delete_subscription id = do
  found ← gets λ db. any (λ s. s.id == id) db.subscriptions
  modify λ db. record db { subscriptions = select (λ s. not (s.id == id)) db.subscriptions }
  fail_if (not found) not_found

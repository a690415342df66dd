-- ===== src/Billing/Retry/Webhooks.antt =====
-- The webhooks of handlers/subscriptions.rs under repeated delivery, and all requests in sequence.
use ullav_user_management.Prelude.{
  ℕ, ◌≡◌, refl, sym, subst, find, ◌⊎◌, inl, inr, not, Option, none, some, List, [], ◌∷◌, ◌==◌,
  Option-cases, Chars, any,
}
use ullav_user_management.Prelude.Int.{ℤ}
use ullav_user_management.Errors.{Result, ok, err, not_found}
use ullav_user_management.Exec.{Exec, fail_if, ◌>>=◌}
use ullav_user_management.Exec.Keeps.{after-then, after-found, after-guard, after-fail_if}
use ullav_user_management.Billing.{Subscription, BillingDb, update_subscriptions}
use ullav_user_management.Billing.Store.{
  coalesce, free_row, insert, find_product, no_row, admin_get_subscription,
  admin_create_subscription, admin_update_subscription, admin_delete_subscription,
}
use ullav_user_management.Billing.Providers.{
  PaymentState, StripeConfig, PayPalConfig, Transmission, unwrap_or,
}
use ullav_user_management.Billing.Stripe
use ullav_user_management.Billing.Stripe.Events as StripeEvents
use ullav_user_management.Billing.Paypal
use ullav_user_management.Billing.Paypal.Events as PaypalEvents
use ullav_user_management.Billing.Handlers.{
  verified, stripe_event, paypal_event, stripe_webhook, paypal_webhook,
}
use ullav_user_management.Billing.Requests.{
  BillingRequest, stripe_delivery, paypal_delivery, create_user_subscription, update_subscription,
  delete_subscription, serve_billing, serve_all,
}
use ullav_user_management.Billing.Sound.{
  Sound, insert-Sound, update_subscriptions-Sound, select-Sound,
}
use ullav_user_management.Billing.Retry.{Retryable}
use ullav_user_management.Billing.Retry.Events.{stripe_event-Safe, paypal_event-Safe}

-- A webhook that answered 200 answers a second delivery with 200, which changes nothing; one that
-- answered anything else has changed nothing.
abbrev pub Delivered : (BillingDb → ℕ × BillingDb) → BillingDb → Type 0
Delivered webhook db =
    ((after : BillingDb) × (webhook db ≡ (200, after))
      × (webhook after ≡ (200, after))
      × Sound after)
    ⊎ (webhook db ≡ (400, db))
    ⊎ (webhook db ≡ (401, db))
    ⊎ (webhook db ≡ (500, db))

verified-Delivered :
    (signature : Result (Unit {0})) (handle : Exec BillingDb (Unit {0})) (db : BillingDb)
    → Retryable handle db
    → Delivered (verified signature handle) db
verified-Delivered (err e) handle db h = inr (inr (inl refl))
verified-Delivered (ok done) handle db (inl (e, failed)) = inr (inr (inr (rw failed refl)))
verified-Delivered (ok done) handle db (inr (after, first, second, h)) =
    inl (after, rw first refl, rw second refl, h)

module _ {Json : Type 0} (state : PaymentState Json) where
  stripe_event-Delivered :
      (config : Option StripeConfig) (signature : Option Chars) (body : Chars) (db : BillingDb)
      → Sound db
      → Delivered (stripe_event state config signature body) db
  stripe_event-Delivered none signature body db h = inl (db, refl, refl, h)
  stripe_event-Delivered (some config) signature body db h =
      verified-Delivered
        (Stripe.verify_signature state.outside.hmac_hex body (unwrap_or signature [])
          config.webhook_secret)
        (StripeEvents.handle_event state body) db (stripe_event-Safe state body db h)

  -- Tables that meet the constraints, and Stripe answering each request for a subscription as before:
  -- a delivery that is answered with 200 leaves tables that meet the constraints, and the same delivery
  -- again is answered with 200 and leaves them as they are. Any other answer is 400, 401 or 500, and
  -- changes nothing, so that the provider may send the event again.
  pub stripe_webhook-Delivered :
      (signature : Option Chars) (body : Chars) (db : BillingDb)
      → Sound db
      → Delivered (stripe_webhook state signature body) db
  unfolding stripe_webhook
  stripe_webhook-Delivered = stripe_event-Delivered state.stripe

  paypal_event-Delivered :
      (config : Option PayPalConfig) (transmission : Transmission) (event : Option Json)
      (db : BillingDb)
      → Sound db
      → Delivered (paypal_event state config transmission event) db
  paypal_event-Delivered none transmission event db h = inl (db, refl, refl, h)
  paypal_event-Delivered (some config) transmission none db h = inr (inl refl)
  paypal_event-Delivered (some config) transmission (some event) db h =
      verified-Delivered (Paypal.verify_signature state.outside config transmission event)
        (PaypalEvents.handle_event state event) db (paypal_event-Safe state event db h)

  -- The same of the webhook of PayPal, PayPal answering each request as before: on tables that meet the
  -- constraints a delivery that is answered with 200 may be repeated, is then answered with 200 and
  -- changes nothing more, and any other answer is 400, 401 or 500, and changes nothing.
  pub paypal_webhook-Delivered :
      (transmission : Transmission) (body : Chars) (db : BillingDb)
      → Sound db
      → Delivered (paypal_webhook state transmission body) db
  unfolding paypal_webhook
  paypal_webhook-Delivered transmission body =
      paypal_event-Delivered state.paypal transmission (state.outside.json.from_slice body)

Delivered-Sound :
    (webhook : BillingDb → ℕ × BillingDb) (db : BillingDb)
    → Sound db
    → Delivered webhook db
    → Sound (webhook db).1
Delivered-Sound webhook db h (inl (after, e, _, k)) = rw e k
Delivered-Sound webhook db h (inr (inl e)) = rw e h
Delivered-Sound webhook db h (inr (inr (inl e))) = rw e h
Delivered-Sound webhook db h (inr (inr (inr e))) = rw e h

admin_get_same : (id : ℕ) (db : BillingDb) → (admin_get_subscription id db).1 ≡ db
unfolding admin_get_subscription
admin_get_same id db = elim (Option-cases (find (λ s. s.id == id) db.subscriptions)) [
  | inl e ↦ rw e refl
  | inr (s, e) ↦ rw e refl
]

then_get-Sound :
    (m : Exec BillingDb Subscription) (db : BillingDb)
    → Sound (m db).1
    → Sound ((m >>= λ row. admin_get_subscription row.id) db).1
then_get-Sound m db h =
    after-then Sound m (λ row. admin_get_subscription row.id) db h
      λ row t k. subst Sound (sym (admin_get_same row.id t)) k

create-Sound :
    (user_id : ℕ) (slug plan status : Chars) (seats : ℤ) (db : BillingDb)
    → Sound db
    → Sound (admin_create_subscription user_id slug plan status seats db).1
unfolding admin_create_subscription
create-Sound user_id slug plan status seats db h =
    after-found Sound (find_product slug db) no_row _ db h λ product _.
      then_get-Sound (insert (free_row db.next_id user_id plan status seats product.id)) db
        (insert-Sound (free_row db.next_id user_id plan status seats product.id) db h)

update-Sound :
    (id : ℕ) (plan status : Option Chars) (seats : Option ℤ) (db : BillingDb)
    → Sound db
    → Sound (admin_update_subscription id plan status seats db).1
unfolding admin_update_subscription
update-Sound id plan status seats db h =
    after-then Sound
      (update_subscriptions (λ s. s.id == id)
        λ s. record s {
          plan = coalesce plan s.plan;
          status = coalesce status s.status;
          seat_count = coalesce seats s.seat_count;
        })
      (λ updated. fail_if (updated == 0) not_found >>= λ _. admin_get_subscription id) db
      (update_subscriptions-Sound (λ s. s.id == id) _ db (λ s. refl) h)
      λ updated t k.
        after-guard Sound (updated == 0) not_found (admin_get_subscription id) t k
          λ _. subst Sound (sym (admin_get_same id t)) k

delete-Sound : (id : ℕ) (db : BillingDb) → Sound db → Sound (admin_delete_subscription id db).1
unfolding admin_delete_subscription
delete-Sound id db h =
    after-fail_if Sound (not (any (λ s. s.id == id) db.subscriptions)) not_found _
      (select-Sound (λ s. not (s.id == id)) db h)

module _ {Json : Type 0} (state : PaymentState Json) where
  serve-Sound : (r : BillingRequest) (db : BillingDb) → Sound db → Sound (serve_billing state r db)
  unfolding serve_billing
  serve-Sound (stripe_delivery signature body) db h =
      Delivered-Sound (stripe_webhook state signature body) db h
        (stripe_webhook-Delivered state signature body db h)
  serve-Sound (paypal_delivery transmission body) db h =
      Delivered-Sound (paypal_webhook state transmission body) db h
        (paypal_webhook-Delivered state transmission body db h)
  serve-Sound (create_user_subscription user_id slug plan status seats) db h =
      create-Sound user_id slug plan status seats db h
  serve-Sound (update_subscription id plan status seats) db h =
      update-Sound id plan status seats db h
  serve-Sound (delete_subscription id) db h = delete-Sound id db h

  -- Whatever webhooks and administrators' requests are served, from tables that meet the constraints: a
  -- user has at most one live subscription of a product, each row has a known status and provider and at
  -- least one seat, and each row's user exists.
  pub serve_all-Sound :
      (rs : List BillingRequest) (db : BillingDb) → Sound db → Sound (serve_all state rs db)
  unfolding serve_all
  serve_all-Sound [] db h = h
  serve_all-Sound (r ∷ rs) db h = serve_all-Sound rs (serve_billing state r db) (serve-Sound r db h)

-- ===== src/Billing/Handlers.antt =====
-- handlers/subscriptions.rs: the caller's subscription, the checkouts, and the webhooks of the
-- providers, which answer with a bare status.
use ullav_user_management.Prelude.{
  ℕ, ◌+◌, ◌*◌, Bool, Option, none, some, [], ◌++◌, find, if◌then◌else◌, Chars, codes, same_chars,
}
use ullav_user_management.Prelude.Int.{ℤ, pos}
use ullav_user_management.Errors.{
  Result, ok, err, validation, payment_provider, not_found, or_fail, ◌>>=◌,
}
use ullav_user_management.Exec.{Exec}
use ullav_user_management.Accounts.{Claims, caller_id, get_user_by_id}
use ullav_user_management.Billing.{Subscription, BillingDb}
use ullav_user_management.Billing.Store.{get_subscription, get_all_user_subscriptions}
use ullav_user_management.Billing.Providers.{
  PaymentState, StripeConfig, PayPalConfig, Transmission, unwrap_or,
}
use ullav_user_management.Billing.Providers.Numerals.{at_least}
use ullav_user_management.Billing.Stripe
use ullav_user_management.Billing.Stripe.Events as StripeEvents
use ullav_user_management.Billing.Paypal
use ullav_user_management.Billing.Paypal.Events as PaypalEvents

-- The nil UUID is 0.
pub record SubscriptionResponse : Type 0 where
  pub id : ℕ
  pub product : Chars
  pub plan : Chars
  pub status : Chars
  pub seat_count : ℤ
  pub trial_end : Option ℕ
  pub current_period_start : Option ℕ
  pub current_period_end : Option ℕ

-- `SubscriptionResponse::from`, or the default where the user has no subscription.
unfoldable pub current_response : ℕ → Chars → Option Subscription → SubscriptionResponse
current_response now product (some s) = record {
  id = s.id;
  product = product;
  plan = s.plan;
  status = s.status;
  seat_count = s.seat_count;
  trial_end = s.trial_end;
  current_period_start = s.current_period_start;
  current_period_end = s.current_period_end;
}
current_response now product none = record {
  id = 0;
  product = product;
  plan = codes "individual";
  status = codes "active";
  seat_count = pos 1;
  trial_end = none;
  current_period_start = none;
  current_period_end = some (now + 36500 * 86400);
}

unfoldable pub get_current_subscription :
    Option Claims → ℕ → Chars → BillingDb → Result SubscriptionResponse
get_current_subscription claims now product db = caller_id claims >>= λ user_id.
    ok (current_response now product (get_subscription user_id product db))

pub record CheckoutRequest : Type 0 where
  pub product : Chars
  pub plan : Chars
  pub provider : Chars
  pub seat_count : Option ℤ

abbrev pub is_stripe : Subscription → Bool
is_stripe s = Paypal.is_text (codes "stripe") s.payment_provider

module _ {Json : Type 0} (state : PaymentState Json) where
  unfoldable pub create_checkout_session :
      Option Claims → CheckoutRequest → BillingDb → Result Chars
  create_checkout_session claims body db = caller_id claims >>= λ user_id.
      get_user_by_id db.users user_id >>= λ user.
      let seat_count = pos (at_least 1 (unwrap_or body.seat_count (pos 1))) in
      let success_url = state.clann_app_url ++ codes "/subscription/success" in
      let cancel_url = state.clann_app_url ++ codes "/pricing" in
      if same_chars body.provider (codes "stripe")
      then (or_fail state.stripe (payment_provider "Stripe is not configured") >>= λ config.
          Stripe.create_checkout_session state.outside config user_id (codes user.email) body.plan
            seat_count success_url cancel_url)
      else if same_chars body.provider (codes "paypal")
      then (or_fail state.paypal (payment_provider "PayPal is not configured") >>= λ config.
          Paypal.create_subscription state.outside config user_id (codes user.email) body.plan
            seat_count success_url cancel_url)
      else err (validation "Unknown payment provider. Use 'stripe' or 'paypal'.")

  unfoldable pub create_portal_session : Option Claims → BillingDb → Result Chars
  create_portal_session claims db = caller_id claims >>= λ user_id.
      or_fail state.stripe (payment_provider "Stripe is not configured") >>= λ config.
      or_fail (find is_stripe (get_all_user_subscriptions user_id db)) not_found >>= λ stripe_sub.
      or_fail stripe_sub.provider_customer_id (payment_provider "No Stripe customer ID on record")
      >>= λ customer_id.
          Stripe.create_portal_session state.outside config customer_id
            (state.clann_app_url ++ codes "/account")

-- 200, or 500 so that the provider sends the event again.
abbrev pub event_status : Result (Unit {0}) → ℕ
event_status (ok done) = 200
event_status (err e) = 500

-- The event is handled where its signature was accepted.
abbrev pub verified : Result (Unit {0}) → Exec BillingDb (Unit {0}) → BillingDb → ℕ × BillingDb
verified (err e) handle db = (401, db)
verified (ok done) handle db = (event_status (handle db).0, (handle db).1)

module _ {Json : Type 0} (state : PaymentState Json) where
  abbrev pub stripe_event : Option StripeConfig → Option Chars → Chars → BillingDb → ℕ × BillingDb
  stripe_event none signature body db = (200, db)
  stripe_event (some config) signature body db =
      verified
        (Stripe.verify_signature state.outside.hmac_hex body (unwrap_or signature [])
          config.webhook_secret)
        (StripeEvents.handle_event state body) db

  unfoldable pub stripe_webhook : Option Chars → Chars → BillingDb → ℕ × BillingDb
  stripe_webhook signature body db = stripe_event state.stripe signature body db

  abbrev pub paypal_event :
      Option PayPalConfig → Transmission → Option Json → BillingDb → ℕ × BillingDb
  paypal_event none transmission event db = (200, db)
  paypal_event (some config) transmission none db = (400, db)
  paypal_event (some config) transmission (some event) db =
      verified (Paypal.verify_signature state.outside config transmission event)
        (PaypalEvents.handle_event state event) db

  unfoldable pub paypal_webhook : Transmission → Chars → BillingDb → ℕ × BillingDb
  paypal_webhook transmission body db =
      paypal_event state.paypal transmission (state.outside.json.from_slice body) db

-- ===== src/Billing/Retry/Events.antt =====
-- Every event of a provider may be delivered again: payments/stripe.rs, payments/paypal.rs and the
-- webhooks of handlers/subscriptions.rs.
use ullav_user_management.Prelude.{
  ℕ, refl, inl, inr, Bool, true, false, Option, none, some, Option-cases, Chars, codes, same_chars,
  if◌then◌else◌,
}
use ullav_user_management.Errors.{Result, ok, err, validation}
use ullav_user_management.Exec.{Exec, pure, lift, ◌>>=◌}
use ullav_user_management.Billing.{BillingDb}
use ullav_user_management.Billing.Store.{
  is_provided, cancel_subscription, set_subscription_status, update_subscription_period,
}
use ullav_user_management.Billing.Provision.{provision}
use ullav_user_management.Billing.Providers.{PaymentState, StripeConfig, is_empty}
use ullav_user_management.Billing.Stripe.{text_or_empty, fetch_subscription}
use ullav_user_management.Billing.Stripe.Events as StripeEvents
use ullav_user_management.Billing.Stripe.Events.{checkout_of, checkout_details, unless_empty}
use ullav_user_management.Billing.Paypal.Events as PaypalEvents
use ullav_user_management.Billing.Sound.{Sound}
use ullav_user_management.Billing.Retry.{Retryable, pure-Retryable, update-Retryable}
use ullav_user_management.Billing.Retry.Provision.{provision-Retryable}

-- What may be repeated on all tables that meet the constraints.
abbrev Safe : Exec BillingDb (Unit {0}) → Type 0
Safe m = (db : BillingDb) → Sound db → Retryable m db

cancel-Safe : (id : Chars) → Safe (cancel_subscription id)
unfolding cancel_subscription
cancel-Safe id db h =
    update-Retryable (is_provided id) (λ s. record s { status = codes "cancelled" }) db (λ s. refl)
      (λ s. refl) (λ s. refl) h

status-Safe : (id status : Chars) → Safe (set_subscription_status id status)
unfolding set_subscription_status
status-Safe id status db h =
    update-Retryable (is_provided id) (λ s. record s { status = status }) db (λ s. refl) (λ s. refl)
      (λ s. refl) h

period-Safe :
    (id status : Chars) (trial_end start end : Option ℕ)
    → Safe (update_subscription_period id status trial_end start end)
unfolding update_subscription_period
period-Safe id status trial_end start end db h =
    update-Retryable (is_provided id)
      (λ s. record s {
        status = status;
        trial_end = trial_end;
        current_period_start = start;
        current_period_end = end;
      })
      db (λ s. refl) (λ s. refl) (λ s. refl) h

pure-Safe : Safe (pure tt)
pure-Safe db h = pure-Retryable db h

if-Safe : (b : Bool) (m n : Exec BillingDb (Unit {0})) → Safe m → Safe n → Safe (if b then m else n)
if-Safe true m n h k = h
if-Safe false m n h k = k

lift-Safe :
    {A : Type 0} (r : Result A) (k : A → Exec BillingDb (Unit {0}))
    → ((a : A) → Safe (k a))
    → Safe (lift r >>= k)
lift-Safe (err e) k h db s = inl (e, refl)
lift-Safe (ok a) k h db s = h a db s

module _ {Json : Type 0} (state : PaymentState Json) where
  checkout-Safe :
      (obj : Json) (user : Option ℕ) (config : Option StripeConfig)
      → Safe (checkout_of state obj user config)
  checkout-Safe obj none config = pure-Safe
  checkout-Safe obj (some user_id) none = pure-Safe
  checkout-Safe obj (some user_id) (some config) =
      lift-Safe
        (fetch_subscription state.outside config
          (text_or_empty state.outside obj (codes "subscription")))
        (λ sub. provision (checkout_details state obj user_id sub))
        λ sub. provision-Retryable (checkout_details state obj user_id sub)

  unless-Safe :
      (id : Chars) (m : Exec BillingDb (Unit {0})) → Safe m → Safe (unless_empty state id m)
  unless-Safe id m = if-Safe (is_empty id) (pure tt) m pure-Safe

  dispatch_stripe-Safe :
      (event_type : Chars) (obj : Json) → Safe (StripeEvents.dispatch state event_type obj)
  unfolding StripeEvents.dispatch StripeEvents.on_checkout_completed
      StripeEvents.on_subscription_updated StripeEvents.on_subscription_deleted
      StripeEvents.on_invoice_payment_failed StripeEvents.on_invoice_payment_succeeded
  dispatch_stripe-Safe event_type obj =
      if-Safe (same_chars event_type (codes "checkout.session.completed")) _ _
        (if-Safe _ _ _ pure-Safe (checkout-Safe obj _ state.stripe))
        (if-Safe (same_chars event_type (codes "customer.subscription.updated")) _ _
          (unless-Safe _ _ (period-Safe _ _ _ _ _))
          (if-Safe (same_chars event_type (codes "customer.subscription.deleted")) _ _
            (unless-Safe _ _ (cancel-Safe _))
            (if-Safe (same_chars event_type (codes "invoice.payment_failed")) _ _
              (unless-Safe _ _ (status-Safe _ (codes "past_due")))
              (if-Safe (same_chars event_type (codes "invoice.payment_succeeded")) _ _
                (unless-Safe _ _ (period-Safe _ (codes "active") none _ _)) pure-Safe))))

  pub stripe_event-Safe : (body : Chars) → Safe (StripeEvents.handle_event state body)
  unfolding StripeEvents.handle_event
  stripe_event-Safe body db h = elim (Option-cases (state.outside.json.from_slice body)) [
    | inl e ↦ inl (validation "invalid JSON", rw e refl)
    | inr (event, e) ↦ rw e (dispatch_stripe-Safe _ _ db h)
  ]

  activate-Safe :
      (resource : Json) (product plan seats : Chars) (user : Option ℕ)
      → Safe (PaypalEvents.activate_for state resource product plan seats user)
  activate-Safe resource product plan seats none = pure-Safe
  activate-Safe resource product plan seats (some user_id) = provision-Retryable _

  parts-Safe :
      (resource : Json) (parts : Option (Chars × Chars × Chars × Chars))
      → Safe (PaypalEvents.activate_parts state resource parts)
  parts-Safe resource none = pure-Safe
  parts-Safe resource (some (user, product, plan, seats)) =
      activate-Safe resource product plan seats (state.outside.parse_uuid user)

  dispatch_paypal-Safe :
      (event_type : Chars) (resource : Json)
      → Safe (PaypalEvents.dispatch state event_type resource)
  unfolding PaypalEvents.dispatch PaypalEvents.on_subscription_activated
      PaypalEvents.on_subscription_cancelled PaypalEvents.on_subscription_suspended
      PaypalEvents.on_payment_failed PaypalEvents.on_payment_completed
  dispatch_paypal-Safe event_type resource =
      if-Safe (same_chars event_type (codes "BILLING.SUBSCRIPTION.ACTIVATED")) _ _
        (if-Safe _ _ _ pure-Safe (parts-Safe resource _))
        (if-Safe (same_chars event_type (codes "BILLING.SUBSCRIPTION.CANCELLED")) _ _
          (unless-Safe _ _ (cancel-Safe _))
          (if-Safe (same_chars event_type (codes "BILLING.SUBSCRIPTION.SUSPENDED")) _ _
            (unless-Safe _ _ (status-Safe _ (codes "past_due")))
            (if-Safe (same_chars event_type (codes "BILLING.SUBSCRIPTION.PAYMENT.FAILED")) _ _
              (unless-Safe _ _ (status-Safe _ (codes "past_due")))
              (if-Safe (same_chars event_type (codes "PAYMENT.SALE.COMPLETED")) _ _
                (unless-Safe _ _ (period-Safe _ (codes "active") none none _)) pure-Safe))))

  pub paypal_event-Safe : (event : Json) → Safe (PaypalEvents.handle_event state event)
  unfolding PaypalEvents.handle_event
  paypal_event-Safe event = dispatch_paypal-Safe _ _

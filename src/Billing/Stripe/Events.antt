-- ===== src/Billing/Stripe/Events.antt =====
-- payments/stripe.rs: what each event of Stripe does to the subscriptions. `body` is the verified
-- body of the webhook.
use ullav_user_management.Prelude.{
  ℕ, ◌||◌, Option, none, some, if◌then◌else◌, Chars, codes, same_chars,
}
use ullav_user_management.Prelude.Int.{ℤ, pos}
use ullav_user_management.Errors.{validation}
use ullav_user_management.Exec.{Exec, pure, lift, or_fail, ◌>>=◌}
use ullav_user_management.Billing.{BillingDb}
use ullav_user_management.Billing.Store.{
  Details, cancel_subscription, set_subscription_status, update_subscription_period,
}
use ullav_user_management.Billing.Provision.{provision}
use ullav_user_management.Billing.Providers.{
  PaymentState, StripeConfig, unwrap_or, and_then, is_empty,
}
use ullav_user_management.Billing.Providers.Numerals.{parse_i16}
use ullav_user_management.Billing.Stripe.{
  text_at, text_or_empty, time_at, fetch_subscription, stripe_status_to_internal,
}

module _ {Json : Type 0} (state : PaymentState Json) where
  abbrev pub metadata_seats : Json → ℤ
  metadata_seats metadata =
      unwrap_or (and_then (text_at state.outside metadata (codes "seat_count")) parse_i16) (pos 1)

  -- The row of a completed checkout, from the event and the subscription that Stripe gave.
  abbrev pub checkout_details : Json → ℕ → Json → Details
  checkout_details obj user_id stripe_sub =
      let metadata = state.outside.json.field obj (codes "metadata") in
      record {
        user_id = user_id;
        product_slug = unwrap_or (text_at state.outside metadata (codes "product")) (codes "clann");
        plan = unwrap_or (text_at state.outside metadata (codes "plan")) (codes "individual");
        payment_provider = codes "stripe";
        provider_subscription_id = text_or_empty state.outside obj (codes "subscription");
        provider_customer_id = text_or_empty state.outside obj (codes "customer");
        seat_count = metadata_seats metadata;
        trial_end = time_at state.outside stripe_sub (codes "trial_end");
        current_period_start = time_at state.outside stripe_sub (codes "current_period_start");
        current_period_end = time_at state.outside stripe_sub (codes "current_period_end");
      }

  abbrev pub checkout_of : Json → Option ℕ → Option StripeConfig → Exec BillingDb (Unit {0})
  checkout_of obj none config = pure tt
  checkout_of obj (some user_id) none = pure tt
  checkout_of obj (some user_id) (some config) = do
    stripe_sub ← lift (
        fetch_subscription state.outside config
          (text_or_empty state.outside obj (codes "subscription")))
    provision (checkout_details obj user_id stripe_sub)

  unfoldable pub on_checkout_completed : Json → Exec BillingDb (Unit {0})
  on_checkout_completed obj =
      let user_id_str =
        text_or_empty state.outside (state.outside.json.field obj (codes "metadata"))
          (codes "user_id") in
      if is_empty (text_or_empty state.outside obj (codes "subscription"))
        || is_empty (text_or_empty state.outside obj (codes "customer"))
        || is_empty user_id_str
      then pure tt
      else checkout_of obj (state.outside.parse_uuid user_id_str) state.stripe

  -- A handler does nothing where the event does not name a subscription.
  abbrev pub unless_empty : Chars → Exec BillingDb (Unit {0}) → Exec BillingDb (Unit {0})
  unless_empty subscription_id action = if is_empty subscription_id then pure tt else action

  unfoldable pub on_subscription_updated : Json → Exec BillingDb (Unit {0})
  on_subscription_updated obj =
      let subscription_id = text_or_empty state.outside obj (codes "id") in
      unless_empty subscription_id (
        update_subscription_period subscription_id
          (stripe_status_to_internal
            (unwrap_or (text_at state.outside obj (codes "status")) (codes "active")))
          (time_at state.outside obj (codes "trial_end"))
          (time_at state.outside obj (codes "current_period_start"))
          (time_at state.outside obj (codes "current_period_end")))

  unfoldable pub on_subscription_deleted : Json → Exec BillingDb (Unit {0})
  on_subscription_deleted obj =
      let subscription_id = text_or_empty state.outside obj (codes "id") in
      unless_empty subscription_id (cancel_subscription subscription_id)

  unfoldable pub on_invoice_payment_failed : Json → Exec BillingDb (Unit {0})
  on_invoice_payment_failed obj =
      let subscription_id = text_or_empty state.outside obj (codes "subscription") in
      unless_empty subscription_id (set_subscription_status subscription_id (codes "past_due"))

  -- `obj["lines"]["data"][0]["period"]`
  abbrev pub first_period : Json → Json
  first_period obj =
      let json = state.outside.json in
      json.field (json.item (json.field (json.field obj (codes "lines")) (codes "data")) 0)
        (codes "period")

  unfoldable pub on_invoice_payment_succeeded : Json → Exec BillingDb (Unit {0})
  on_invoice_payment_succeeded obj =
      let subscription_id = text_or_empty state.outside obj (codes "subscription") in
      unless_empty subscription_id (
        update_subscription_period subscription_id (codes "active") none
          (time_at state.outside (first_period obj) (codes "start"))
          (time_at state.outside (first_period obj) (codes "end")))

  -- `match event_type`
  unfoldable pub dispatch : Chars → Json → Exec BillingDb (Unit {0})
  dispatch event_type obj =
      if same_chars event_type (codes "checkout.session.completed")
      then on_checkout_completed obj
      else if same_chars event_type (codes "customer.subscription.updated")
      then on_subscription_updated obj
      else if same_chars event_type (codes "customer.subscription.deleted")
      then on_subscription_deleted obj
      else if same_chars event_type (codes "invoice.payment_failed")
      then on_invoice_payment_failed obj
      else if same_chars event_type (codes "invoice.payment_succeeded")
      then on_invoice_payment_succeeded obj
      else pure tt

  unfoldable pub handle_event : Chars → Exec BillingDb (Unit {0})
  handle_event body = do
    event ← or_fail (state.outside.json.from_slice body) (validation "invalid JSON")
    dispatch (text_or_empty state.outside event (codes "type"))
        (state.outside.json.field (state.outside.json.field event (codes "data")) (codes "object"))

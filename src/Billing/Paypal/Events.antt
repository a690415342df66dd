-- ===== src/Billing/Paypal/Events.antt =====
-- payments/paypal.rs: what each event of PayPal does to the subscriptions.
use ullav_user_management.Prelude.{
  ℕ, zero, suc, ◌||◌, Option, none, some, List, [], ◌∷◌, ◌==◌, if◌then◌else◌, Chars, codes,
  same_chars,
}
use ullav_user_management.Prelude.Int.{pos}
use ullav_user_management.Exec.{Exec, pure}
use ullav_user_management.Billing.{BillingDb}
use ullav_user_management.Billing.Store.{
  Details, cancel_subscription, set_subscription_status, update_subscription_period,
}
use ullav_user_management.Billing.Provision.{provision}
use ullav_user_management.Billing.Providers.{
  PaymentState, unwrap_or, and_then, is_empty, first_part,
}
use ullav_user_management.Billing.Providers.Numerals.{parse_i16}
use ullav_user_management.Billing.Stripe.{text_at, text_or_empty}
use ullav_user_management.Billing.Stripe.Events.{unless_empty}

-- `splitn(n + 1, separator)`: the last part is what is left.
abbrev pub splitn : ℕ → ℕ → Chars → List Chars
splitn n separator [] = [] ∷ []
splitn zero separator (c ∷ s) = (c ∷ s) ∷ []
splitn (suc n) separator (c ∷ s) =
    let parts = splitn n separator s in
    let more = splitn (suc n) separator s in
    if c == separator then [] ∷ parts else first_part c more

-- `splitn(4, ':')`, where there are four parts.
abbrev pub four : List Chars → Option (Chars × Chars × Chars × Chars)
four (a ∷ b ∷ c ∷ d ∷ _) = some (a, b, c, d)
four _ = none

unfoldable pub custom_id_parts : Chars → Option (Chars × Chars × Chars × Chars)
custom_id_parts custom_id = four (splitn 3 b':' custom_id)

-- `x.as_str().or_else(|| y.as_str())`
abbrev pub or_else : {A : Type 0} → Option A → Option A → Option A
or_else none other = other
or_else (some x) other = some x

module _ {Json : Type 0} (state : PaymentState Json) where
  unfoldable pub parse_paypal_time : Option Chars → Option ℕ
  parse_paypal_time s = and_then s state.outside.parse_from_rfc3339

  abbrev pub activation_details : Json → ℕ → Chars → Chars → Chars → Details
  activation_details resource user_id product plan seats =
      let field = state.outside.json.field in
      record {
        user_id = user_id;
        product_slug = product;
        plan = plan;
        payment_provider = codes "paypal";
        provider_subscription_id = text_or_empty state.outside resource (codes "id");
        provider_customer_id =
            text_or_empty state.outside (field resource (codes "subscriber"))
              (codes "email_address");
        seat_count = unwrap_or (parse_i16 seats) (pos 1);
        trial_end = none;
        current_period_start =
            parse_paypal_time (text_at state.outside resource (codes "start_time"));
        current_period_end = parse_paypal_time (
            text_at state.outside (field resource (codes "billing_info"))
              (codes "next_billing_time"));
      }

  abbrev pub activate_for : Json → Chars → Chars → Chars → Option ℕ → Exec BillingDb (Unit {0})
  activate_for resource product plan seats none = pure tt
  activate_for resource product plan seats (some user_id) =
      provision (activation_details resource user_id product plan seats)

  abbrev pub activate_parts :
      Json → Option (Chars × Chars × Chars × Chars) → Exec BillingDb (Unit {0})
  activate_parts resource none = pure tt
  activate_parts resource (some (user, product, plan, seats)) =
      activate_for resource product plan seats (state.outside.parse_uuid user)

  unfoldable pub on_subscription_activated : Json → Exec BillingDb (Unit {0})
  on_subscription_activated resource =
      let custom_id = text_or_empty state.outside resource (codes "custom_id") in
      if is_empty (text_or_empty state.outside resource (codes "id")) || is_empty custom_id
      then pure tt
      else activate_parts resource (custom_id_parts custom_id)

  unfoldable pub on_subscription_cancelled : Json → Exec BillingDb (Unit {0})
  on_subscription_cancelled resource =
      let subscription_id = text_or_empty state.outside resource (codes "id") in
      unless_empty state subscription_id (cancel_subscription subscription_id)

  unfoldable pub on_subscription_suspended : Json → Exec BillingDb (Unit {0})
  on_subscription_suspended resource =
      let subscription_id = text_or_empty state.outside resource (codes "id") in
      unless_empty state subscription_id
        (set_subscription_status subscription_id (codes "past_due"))

  unfoldable pub on_payment_failed : Json → Exec BillingDb (Unit {0})
  on_payment_failed resource =
      let subscription_id =
        unwrap_or
          (or_else (text_at state.outside resource (codes "id"))
            (text_at state.outside resource (codes "billing_agreement_id")))
          [] in
      unless_empty state subscription_id
        (set_subscription_status subscription_id (codes "past_due"))

  unfoldable pub on_payment_completed : Json → Exec BillingDb (Unit {0})
  on_payment_completed resource =
      let field = state.outside.json.field in
      let subscription_id = text_or_empty state.outside resource (codes "billing_agreement_id") in
      let payee = field (field resource (codes "transaction_fee")) (codes "payee") in
      unless_empty state subscription_id (
        update_subscription_period subscription_id (codes "active") none none
          (parse_paypal_time (text_at state.outside payee (codes "merchant_id"))))

  unfoldable pub dispatch : Chars → Json → Exec BillingDb (Unit {0})
  dispatch event_type resource =
      if same_chars event_type (codes "BILLING.SUBSCRIPTION.ACTIVATED")
      then on_subscription_activated resource
      else if same_chars event_type (codes "BILLING.SUBSCRIPTION.CANCELLED")
      then on_subscription_cancelled resource
      else if same_chars event_type (codes "BILLING.SUBSCRIPTION.SUSPENDED")
      then on_subscription_suspended resource
      else if same_chars event_type (codes "BILLING.SUBSCRIPTION.PAYMENT.FAILED")
      then on_payment_failed resource
      else if same_chars event_type (codes "PAYMENT.SALE.COMPLETED")
      then on_payment_completed resource
      else pure tt

  unfoldable pub handle_event : Json → Exec BillingDb (Unit {0})
  handle_event event =
      dispatch (text_or_empty state.outside event (codes "event_type"))
        (state.outside.json.field event (codes "resource"))

-- ===== src/Billing/Stripe.antt =====
-- payments/stripe.rs: the checkout, the customer portal, the signature of a webhook, and its events.
-- Messages that quote a value are shortened to their fixed text.
pub mod Events
use ullav_user_management.Prelude.{
  ℕ, ◌-◌, String, Bool, true, false, not, ◌||◌, Option, none, some, List, [], ◌∷◌, ◌++◌, ltb, any,
  if◌then◌else◌, Chars, codes, same_chars,
}
use ullav_user_management.Prelude.Int.{ℤ, pos}
use ullav_user_management.Errors.{
  AppError, Result, ok, err, validation, invalid_token, payment_provider, conflict, or_fail,
  fail_if, ◌>>=◌, ◌>>◌,
}
use ullav_user_management.Slug.Decimal.{decimal}
use ullav_user_management.Billing.Providers.{
  JsonReader, StripeConfig, Outside, PaymentState, answered, unwrap_or, and_then, is_empty,
  strip_prefix, split,
}
use ullav_user_management.Billing.Providers.Numerals.{at_least}

abbrev pub stripe_api : Chars
stripe_api = codes "https://api.stripe.com/v1"

abbrev pub overage_items : StripeConfig → ℕ → List (Chars × Chars)
overage_items config extra_seats =
    if ltb 0 extra_seats
    then (codes "line_items[1][price]", config.price_id_clann_family_seat)
      ∷ (codes "line_items[1][quantity]", decimal extra_seats)
      ∷ []
    else []

-- The `match plan` of the checkout: the line items and the trial.
unfoldable pub plan_items : StripeConfig → Chars → ℕ → Result (List (Chars × Chars))
plan_items config plan extra_seats =
    if same_chars plan (codes "family")
    then ok (
        (codes "line_items[0][price]", config.price_id_clann_family_base)
          ∷ (codes "line_items[0][quantity]", codes "1")
          ∷ overage_items config extra_seats
        ++ (codes "subscription_data[trial_period_days]", codes "7") ∷ [])
    else if same_chars plan (codes "professional")
    then ok (
        (codes "line_items[0][price]", config.price_id_clann_professional)
        ∷ (codes "line_items[0][quantity]", codes "1")
        ∷ (codes "subscription_data[trial_period_days]", codes "7")
        ∷ [])
    else err (validation "Plan does not support Stripe checkout")

module _ {Json : Type 0} (outside : Outside Json) where
  -- `v["key"].as_str()`
  abbrev pub text_at : Json → Chars → Option Chars
  text_at v key = outside.json.as_str (outside.json.field v key)

  -- `v["key"].as_str().unwrap_or_default()`
  abbrev pub text_or_empty : Json → Chars → Chars
  text_or_empty v key = unwrap_or (text_at v key) []

  -- The form of a checkout: its metadata comes back in the webhook.
  unfoldable pub checkout_form :
      StripeConfig → ℕ → Chars → Chars → ℤ → Chars → Chars → Result (List (Chars × Chars))
  checkout_form config user_id user_email plan seat_count success_url cancel_url =
      let seats = at_least 2 seat_count in
      let extra_seats = if same_chars plan (codes "family") then seats - 2 else 0 in
      plan_items config plan extra_seats >>= λ items. ok (
        (codes "mode", codes "subscription")
        ∷ (codes "customer_email", user_email)
        ∷ (codes "success_url", success_url ++ codes "?session_id={CHECKOUT_SESSION_ID}")
        ∷ (codes "cancel_url", cancel_url)
        ∷ (codes "metadata[user_id]", outside.uuid_to_string user_id)
        ∷ (codes "metadata[product]", codes "clann")
        ∷ (codes "metadata[plan]", plan)
        ∷ (codes "metadata[seat_count]", decimal seats)
        ∷ items)

  -- The end of both requests: an error of Stripe, or the address in the answer.
  abbrev pub url_of : String → Json → Result Chars
  url_of missing resp = elim (outside.json.get resp (codes "error")) [
    | some e ↦ err (payment_provider "Stripe error")
    | none ↦ or_fail (text_at resp (codes "url")) (payment_provider missing)
  ]

  unfoldable pub create_checkout_session :
      StripeConfig → ℕ → Chars → Chars → ℤ → Chars → Chars → Result Chars
  create_checkout_session config user_id user_email plan seat_count success_url cancel_url =
      checkout_form config user_id user_email plan seat_count success_url cancel_url >>= λ params.
      answered
        (outside.stripe_post (stripe_api ++ codes "/checkout/sessions") config.secret_key params)
      >>= λ resp. url_of "Stripe response missing checkout URL" resp

  unfoldable pub create_portal_session : StripeConfig → Chars → Chars → Result Chars
  create_portal_session config customer_id return_url =
      answered (
        outside.stripe_post (stripe_api ++ codes "/billing_portal/sessions") config.secret_key
          ((codes "customer", customer_id) ∷ (codes "return_url", return_url) ∷ []))
      >>= λ resp. url_of "Stripe portal response missing URL" resp

  unfoldable pub fetch_subscription : StripeConfig → Chars → Result Json
  fetch_subscription config subscription_id = answered (
      outside.stripe_get (stripe_api ++ codes "/subscriptions/" ++ subscription_id)
        config.secret_key)

  unfoldable pub epoch_to_datetime : Option ℤ → Option ℕ
  epoch_to_datetime ts = and_then ts outside.timestamp_opt

  -- `epoch_to_datetime(v["key"].as_i64())`
  abbrev pub time_at : Json → Chars → Option ℕ
  time_at v key = epoch_to_datetime (outside.json.as_i64 (outside.json.field v key))

-- One round of the loop over the parts of the header: the timestamp and the signatures so far.
abbrev pub read_part : Option Chars × List Chars → Chars → Option Chars × List Chars
read_part (timestamp, signatures) part = elim (strip_prefix (codes "t=") part) [
  | some t ↦ (some t, signatures)
  | none ↦ elim (strip_prefix (codes "v1=") part) [
    | some sig ↦ (timestamp, signatures ++ sig ∷ [])
    | none ↦ (timestamp, signatures)
  ]
]

abbrev pub read_parts : Option Chars × List Chars → List Chars → Option Chars × List Chars
read_parts found [] = found
read_parts found (part ∷ parts) = read_parts (read_part found part) parts

abbrev pub no_signatures : List Chars → Bool
no_signatures [] = true
no_signatures (s ∷ ss) = false

-- What follows the loop.
abbrev pub accept :
    (Chars → Chars → Option Chars) → Chars → Chars → Option Chars × List Chars → Result (Unit {0})
accept hmac_hex payload secret found =
    or_fail found.0 (validation "Missing timestamp in Stripe-Signature header") >>= λ timestamp.
    fail_if (no_signatures found.1) (validation "No v1 signatures in Stripe-Signature header")
    >> (or_fail (hmac_hex secret (timestamp ++ b'.' ∷ payload)) (validation "Invalid Length")
        >>= λ expected. fail_if (not (any (λ s. same_chars s expected) found.1)) invalid_token)

unfoldable pub verify_signature :
    (Chars → Chars → Option Chars) → Chars → Chars → Chars → Result (Unit {0})
verify_signature hmac_hex payload signature_header secret =
    accept hmac_hex payload secret (read_parts (none, []) (split b',' signature_header))

unfoldable pub stripe_status_to_internal : Chars → Chars
stripe_status_to_internal s =
    if same_chars s (codes "active")
    then codes "active"
    else if same_chars s (codes "trialing")
    then codes "trialing"
    else if same_chars s (codes "past_due") || same_chars s (codes "unpaid")
    then codes "past_due"
    else if same_chars s (codes "canceled")
        || same_chars s (codes "cancelled")
        || same_chars s (codes "incomplete_expired")
    then codes "cancelled"
    else codes "pending"

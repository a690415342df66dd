-- ===== src/Billing/Paypal.antt =====
-- payments/paypal.rs: the access token, a new subscription, and the signature of a webhook. The
-- events are in Billing/Paypal/Events.antt. Messages that quote a value are shortened to their fixed
-- text.
pub mod Events
use ullav_user_management.Prelude.{
  ℕ, Bool, true, false, Option, none, some, List, [], ◌∷◌, ◌++◌, find, if◌then◌else◌, Chars, codes,
  same_chars,
}
use ullav_user_management.Prelude.Int.{ℤ}
use ullav_user_management.Errors.{
  Result, ok, err, validation, invalid_token, payment_provider, or_fail, fail_if, ◌>>=◌,
}
use ullav_user_management.Billing.Providers.{
  JsonReader, PayPalConfig, PayPalOrder, Transmission, Outside, answered, and_then,
}
use ullav_user_management.Billing.Providers.Numerals.{i16_to_string}
use ullav_user_management.Billing.Stripe.{text_at}

-- `v.as_str() == Some(text)`
abbrev pub is_text : Chars → Option Chars → Bool
is_text text none = false
is_text text (some s) = same_chars s text

unfoldable pub plan_id_of : PayPalConfig → Chars → Result Chars
plan_id_of config plan =
    if same_chars plan (codes "family")
    then ok config.plan_id_clann_family
    else if same_chars plan (codes "professional")
    then ok config.plan_id_clann_professional
    else err (validation "Plan does not support PayPal checkout")

module _ {Json : Type 0} (outside : Outside Json) where
  unfoldable pub get_access_token : PayPalConfig → Result Chars
  get_access_token config =
      answered (
        outside.paypal_token (config.api_base ++ codes "/v1/oauth2/token") config.client_id
          config.client_secret)
      >>= λ resp.
          or_fail (text_at outside resp (codes "access_token"))
            (payment_provider "PayPal token response missing access_token")

  -- `format!("{user_id}:clann:{plan}:{seat_count}")`
  unfoldable pub custom_id_of : ℕ → Chars → ℤ → Chars
  custom_id_of user_id plan seat_count =
      outside.uuid_to_string user_id
      ++ b':' ∷ (codes "clann" ++ b':' ∷ (plan ++ b':' ∷ i16_to_string seat_count))

  abbrev pub is_approve : Json → Bool
  is_approve link = is_text (codes "approve") (text_at outside link (codes "rel"))

  -- An error has a name; otherwise the link to approve.
  abbrev pub approve_link : Json → Result Chars
  approve_link resp = elim (text_at outside resp (codes "name")) [
    | some name ↦ err (payment_provider "PayPal error")
    | none ↦
        or_fail
          (and_then
            (and_then (outside.json.as_array (outside.json.field resp (codes "links")))
              (find is_approve))
            (λ link. text_at outside link (codes "href")))
          (payment_provider "PayPal response missing approve link")
  ]

  unfoldable pub create_subscription :
      PayPalConfig → ℕ → Chars → Chars → ℤ → Chars → Chars → Result Chars
  create_subscription config user_id user_email plan seat_count return_url cancel_url =
      plan_id_of config plan >>= λ plan_id. get_access_token config >>= λ token.
      answered (
        outside.paypal_order (config.api_base ++ codes "/v1/billing/subscriptions") token (record {
          plan_id = plan_id;
          quantity = i16_to_string seat_count;
          custom_id = custom_id_of user_id plan seat_count;
          email_address = user_email;
          return_url = return_url;
          cancel_url = cancel_url;
        }))
      >>= λ resp. approve_link resp

  unfoldable pub verify_signature : PayPalConfig → Transmission → Json → Result (Unit {0})
  verify_signature config transmission raw_body = get_access_token config >>= λ token.
      answered (
        outside.paypal_verify
          (config.api_base ++ codes "/v1/notifications/verify-webhook-signature") token transmission
          config.webhook_id raw_body)
      >>= λ resp.
          if is_text (codes "SUCCESS") (text_at outside resp (codes "verification_status"))
          then ok tt
          else err invalid_token

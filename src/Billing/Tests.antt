-- ===== src/Billing/Tests.antt =====
-- Runs of the webhooks, and the theorems at concrete tables and events.
use ullav_user_management.Prelude.{
  ℕ, ◌≡◌, ◌↔◌, refl, inr, true, false, Option, none, some, List, [], ◌∷◌, ◌++◌, Chars, arith, codes,
  same_chars, if◌then◌else◌, Mem,
}
use ullav_user_management.Prelude.Int.{pos}
use ullav_user_management.Errors.{ok}
use ullav_user_management.Accounts.{User}
use ullav_user_management.Billing.{Subscription, BillingDb}
use ullav_user_management.Billing.Store.{
  Details, get_all_user_subscriptions, is_provided, activate_subscription, ensure_comad_individual,
}
use ullav_user_management.Billing.Providers.Numerals.{parse_i16, i16_to_string}
use ullav_user_management.Slug.Decimal.{decimal, digits}
use ullav_user_management.Billing.Stripe
use ullav_user_management.Billing.Stripe.Events as StripeEvents
use ullav_user_management.Billing.Provision.{provision}
use ullav_user_management.Billing.Providers.{
  StripeConfig, PayPalConfig, JsonReader, Outside, PaymentState, Transmission, split,
}
use ullav_user_management.Billing.Stripe.{
  checkout_form, plan_items, text_or_empty, verify_signature, fetch_subscription,
}
use ullav_user_management.Billing.Stripe.Events.{on_checkout_completed, on_subscription_deleted}
use ullav_user_management.Billing.Paypal.{custom_id_of}
use ullav_user_management.Billing.Paypal.Events.{on_subscription_activated}
use ullav_user_management.Billing.Handlers.{stripe_webhook, paypal_webhook}
use ullav_user_management.Billing.Requests.{
  BillingRequest, stripe_delivery, create_user_subscription, update_subscription,
  delete_subscription, serve_all,
}
use ullav_user_management.Billing.Sound.{Sound}
use ullav_user_management.Billing.Signature.{verify_signature_signed, verify_signature_iff}
use ullav_user_management.Billing.Metadata.{on_subscription_activated-custom_id_of}
use ullav_user_management.Billing.Metadata.Checkout.{lookup, on_checkout_completed-checkout_form}
use ullav_user_management.Billing.Cancellation.{on_subscription_deleted-ends}
use ullav_user_management.Billing.Retry.Webhooks.{
  Delivered, stripe_webhook-Delivered, paypal_webhook-Delivered, serve_all-Sound,
}

abbrev config : StripeConfig
config = record {
  secret_key = codes "sk_test_1";
  webhook_secret = codes "whsec";
  price_id_clann_family_base = codes "price_1";
  price_id_clann_family_seat = codes "price_2";
  price_id_clann_professional = codes "price_3";
}

abbrev paypal_config : PayPalConfig
paypal_config = record {
  api_base = codes "https://api-m.sandbox.paypal.com";
  client_id = codes "client";
  client_secret = codes "secret";
  webhook_id = codes "WH-1";
  plan_id_clann_family = codes "P-1";
  plan_id_clann_professional = codes "P-2";
}

abbrev form : List (Chars × Chars)
form =
    (codes "mode", codes "subscription")
    ∷ (codes "customer_email", codes "ada@example.org")
    ∷ (codes "success_url", codes "https://clann.app/ok?session_id={CHECKOUT_SESSION_ID}")
    ∷ (codes "cancel_url", codes "https://clann.app/pricing")
    ∷ (codes "metadata[user_id]", codes "u-7")
    ∷ (codes "metadata[product]", codes "clann")
    ∷ (codes "metadata[plan]", codes "professional")
    ∷ (codes "metadata[seat_count]", codes "3")
    ∷ (codes "line_items[0][price]", codes "price_3")
    ∷ (codes "line_items[0][quantity]", codes "1")
    ∷ (codes "subscription_data[trial_period_days]", codes "7")
    ∷ []

-- Events of which only the type differs: a body is its event's type.
data Doc : Type 0 where
  text : Option Chars → Doc
  event : Chars → Doc
  resource metadata : Doc

abbrev resource_field : Chars → Doc
resource_field key =
    if same_chars key (codes "metadata")
    then metadata
    else if same_chars key (codes "object")
    then resource
    else if same_chars key (codes "custom_id")
    then text (some (codes "u-7:clann:family:4"))
    else text (some (codes "sub_1"))

abbrev doc_field : Doc → Chars → Doc
doc_field (text t) key = text none
doc_field metadata key = text (lookup (codes "metadata[" ++ (key ++ codes "]")) form)
doc_field resource key = resource_field key
doc_field (event kind) key =
    if same_chars key (codes "type")
    then text (some kind)
    else if same_chars key (codes "event_type")
    then text (some kind)
    else resource

abbrev doc_text : Doc → Option Chars
doc_text (text t) = t
doc_text _ = none

abbrev reader : JsonReader Doc
reader = record {
  from_slice = λ body. some (event body);
  field = doc_field;
  item = λ v n. v;
  get = λ v key. none;
  as_str = doc_text;
  as_i64 = λ v. none;
  as_array = λ v. none;
}

abbrev outside : Outside Doc
outside = record {
  json = reader;
  parse_uuid = λ s. if same_chars s (codes "u-7") then some 7 else none;
  uuid_to_string = λ u. codes "u-7";
  timestamp_opt = λ t. none;
  parse_from_rfc3339 = λ s. none;
  hmac_hex = λ secret message. some (secret ++ message);
  stripe_get = λ url key. inr resource;
  stripe_post = λ url key params. inr resource;
  paypal_token = λ url id secret. inr resource;
  paypal_order = λ url token order. inr resource;
  paypal_verify = λ url token transmission id body. inr resource;
}

abbrev state : PaymentState Doc
state = record {
  outside = outside;
  stripe = some config;
  paypal = some paypal_config;
  clann_app_url = codes "https://clann.app";
}

abbrev ada : User
ada = record {
  id = 7;
  email = "ada@example.org";
  username = "ada";
  password_hash = "h";
  is_active = true;
  first_name = none;
  last_name = none;
  avatar_url = none;
  confirmation_token = none;
  confirmation_token_expires_at = none;
}

abbrev db : BillingDb
db = record {
  users = ada ∷ [];
  products = record { id = 1; slug = codes "clann" } ∷ record { id = 2; slug = codes "comad" } ∷ [];
  subscriptions = [];
  next_id = 10;
}

sound : Sound db
unfolding Sound
sound = (refl, refl, refl)

abbrev signed : Chars → Option Chars
signed body = some (codes "t=1,v1=whsec1." ++ body)

abbrev completed : Chars
completed = codes "checkout.session.completed"

abbrev transmission : Transmission
transmission = record {
  transmission_id = codes "1";
  transmission_time = codes "2";
  cert_url = codes "3";
  auth_algo = codes "4";
  transmission_sig = codes "5";
}

-- A completed checkout brings two subscriptions, Clann's and Comad's.
abbrev live_plans : List Subscription → List Chars
live_plans [] = []
live_plans (s ∷ rows) = s.plan ∷ live_plans rows

stripe_webhook_test :
    ((stripe_webhook state (signed completed) completed db).0 ≡ 200)
    × (live_plans
          (get_all_user_subscriptions 7 (stripe_webhook state (signed completed) completed db).1)
        ≡ codes "individual" ∷ codes "professional" ∷ [])
    × (stripe_webhook state none completed db ≡ (401, db))
unfolding stripe_webhook verify_signature get_all_user_subscriptions lookup
    StripeEvents.handle_event StripeEvents.dispatch StripeEvents.on_checkout_completed
    Stripe.fetch_subscription provision activate_subscription ensure_comad_individual parse_i16
    Stripe.epoch_to_datetime
stripe_webhook_test = (refl, refl, refl)

stripe_webhook-Delivered_example : Delivered (stripe_webhook state (signed completed) completed) db
stripe_webhook-Delivered_example =
    stripe_webhook-Delivered state (signed completed) completed db sound

paypal_webhook-Delivered_example :
    Delivered (paypal_webhook state transmission (codes "BILLING.SUBSCRIPTION.ACTIVATED")) db
paypal_webhook-Delivered_example =
    paypal_webhook-Delivered state transmission (codes "BILLING.SUBSCRIPTION.ACTIVATED") db sound

abbrev billing_requests : List BillingRequest
billing_requests =
    stripe_delivery (signed completed) completed
    ∷ create_user_subscription 7 (codes "clann") (codes "family") (codes "active") (pos 4)
    ∷ update_subscription 10 none (some (codes "past_due")) (some (pos 2))
    ∷ delete_subscription 11
    ∷ []

serve_all-Sound_test : Sound (serve_all state billing_requests db)
serve_all-Sound_test = serve_all-Sound state billing_requests db sound

abbrev hmac : Chars → Chars → Option Chars
hmac secret message = some (secret ++ message)

accepted : verify_signature hmac (codes "{}") (codes "t=1,v1=k1.{}") (codes "k") ≡ ok (tt {0})
unfolding verify_signature
accepted = refl

verify_signature_signed_example :
    (t : Chars) × (sig : Chars) × Mem (codes "t=" ++ t) (split b',' (codes "t=1,v1=k1.{}"))
    × Mem (codes "v1=" ++ sig) (split b',' (codes "t=1,v1=k1.{}"))
    × (hmac (codes "k") (t ++ b'.' ∷ codes "{}") ≡ some sig)
verify_signature_signed_example =
    verify_signature_signed hmac (codes "{}") (codes "t=1,v1=k1.{}") (codes "k") accepted

verify_signature_iff_example :
    (verify_signature hmac
        (codes "{}")
        (codes "t=" ++ (codes "1" ++ b',' ∷ (codes "v1=" ++ codes "k1.{}")))
        (codes "k")
      ≡ ok tt)
    ↔ (hmac (codes "k") (codes "1" ++ b'.' ∷ codes "{}") ≡ some (codes "k1.{}"))
verify_signature_iff_example =
    verify_signature_iff hmac (codes "{}") (codes "k") (codes "1") (codes "k1.{}") refl refl

ordered : codes "u-7:clann:family:4" ≡ custom_id_of outside 7 (codes "family") (pos 4)
unfolding custom_id_of i16_to_string decimal digits
ordered = refl

on_subscription_activated-custom_id_of_example :
    (d : Details) × (on_subscription_activated state resource ≡ provision d)
    × (d.user_id ≡ 7)
    × (d.product_slug ≡ codes "clann")
    × (d.plan ≡ codes "family")
    × (d.seat_count ≡ pos 4)
    × (d.payment_provider ≡ codes "paypal")
    × (d.provider_subscription_id ≡ text_or_empty outside resource (codes "id"))
on_subscription_activated-custom_id_of_example =
    on_subscription_activated-custom_id_of state 7 (codes "family") (pos 4) refl refl refl
      (omega arith) resource refl ordered

made :
    checkout_form outside config 7
      (codes "ada@example.org")
      (codes "professional")
      (pos 3)
      (codes "https://clann.app/ok")
      (codes "https://clann.app/pricing")
    ≡ ok form
unfolding checkout_form plan_items decimal digits
made = refl

on_checkout_completed-checkout_form_example :
    (d : Details) × (on_checkout_completed state resource ≡ provision d)
    × (d.user_id ≡ 7)
    × (d.product_slug ≡ codes "clann")
    × (d.plan ≡ codes "professional")
    × (d.seat_count ≡ pos 3)
unfolding fetch_subscription
on_checkout_completed-checkout_form_example =
    on_checkout_completed-checkout_form state config 7 (codes "ada@example.org")
      (codes "professional") (pos 3) (codes "https://clann.app/ok")
      (codes "https://clann.app/pricing") form resource resource (omega arith) refl refl made
      (λ key. refl) refl refl refl refl

abbrev plan_of : ℕ → ℕ → Chars → Chars → Subscription
plan_of id product_id provider_id status = record {
  id = id;
  user_id = 7;
  product_id = product_id;
  plan = codes "professional";
  status = status;
  payment_provider = some (codes "stripe");
  provider_subscription_id = some provider_id;
  provider_customer_id = none;
  seat_count = pos 3;
  trial_end = none;
  current_period_start = none;
  current_period_end = none;
}

-- The subscription of the event is live, beside one of another name.
abbrev subscribed : BillingDb
subscribed = record db {
  subscriptions =
      plan_of 10 1 (codes "sub_1") (codes "past_due")
      ∷ plan_of 11 2 (codes "sub_2") (codes "active")
      ∷ [];
  next_id = 12;
}

subscribed-Sound : Sound subscribed
unfolding Sound
subscribed-Sound = (refl, refl, refl)

on_subscription_deleted-ends_example :
    ((on_subscription_deleted state resource subscribed).0 ≡ ok tt)
    × ((user_id : ℕ) (s : Subscription)
        → Mem s (
            get_all_user_subscriptions user_id
              (on_subscription_deleted state resource subscribed).1)
        → is_provided (text_or_empty outside resource (codes "id")) s ≡ false)
on_subscription_deleted-ends_example =
    on_subscription_deleted-ends state resource subscribed refl subscribed-Sound

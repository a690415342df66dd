-- ===== src/Billing/Providers.antt =====
-- What the payment code takes from outside: JSON values (serde_json), UUIDs, times (chrono), HMAC,
-- the HTTP client; the configuration of `AppState`. Rust's `split`, `strip_prefix`, `to_string` and
-- `parse::<i16>` are written out. A text is the list of its code points, a body that of its bytes.
pub mod Numerals
use ullav_user_management.Prelude.{
  ℕ, String, Bool, true, false, Option, none, some, List, [], ◌∷◌, ◌==◌, ◌⊎◌, inl, inr,
  if◌then◌else◌, Chars,
}
use ullav_user_management.Prelude.Int.{ℤ}
use ullav_user_management.Errors.{Result, ok, err, payment_provider}

-- `serde_json::Value`: reading a body, `v["key"]`, `v[n]`, `v.get("key")`, `as_str`, `as_i64`, the
-- elements of `as_array`.
pub record JsonReader (Json : Type 0) : Type 0 where
  pub from_slice : Chars → Option Json
  pub field : Json → Chars → Json
  pub item : Json → ℕ → Json
  pub get : Json → Chars → Option Json
  pub as_str : Json → Option Chars
  pub as_i64 : Json → Option ℤ
  pub as_array : Json → Option (List Json)

pub record StripeConfig : Type 0 where
  pub secret_key : Chars
  pub webhook_secret : Chars
  pub price_id_clann_family_base : Chars
  pub price_id_clann_family_seat : Chars
  pub price_id_clann_professional : Chars

pub record PayPalConfig : Type 0 where
  pub api_base : Chars
  pub client_id : Chars
  pub client_secret : Chars
  pub webhook_id : Chars
  pub plan_id_clann_family : Chars
  pub plan_id_clann_professional : Chars

-- A request with its JSON answer: an error text where sending or reading failed.
abbrev pub Answer : Type 0 → Type 0
Answer Json = String ⊎ Json

-- `.map_err(|e| AppError::PaymentProvider(e.to_string()))?`
abbrev pub answered : {Json : Type 0} → Answer Json → Result Json
answered (inl e) = err (payment_provider e)
answered (inr v) = ok v

-- The fields of the body of a PayPal subscription request, and of a signature to verify.
pub record PayPalOrder : Type 0 where
  pub plan_id : Chars
  pub quantity : Chars
  pub custom_id : Chars
  pub email_address : Chars
  pub return_url : Chars
  pub cancel_url : Chars

pub record Transmission : Type 0 where
  pub transmission_id : Chars
  pub transmission_time : Chars
  pub cert_url : Chars
  pub auth_algo : Chars
  pub transmission_sig : Chars

pub record Outside (Json : Type 0) : Type 0 where
  pub json : JsonReader Json
  pub parse_uuid : Chars → Option ℕ
  pub uuid_to_string : ℕ → Chars
  pub timestamp_opt : ℤ → Option ℕ
  pub parse_from_rfc3339 : Chars → Option ℕ
  -- HMAC-SHA256 in hexadecimal: the secret, the message.
  pub hmac_hex : Chars → Chars → Option Chars
  -- Stripe: the address, the key, the form.
  pub stripe_get : Chars → Chars → Answer Json
  pub stripe_post : Chars → Chars → List (Chars × Chars) → Answer Json
  -- PayPal: the address, the identity or the token, the body.
  pub paypal_token : Chars → Chars → Chars → Answer Json
  pub paypal_order : Chars → Chars → PayPalOrder → Answer Json
  pub paypal_verify : Chars → Chars → Transmission → Chars → Json → Answer Json

-- The part of `AppState` that the payment code reads.
pub record PaymentState (Json : Type 0) : Type 0 where
  pub outside : Outside Json
  pub stripe : Option StripeConfig
  pub paypal : Option PayPalConfig
  pub clann_app_url : Chars

abbrev pub unwrap_or : {A : Type 0} → Option A → A → A
unwrap_or none default = default
unwrap_or (some x) default = x

abbrev pub and_then : {A B : Type 0} → Option A → (A → Option B) → Option B
and_then none f = none
and_then (some x) f = f x

abbrev pub is_empty : Chars → Bool
is_empty [] = true
is_empty (c ∷ s) = false

-- `strip_prefix`
abbrev pub strip_prefix : Chars → Chars → Option Chars
strip_prefix [] s = some s
strip_prefix (p ∷ ps) [] = none
strip_prefix (p ∷ ps) (c ∷ s) = let rest = strip_prefix ps s in if p == c then rest else none

abbrev pub first_part : ℕ → List Chars → List Chars
first_part c [] = (c ∷ []) ∷ []
first_part c (part ∷ parts) = (c ∷ part) ∷ parts

-- `split(separator)`: one part more than there are separators.
abbrev pub split : ℕ → Chars → List Chars
split separator [] = [] ∷ []
split separator (c ∷ s) =
    let parts = split separator s in if c == separator then [] ∷ parts else first_part c parts

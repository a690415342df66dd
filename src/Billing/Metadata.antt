-- ===== src/Billing/Metadata.antt =====
-- What a checkout tells PayPal comes back with PayPal's event in its `custom_id`. The metadata of
-- Stripe are in Billing/Metadata/Checkout.antt.
pub mod Checkout
use ullav_user_management.Prelude.{
  ℕ, ◌+◌, ◌-◌, ◌≤◌, ◌≡◌, ◌∙◌, ap, refl, sym, ◌⊎◌, inl, inr, Bool, true, false, not, Option, none,
  some, List, [], ◌∷◌, ◌++◌, ◌==◌, all, arith, Bool-cases, Option-cases, Chars, codes, same_chars,
  same_chars_iff, if◌then◌else◌, to_eq, zero, suc,
}
use ullav_user_management.Prelude.Int.{ℤ, pos}
use ullav_user_management.Errors.{Result, ok, err}
use ullav_user_management.Exec.{Exec}
use ullav_user_management.Slug.Decimal.{decimal}
use ullav_user_management.Billing.Store.{Details}
use ullav_user_management.Billing.Provision.{provision}
use ullav_user_management.Billing.Providers.{
  StripeConfig, Outside, PaymentState, first_part, is_empty, unwrap_or,
}
use ullav_user_management.Billing.Providers.Numerals.{i16_to_string, parse_i16}
use ullav_user_management.Billing.Providers.Numerals.Laws.{IsI16, parse_i16-i16_to_string}
use ullav_user_management.Billing.Paypal.{custom_id_of}
use ullav_user_management.Billing.Paypal.Events.{
  splitn, four, custom_id_parts, on_subscription_activated, activation_details,
}
use ullav_user_management.Billing.Stripe.{text_at, text_or_empty, checkout_form, plan_items}

splitn_first :
    (n separator : ℕ) (w s : Chars)
    → all (λ c. not (c == separator)) w ≡ true
    → splitn (suc n) separator (w ++ separator ∷ s) ≡ w ∷ splitn n separator s
splitn_first n separator [] s h = rw (to_eq {a = separator} refl) refl
splitn_first n separator (c ∷ w) s h = ground (arith, h, splitn_first n separator w s)

splitn_rest : (separator : ℕ) (s : Chars) → splitn zero separator s ≡ s ∷ []
splitn_rest separator [] = refl
splitn_rest separator (c ∷ s) = refl

four_parts :
    (a b c d : Chars)
    → all (λ x. not (x == b':')) a ≡ true
    → all (λ x. not (x == b':')) b ≡ true
    → all (λ x. not (x == b':')) c ≡ true
    → custom_id_parts (a ++ b':' ∷ (b ++ b':' ∷ (c ++ b':' ∷ d))) ≡ some (a, b, c, d)
unfolding custom_id_parts
four_parts a b c d h i j = ap four (
    splitn_first 2 b':' a (b ++ b':' ∷ (c ++ b':' ∷ d)) h
    ∙ ap (λ r. a ∷ r)
        (splitn_first 1 b':' b (c ++ b':' ∷ d) i
          ∙ ap (λ r. b ∷ r) (splitn_first 0 b':' c d j ∙ ap (λ r. c ∷ r) (splitn_rest b':' d))))

is_empty_cons : (a : Chars) (c : ℕ) (s : Chars) → is_empty (a ++ c ∷ s) ≡ false
is_empty_cons [] c s = refl
is_empty_cons (x ∷ a) c s = refl

activated_parts :
    {Json : Type 0} (state : PaymentState Json) (resource : Json)
    (custom_id user product plan seats : Chars) (user_id : ℕ)
    → is_empty (text_or_empty state.outside resource (codes "id")) ≡ false
    → text_or_empty state.outside resource (codes "custom_id") ≡ custom_id
    → is_empty custom_id ≡ false
    → custom_id_parts custom_id ≡ some (user, product, plan, seats)
    → state.outside.parse_uuid user ≡ some user_id
    → on_subscription_activated state resource
      ≡ provision (activation_details state resource user_id product plan seats)
unfolding on_subscription_activated
activated_parts state resource custom_id user product plan seats user_id named echoed filled parts
      uuid =
    rw (named, echoed, filled, parts, uuid) refl

module _ {Json : Type 0} (state : PaymentState Json) (user_id : ℕ) (plan : Chars) (seats : ℤ)
    (uuid : state.outside.parse_uuid (state.outside.uuid_to_string user_id) ≡ some user_id)
    (no_colon : all (λ c. not (c == b':')) (state.outside.uuid_to_string user_id) ≡ true)
    (plain : all (λ c. not (c == b':')) plan ≡ true) (small : IsI16 seats) where
  -- An event of PayPal that names a subscription and has the `custom_id` of an order, where UUIDs are
  -- parsed as they are printed, without colons, and the plan has no colon: the activation is that of
  -- the order's user, of Clann, with the plan and the seats of the order.
  pub on_subscription_activated-custom_id_of :
      (resource : Json)
      → is_empty (text_or_empty state.outside resource (codes "id")) ≡ false
      → text_or_empty state.outside resource (codes "custom_id")
        ≡ custom_id_of state.outside user_id plan seats
      → (d : Details) × (on_subscription_activated state resource ≡ provision d)
        × (d.user_id ≡ user_id)
        × (d.product_slug ≡ codes "clann")
        × (d.plan ≡ plan)
        × (d.seat_count ≡ seats)
        × (d.payment_provider ≡ codes "paypal")
        × (d.provider_subscription_id ≡ text_or_empty state.outside resource (codes "id"))
  unfolding custom_id_of
  on_subscription_activated-custom_id_of resource named echoed = (
    activation_details state resource user_id (codes "clann") plan (i16_to_string seats),
    activated_parts state resource _ _ _ _ _ user_id named echoed
        (is_empty_cons (state.outside.uuid_to_string user_id) b':' _)
        (four_parts (state.outside.uuid_to_string user_id) (codes "clann") plan
          (i16_to_string seats) no_colon refl plain)
        uuid,
    refl,
    refl,
    refl,
    ap (λ o. unwrap_or o (pos 1)) (parse_i16-i16_to_string seats small),
    refl,
    refl,
  )

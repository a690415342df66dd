-- ===== src/Billing/Metadata/Checkout.antt =====
-- What a checkout tells Stripe comes back with Stripe's event in the metadata.
use ullav_user_management.Prelude.{
  ℕ, ◌-◌, ◌≤◌, ◌≡◌, ◌∙◌, refl, subst, false, Option, none, some, List, [], ◌∷◌, ◌++◌, arith, Chars,
  codes, same_chars, if◌then◌else◌,
}
use ullav_user_management.Prelude.Int.{ℤ, pos, negsuc}
use ullav_user_management.Errors.{Result, ok, err, ◌>>=◌}
use ullav_user_management.Slug.Decimal.{decimal}
use ullav_user_management.Billing.Store.{Details}
use ullav_user_management.Billing.Provision.{provision}
use ullav_user_management.Billing.Providers.{StripeConfig, Outside, PaymentState, is_empty}
use ullav_user_management.Billing.Providers.Numerals.{i16_to_string, parse_i16, at_least}
use ullav_user_management.Billing.Providers.Numerals.Laws.{IsI16, parse_i16-i16_to_string}
use ullav_user_management.Billing.Stripe.{
  text_at, text_or_empty, checkout_form, plan_items, fetch_subscription,
}
use ullav_user_management.Billing.Stripe.Events.{on_checkout_completed, checkout_details}

-- The value of a key of the form, which Stripe keeps.
unfoldable pub lookup : Chars → List (Chars × Chars) → Option Chars
lookup key [] = none
lookup key ((name, value) ∷ form) =
    let rest = lookup key form in if same_chars name key then some value else rest

at_least_two : (seats : ℤ) → IsI16 seats → at_least 2 seats ≤ 32767
at_least_two (pos n) h = ground (arith, h)
at_least_two (negsuc n) h = omega arith

parse_i16-decimal : (n : ℕ) → n ≤ 32767 → parse_i16 (decimal n) ≡ some (pos n)
unfolding i16_to_string
parse_i16-decimal n h = parse_i16-i16_to_string (pos n) h

of_bind :
    {A B : Type 0} (r : Result A) (f : A → B) (b : B)
    → (r >>= λ a. ok (f a)) ≡ ok b
    → (a : A) × (f a ≡ b)
of_bind (ok a) f b h = (a, ground (arith, h))
of_bind (err e) f b h = absurd (ground (arith, h))

abbrev Metadata : Chars → Chars → ℤ → List (Chars × Chars) → Type 0
Metadata user plan seats form =
    (lookup (codes "metadata[user_id]") form ≡ some user)
    × (lookup (codes "metadata[product]") form ≡ some (codes "clann"))
    × (lookup (codes "metadata[plan]") form ≡ some plan)
    × (lookup (codes "metadata[seat_count]") form ≡ some (decimal (at_least 2 seats)))

-- The metadata of a form.
form_data :
    {Json : Type 0} (outside : Outside Json) (config : StripeConfig) (user_id : ℕ)
    (email plan : Chars) (seats : ℤ) (success_url cancel_url : Chars) (form : List (Chars × Chars))
    → checkout_form outside config user_id email plan seats success_url cancel_url ≡ ok form
    → Metadata (outside.uuid_to_string user_id) plan seats form
unfolding checkout_form lookup
form_data outside config user_id email plan seats success_url cancel_url form h =
    let (items, e) =
      of_bind
        (plan_items config plan
          (if same_chars plan (codes "family") then at_least 2 seats - 2 else 0))
        _ form h in
    subst (Metadata (outside.uuid_to_string user_id) plan seats) e (refl, refl, refl, refl)

details_of :
    {Json : Type 0} (state : PaymentState Json) (obj stripe_sub : Json) (user_id n : ℕ)
    (plan : Chars)
    → text_at state.outside (state.outside.json.field obj (codes "metadata")) (codes "product")
      ≡ some (codes "clann")
    → text_at state.outside (state.outside.json.field obj (codes "metadata")) (codes "plan")
      ≡ some plan
    → text_at state.outside (state.outside.json.field obj (codes "metadata")) (codes "seat_count")
      ≡ some (decimal n)
    → n ≤ 32767
    → ((checkout_details state obj user_id stripe_sub).product_slug ≡ codes "clann")
      × ((checkout_details state obj user_id stripe_sub).plan ≡ plan)
      × ((checkout_details state obj user_id stripe_sub).seat_count ≡ pos n)
details_of state obj stripe_sub user_id n plan e f g h =
    (rw e refl, rw f refl, rw (g, parse_i16-decimal n h) refl)

completed :
    {Json : Type 0} (state : PaymentState Json) (config : StripeConfig) (obj stripe_sub : Json)
    (user_id : ℕ) (user : Chars)
    → is_empty (text_or_empty state.outside obj (codes "subscription")) ≡ false
    → is_empty (text_or_empty state.outside obj (codes "customer")) ≡ false
    → text_at state.outside (state.outside.json.field obj (codes "metadata")) (codes "user_id")
      ≡ some user
    → is_empty user ≡ false
    → state.outside.parse_uuid user ≡ some user_id
    → state.stripe ≡ some config
    → fetch_subscription state.outside config
        (text_or_empty state.outside obj (codes "subscription"))
      ≡ ok stripe_sub
    → on_checkout_completed state obj ≡ provision (checkout_details state obj user_id stripe_sub)
unfolding on_checkout_completed
completed state config obj stripe_sub user_id user named bought e filled uuid configured fetched =
    rw (named, bought, e, filled, uuid, configured, fetched) refl

-- The event of a completed checkout whose metadata are those of the form that the checkout sent, with
-- its subscription and its customer, where Stripe is configured and gives the subscription, and UUIDs
-- are parsed as they are printed and not printed as nothing: what is activated is Clann for the
-- checkout's user, with its plan and its seats, but not less than two.
pub on_checkout_completed-checkout_form :
    {Json : Type 0} (state : PaymentState Json) (config : StripeConfig) (user_id : ℕ)
    (email plan : Chars) (seats : ℤ) (success_url cancel_url : Chars) (form : List (Chars × Chars))
    (obj stripe_sub : Json)
    → IsI16 seats
    → state.outside.parse_uuid (state.outside.uuid_to_string user_id) ≡ some user_id
    → is_empty (state.outside.uuid_to_string user_id) ≡ false
    → checkout_form state.outside config user_id email plan seats success_url cancel_url ≡ ok form
    → ((key : Chars)
        → text_at state.outside (state.outside.json.field obj (codes "metadata")) key
          ≡ lookup (codes "metadata[" ++ (key ++ codes "]")) form)
    → is_empty (text_or_empty state.outside obj (codes "subscription")) ≡ false
    → is_empty (text_or_empty state.outside obj (codes "customer")) ≡ false
    → state.stripe ≡ some config
    → fetch_subscription state.outside config
        (text_or_empty state.outside obj (codes "subscription"))
      ≡ ok stripe_sub
    → (d : Details) × (on_checkout_completed state obj ≡ provision d)
      × (d.user_id ≡ user_id)
      × (d.product_slug ≡ codes "clann")
      × (d.plan ≡ plan)
      × (d.seat_count ≡ pos (at_least 2 seats))
on_checkout_completed-checkout_form state config user_id email plan seats success_url cancel_url
      form obj stripe_sub small uuid filled made echoed named bought configured fetched =
    let (user, product, its_plan, count) =
      form_data state.outside config user_id email plan seats success_url cancel_url form made in
    let (slug, bought_plan, bought_seats) =
      details_of state obj stripe_sub user_id (at_least 2 seats) plan
        (echoed (codes "product") ∙ product) (echoed (codes "plan") ∙ its_plan)
        (echoed (codes "seat_count") ∙ count) (at_least_two seats small) in
    (
      checkout_details state obj user_id stripe_sub,
      completed state config obj stripe_sub user_id (state.outside.uuid_to_string user_id) named
          bought (echoed (codes "user_id") ∙ user) filled uuid configured fetched,
      refl,
      slug,
      bought_plan,
      bought_seats,
    )

-- ===== src/Billing/Cancellation.antt =====
-- The end of a subscription at a provider: payments/stripe.rs, payments/paypal.rs.
use ullav_user_management.Prelude.{
  ℕ, ◌≡◌, refl, sym, subst, inl, inr, true, false, ◌&&◌, List, [], ◌∷◌, ◌==◌, any, all,
  update_where, arith, Bool-cases, Chars, codes, Mem, of_select, of_update, of_and, if◌then◌else◌,
}
use ullav_user_management.Errors.{ok}
use ullav_user_management.Billing.{
  Subscription, BillingDb, is_live, is_valid, clashes, one_live, update_subscriptions,
}
use ullav_user_management.Billing.Store.{
  is_provided, cancel_subscription, get_all_user_subscriptions,
}
use ullav_user_management.Billing.Providers.{PaymentState, is_empty}
use ullav_user_management.Billing.Stripe.{text_or_empty}
use ullav_user_management.Billing.Stripe.Events.{on_subscription_deleted}
use ullav_user_management.Billing.Sound.{Sound, Sound-one, Sound-valid}

abbrev cancelled : Subscription → Subscription
cancelled s = record s { status = codes "cancelled" }

cancelled-valid :
    (id : Chars) (rows : List Subscription)
    → all is_valid rows ≡ true
    → all is_valid (update_where (is_provided id) cancelled rows) ≡ true
cancelled-valid id [] h = refl
cancelled-valid id (s ∷ rows) h = elim (Bool-cases (is_provided id s)) [
  | inl e ↦ rw e (ground (arith, h, cancelled-valid id rows))
  | inr e ↦ rw e (ground (arith, h, cancelled-valid id rows))
]

cancelled-apart :
    (id : Chars) (s : Subscription) (rows : List Subscription)
    → any (clashes s) rows ≡ false
    → any (clashes s) (update_where (is_provided id) cancelled rows) ≡ false
cancelled-apart id s [] h = refl
cancelled-apart id s (t ∷ rows) h = ground (arith, h, cancelled-apart id s rows)

never_clashes :
    (s : Subscription) (rows : List Subscription) → any (clashes (cancelled s)) rows ≡ false
never_clashes s [] = refl
never_clashes s (t ∷ rows) = never_clashes s rows

cancelled-one_live :
    (id : Chars) (rows : List Subscription)
    → one_live rows ≡ true
    → one_live (update_where (is_provided id) cancelled rows) ≡ true
cancelled-one_live id [] h = refl
cancelled-one_live id (s ∷ rows) h = elim (Bool-cases (is_provided id s)) [
  | inl e ↦
      rw (e, never_clashes s (update_where (is_provided id) cancelled rows))
        (ground (arith, h, cancelled-one_live id rows))
  | inr e ↦ rw e (ground (arith, h, cancelled-one_live id rows, cancelled-apart id s rows))
]

cancel_done :
    (id : Chars) (db : BillingDb)
    → Sound db
    → cancel_subscription id db ≡ (
      ok tt,
      record db { subscriptions = update_where (is_provided id) cancelled db.subscriptions },
    )
unfolding cancel_subscription update_subscriptions
cancel_done id db h =
    rw
      (
        cancelled-valid id db.subscriptions (Sound-valid db h),
        cancelled-one_live id db.subscriptions (Sound-one db h),
      )
      refl

live_of :
    (user_id : ℕ) (s : Subscription) → (s.user_id == user_id && is_live s) ≡ true → is_live s ≡ true
live_of user_id s h = (of_and {a = s.user_id == user_id} {b = is_live s} h).1

live_apart :
    (id : Chars) (t s : Subscription)
    → (if is_provided id t then cancelled t else t) ≡ s
    → is_live s ≡ true
    → is_provided id s ≡ false
live_apart id t s q live = elim (Bool-cases (is_provided id t)) [
  | inr e ↦ subst (λ r. is_provided id r ≡ false) (rw e at q) e
  | inl e ↦ absurd (ground (arith, (subst (λ r. is_live r ≡ true) (sym (rw e at q)) live)))
]

-- On tables that meet the constraints, the deletion event of a subscription succeeds, and none of the
-- live subscriptions that any user then has is one of the provider's under that name.
pub on_subscription_deleted-ends :
    {Json : Type 0} (state : PaymentState Json) (obj : Json) (db : BillingDb)
    → is_empty (text_or_empty state.outside obj (codes "id")) ≡ false
    → Sound db
    → ((on_subscription_deleted state obj db).0 ≡ ok tt)
      × ((user_id : ℕ) (s : Subscription)
          → Mem s (get_all_user_subscriptions user_id (on_subscription_deleted state obj db).1)
          → is_provided (text_or_empty state.outside obj (codes "id")) s ≡ false)
unfolding on_subscription_deleted get_all_user_subscriptions
on_subscription_deleted-ends state obj db named h =
    rw (named, cancel_done id db h)
      (
        refl,
        λ user_id s i.
            let (j, live) =
              of_select (λ s. s.user_id == user_id && is_live s) s
                (update_where (is_provided id) cancelled db.subscriptions) i in
            let (t, k, e) = of_update (is_provided id) cancelled s db.subscriptions j in
            live_apart id t s e (live_of user_id s live),
      )
  where
    id : Chars
    id = text_or_empty state.outside obj (codes "id")

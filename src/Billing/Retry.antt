-- ===== src/Billing/Retry.antt =====
-- An action on the subscriptions that may be repeated: where it fails nothing has changed, and where
-- it succeeds, doing it again changes nothing. The actions of db/mod.rs that events use.
mod Provision
pub mod Events
pub mod Webhooks
use ullav_user_management.Prelude.{
  ℕ, ◌≡◌, ◌∙◌, ap, refl, ◌⊎◌, inl, inr, Bool, true, false, ◌&&◌, Option, none, some, List, [], ◌∷◌,
  ◌==◌, any, all, update_where, arith, Bool-cases, Option-cases, Chars, codes, same_chars, of_any,
  Mem, to_eq, of_eq,
}
use ullav_user_management.Prelude.Int.{pos}
use ullav_user_management.Errors.{AppError, Result, ok, err}
use ullav_user_management.Exec.{Exec, pure, ◌>>=◌}
use ullav_user_management.Accounts.{User}
use ullav_user_management.Billing.{
  Product, Subscription, BillingDb, is_valid, clashes, same_key, is_live, has_user, inserted,
  unique_violation, violation, insert_outcome, add_row, update_subscriptions,
}
use ullav_user_management.Billing.Store.{
  Details, find_product, activated_row, no_row, free_row, activate_subscription,
  ensure_comad_individual, is_provided,
}
use ullav_user_management.Billing.Provision.{activate_or_conflict, bundle, provision}
use ullav_user_management.Billing.Sound.{
  Sound, Sound-valid, Sound-one, Sound-owners, has_owner, insert_cases, update_cases, add_row-Sound,
}

-- An error that changes nothing, or a success that a repetition leaves as it is.
abbrev pub Retryable : Exec BillingDb (Unit {0}) → BillingDb → Type 0
Retryable m db =
    ((e : AppError) × (m db ≡ (err e, db)))
    ⊎ ((after : BillingDb) × (m db ≡ (ok tt, after)) × (m after ≡ (ok tt, after)) × Sound after)

pub pure-Retryable : (db : BillingDb) → Sound db → Retryable (pure tt) db
pure-Retryable db h = inr (db, refl, refl, h)

update_where_twice :
    (p : Subscription → Bool) (f : Subscription → Subscription) (rows : List Subscription)
    → ((s : Subscription) → p (f s) ≡ p s)
    → ((s : Subscription) → f (f s) ≡ f s)
    → update_where p f (update_where p f rows) ≡ update_where p f rows
update_where_twice p f [] same again = refl
update_where_twice p f (s ∷ rows) same again = elim (Bool-cases (p s)) [
  | inl e ↦ rw (e, same s, e, again s, update_where_twice p f rows same again) refl
  | inr e ↦ rw (e, e, update_where_twice p f rows same again) refl
]

-- An UPDATE that sets columns, and not those of its WHERE.
pub update-Retryable :
    (p : Subscription → Bool) (f : Subscription → Subscription) (db : BillingDb)
    → ((s : Subscription) → has_owner db.users (f s) ≡ has_owner db.users s)
    → ((s : Subscription) → p (f s) ≡ p s)
    → ((s : Subscription) → f (f s) ≡ f s)
    → Sound db
    → Retryable (update_subscriptions p f >>= λ _. pure tt) db
unfolding update_subscriptions
update-Retryable p f db owner same again h = elim (update_cases p f db owner h) [
  | inl (failure, e) ↦ inl (failure, rw e refl)
  | inr (e, k) ↦ inr (
    record db { subscriptions = update_where p f db.subscriptions },
    rw e refl,
    rw (update_where_twice p f db.subscriptions same again, Sound-valid _ k, Sound-one _ k) refl,
    k,
  )
]

-- ===== src/Billing/Retry/Provision.antt =====
-- The activation of a subscription, with the Comad subscription that Clann brings, may be repeated.
use ullav_user_management.Prelude.{
  ℕ, ◌≡◌, ◌∙◌, refl, ◌⊎◌, inl, inr, Bool, true, none, some, List, [], ◌∷◌, any, all, arith,
  Bool-cases, Option-cases, codes, same_chars, of_any, Mem, to_eq,
}
use ullav_user_management.Prelude.Int.{pos}
use ullav_user_management.Errors.{AppError, ok, err, database}
use ullav_user_management.Exec.Keeps.{after_ok, after_err}
use ullav_user_management.Billing.{
  Product, Subscription, BillingDb, is_valid, clashes, has_user, add_row,
}
use ullav_user_management.Billing.Store.{
  Details, find_product, activated_row, no_row, free_row, activate_subscription,
  ensure_comad_individual,
}
use ullav_user_management.Billing.Provision.{activate_or_conflict, bundle, provision}
use ullav_user_management.Billing.Sound.{
  Sound, Sound-owners, has_owner, insert_cases, add_row-Sound,
}
use ullav_user_management.Billing.Retry.{Retryable}

-- A row of the user and product is live, so that this row meets a conflict.
abbrev Taken : Subscription → BillingDb → Type 0
Taken s db = any (clashes s) db.subscriptions ≡ true

-- The event's activation meets a conflict.
Activated : Details → BillingDb → Type 0
Activated d db =
    (product : Product) × (find_product d.product_slug db ≡ some product)
    × (is_valid (activated_row d 0 product.id) ≡ true)
    × Taken (activated_row d 0 product.id) db

conflict_again :
    (d : Details) (db : BillingDb) → Activated d db → activate_or_conflict d db ≡ (ok tt, db)
unfolding activate_subscription Activated
conflict_again d db (product, f, v, c) = rw (f, v, c) refl

all_of : {A : Type 0} (p : A → Bool) (x : A) (xs : List A) → all p xs ≡ true → Mem x xs → p x ≡ true
all_of p x [] h i = absurd i
all_of p x (y ∷ ys) h (inl e) = ground (arith, h, (rw e at h))
all_of p x (y ∷ ys) h (inr i) = ground (arith, h, all_of p x ys)

clash_owner : (s t : Subscription) → clashes s t ≡ true → s.user_id ≡ t.user_id
clash_owner s t h = ground (arith, h)

-- The user of a row that conflicts exists.
clash_user :
    (s : Subscription) (db : BillingDb) → Sound db → Taken s db → has_user db.users s.user_id ≡ true
clash_user s db h c =
    let (t, i, k) = of_any (clashes s) db.subscriptions c in
    rw (clash_owner s t k) (all_of (has_owner db.users) t db.subscriptions (Sound-owners db h) i)

activation_cases :
    (d : Details) (db : BillingDb)
    → Sound db
    → ((e : AppError) × (activate_or_conflict d db ≡ (err e, db)))
      ⊎ ((after : BillingDb) × (activate_or_conflict d db ≡ (ok tt, after))
          × Activated d after
          × (has_user after.users d.user_id ≡ true)
          × Sound after)
unfolding activate_subscription Activated
activation_cases d db h = elim (Option-cases (find_product d.product_slug db)) [
  | inl f ↦ inl (no_row, rw f refl)
  | inr (product, f) ↦ elim (insert_cases (activated_row d db.next_id product.id) db) [
    | inl (e, v, c, u) ↦ inr (
      add_row (activated_row d db.next_id product.id) db,
      rw (f, e) refl,
      (product, f, v, rw (to_eq {a = d.user_id} refl, to_eq {a = product.id} refl) refl),
      u,
      add_row-Sound (activated_row d db.next_id product.id) db v c u h,
    )
    | inr (inl (e, v, c)) ↦ inr (
      db,
      rw (f, e) refl,
      (product, f, v, c),
      clash_user (activated_row d db.next_id product.id) db h c,
      h,
    )
    | inr (inr (failure, e, _)) ↦ inl (database failure, rw (f, e) refl)
  ]
]

-- The Comad subscription is there, or there is no such product.
Bundled : ℕ → BillingDb → Type 0
Bundled user_id db =
    (find_product (codes "comad") db ≡ none)
    ⊎ ((product : Product) × (find_product (codes "comad") db ≡ some product)
        × Taken (free_row 0 user_id (codes "individual") (codes "active") (pos 1) product.id) db)

comad_again :
    (user_id : ℕ) (db : BillingDb)
    → Bundled user_id db
    → ensure_comad_individual user_id db ≡ (ok tt, db)
unfolding ensure_comad_individual Bundled
comad_again user_id db (inl f) = rw f refl
comad_again user_id db (inr (product, f, c)) = rw (f, c) refl

comad_cases :
    (user_id : ℕ) (db : BillingDb)
    → has_user db.users user_id ≡ true
    → Sound db
    → (after : BillingDb) × (ensure_comad_individual user_id db ≡ (ok tt, after))
      × Bundled user_id after
      × Sound after
      × ((d : Details) → Activated d db → Activated d after)
unfolding ensure_comad_individual Bundled Activated
comad_cases user_id db u h = elim (Option-cases (find_product (codes "comad") db)) [
  | inl f ↦ (db, rw f refl, inl f, h, λ d a. a)
  | inr (product, f) ↦ elim (insert_cases (row_of product) db) [
    | inl (e, v, c, _) ↦ (
      add_row (row_of product) db,
      rw (f, e) refl,
      inr (product, f, rw (to_eq {a = user_id} refl, to_eq {a = product.id} refl) refl),
      add_row-Sound (row_of product) db v c u h,
      λ d (other, g, w, k). (other, g, w, ground (arith, k)),
    )
    | inr (inl (e, v, c)) ↦ (db, rw (f, e) refl, inr (product, f, c), h, λ d a. a)
    | inr (inr (failure, e, inl v)) ↦ absurd (ground (arith, v))
    | inr (inr (failure, e, inr n)) ↦ absurd (ground (arith, u, n))
  ]
]
  where
    row_of : Product → Subscription
    row_of product =
        free_row db.next_id user_id (codes "individual") (codes "active") (pos 1) product.id

bundle_cases :
    (d : Details) (db : BillingDb)
    → Activated d db
    → has_user db.users d.user_id ≡ true
    → Sound db
    → (after : BillingDb) × (bundle d db ≡ (ok tt, after))
      × (bundle d after ≡ (ok tt, after))
      × Sound after
      × Activated d after
bundle_cases d db a u h = elim (Bool-cases (same_chars d.product_slug (codes "clann"))) [
  | inr e ↦ (db, rw e refl, rw e refl, h, a)
  | inl e ↦
      let (after, first, again, k, keeps) = comad_cases d.user_id db u h in
      (after, rw (e, first) refl, rw (e, comad_again d.user_id after again) refl, k, keeps d a)
]

pub provision-Retryable : (d : Details) (db : BillingDb) → Sound db → Retryable (provision d) db
unfolding provision
provision-Retryable d db h = elim (activation_cases d db h) [
  | inl (e, failed) ↦ inl (e, after_err (activate_or_conflict d) (bundle d) db db e failed)
  | inr (activated, first, a, u, k) ↦
      let (after, second, again, l, b) = bundle_cases d activated a u k in
      inr (
        after,
        after_ok (activate_or_conflict d) (bundle d) db activated tt first ∙ second,
        after_ok (activate_or_conflict d) (bundle d) after after tt (conflict_again d after b)
            ∙ again,
        l,
      )
]

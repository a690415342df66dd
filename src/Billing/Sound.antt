-- ===== src/Billing/Sound.antt =====
-- The constraints of `subscriptions` hold of its rows after every request.
use ullav_user_management.Prelude.{
  String, ◌≡◌, ◌∙◌, refl, ◌⊎◌, inl, inr, Bool, true, false, List, [], ◌∷◌, any, all, select,
  update_where, arith, Bool-cases,
}
use ullav_user_management.Errors.{AppError, ok, err, database}
use ullav_user_management.Accounts.{User}
use ullav_user_management.Billing.{
  Subscription, BillingDb, is_valid, clashes, one_live, has_user, inserted, unique_violation,
  violation, insert_outcome, add_row, count_where, update_subscriptions,
}
use ullav_user_management.Billing.Store.{insert, insert_ignore}

abbrev pub has_owner : List User → Subscription → Bool
has_owner users s = has_user users s.user_id

-- The partial unique index, the CHECKs and the foreign key hold.
unfoldable pub Sound : BillingDb → Type 0
Sound db =
    (one_live db.subscriptions ≡ true)
    × (all is_valid db.subscriptions ≡ true)
    × (all (has_owner db.users) db.subscriptions ≡ true)

pub Sound-one : (db : BillingDb) → Sound db → one_live db.subscriptions ≡ true
unfolding Sound
Sound-one db (i, j, k) = i

pub Sound-valid : (db : BillingDb) → Sound db → all is_valid db.subscriptions ≡ true
unfolding Sound
Sound-valid db (i, j, k) = j

pub Sound-owners : (db : BillingDb) → Sound db → all (has_owner db.users) db.subscriptions ≡ true
unfolding Sound
Sound-owners db (i, j, k) = k

-- What an INSERT of a row meets, and why.
pub insert_cases :
    (s : Subscription) (db : BillingDb)
    → ((insert_outcome s db ≡ inserted)
        × (is_valid s ≡ true)
        × (any (clashes s) db.subscriptions ≡ false)
        × (has_user db.users s.user_id ≡ true))
      ⊎ ((insert_outcome s db ≡ unique_violation)
          × (is_valid s ≡ true)
          × (any (clashes s) db.subscriptions ≡ true))
      ⊎ ((reason : String) × (insert_outcome s db ≡ violation (database reason))
          × ((is_valid s ≡ false) ⊎ (has_user db.users s.user_id ≡ false)))
insert_cases s db = elim (Bool-cases (is_valid s)) [
  | inr v ↦ inr (inr ("check_violation", rw v refl, inl v))
  | inl v ↦ elim (Bool-cases (any (clashes s) db.subscriptions)) [
    | inl c ↦ inr (inl (rw (v, c) refl, v, c))
    | inr c ↦ elim (Bool-cases (has_user db.users s.user_id)) [
      | inl u ↦ inl (rw (v, c, u) refl, v, c, u)
      | inr u ↦ inr (inr ("foreign_key_violation", rw (v, c, u) refl, inr u))
    ]
  ]
]

pub add_row-Sound :
    (s : Subscription) (db : BillingDb)
    → is_valid s ≡ true
    → any (clashes s) db.subscriptions ≡ false
    → has_user db.users s.user_id ≡ true
    → Sound db
    → Sound (add_row s db)
unfolding Sound
add_row-Sound s db v c u (i, j, k) = (rw (c, i) refl, rw (v, j) refl, rw (u, k) refl)

pub insert-Sound : (s : Subscription) (db : BillingDb) → Sound db → Sound (insert s db).1
insert-Sound s db h = elim (insert_cases s db) [
  | inl (e, v, c, u) ↦ rw e (add_row-Sound s db v c u h)
  | inr (inl (e, _, _)) ↦ rw e h
  | inr (inr (f, e, _)) ↦ rw e h
]

pub insert_ignore-Sound :
    (s : Subscription) (db : BillingDb) → Sound db → Sound (insert_ignore s db).1
insert_ignore-Sound s db h = elim (insert_cases s db) [
  | inl (e, v, c, u) ↦ rw e (add_row-Sound s db v c u h)
  | inr (inl (e, _, _)) ↦ rw e h
  | inr (inr (f, e, _)) ↦ rw e h
]

owners-update :
    (users : List User) (p : Subscription → Bool) (f : Subscription → Subscription)
    (rows : List Subscription)
    → ((s : Subscription) → has_owner users (f s) ≡ has_owner users s)
    → all (has_owner users) (update_where p f rows) ≡ all (has_owner users) rows
owners-update users p f [] same = refl
owners-update users p f (s ∷ rows) same = elim (Bool-cases (p s)) [
  | inl e ↦ rw (e, same s, owners-update users p f rows same) refl
  | inr e ↦ rw (e, owners-update users p f rows same) refl
]

-- What an UPDATE meets that leaves the users of the rows.
pub update_cases :
    (p : Subscription → Bool) (f : Subscription → Subscription) (db : BillingDb)
    → ((s : Subscription) → has_owner db.users (f s) ≡ has_owner db.users s)
    → Sound db
    → ((e : AppError) × (update_subscriptions p f db ≡ (err e, db)))
      ⊎ ((update_subscriptions p f db ≡ (
        ok (count_where p db.subscriptions),
        record db { subscriptions = update_where p f db.subscriptions },
      ))
          × Sound (record db { subscriptions = update_where p f db.subscriptions }))
unfolding update_subscriptions Sound
update_cases p f db same (i, j, k) =
    elim (Bool-cases (all is_valid (update_where p f db.subscriptions))) [
      | inr v ↦ inl (database "check_violation", rw v refl)
      | inl v ↦ elim (Bool-cases (one_live (update_where p f db.subscriptions))) [
        | inr l ↦ inl (database "unique_violation", rw (v, l) refl)
        | inl l ↦ inr (rw (v, l) refl, (l, v, owners-update db.users p f db.subscriptions same ∙ k))
      ]
    ]

pub update_subscriptions-Sound :
    (p : Subscription → Bool) (f : Subscription → Subscription) (db : BillingDb)
    → ((s : Subscription) → has_owner db.users (f s) ≡ has_owner db.users s)
    → Sound db
    → Sound (update_subscriptions p f db).1
update_subscriptions-Sound p f db same h = elim (update_cases p f db same h) [
  | inl (failure, e) ↦ rw e h
  | inr (e, k) ↦ rw e k
]

select-all :
    {A : Type 0} (p q : A → Bool) (xs : List A) → all p xs ≡ true → all p (select q xs) ≡ true
select-all p q [] h = refl
select-all p q (x ∷ xs) h = ground (arith, select-all p q xs)

select-any :
    {A : Type 0} (p q : A → Bool) (xs : List A) → any p xs ≡ false → any p (select q xs) ≡ false
select-any p q [] h = refl
select-any p q (x ∷ xs) h = ground (arith, select-any p q xs)

select-one_live :
    (q : Subscription → Bool) (rows : List Subscription)
    → one_live rows ≡ true
    → one_live (select q rows) ≡ true
select-one_live q [] h = refl
select-one_live q (s ∷ rows) h =
    ground (arith, h, select-one_live q rows, select-any (clashes s) q rows)

pub select-Sound :
    (q : Subscription → Bool) (db : BillingDb)
    → Sound db
    → Sound (record db { subscriptions = select q db.subscriptions })
unfolding Sound
select-Sound q db (i, j, k) = (
  select-one_live q db.subscriptions i,
  select-all is_valid q db.subscriptions j,
  select-all (has_owner db.users) q db.subscriptions k,
)

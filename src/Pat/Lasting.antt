-- ===== src/Pat/Lasting.antt =====
-- A row that is not revoked stays as it was, and a row that is over stays so: db/pat.rs.
use ullav_user_management.Prelude.{
  ℕ, ◌≡◌, ◌≢◌, ◌∙◌, refl, sym, subst, String, inl, inr, true, false, Bool, not, ◌&&◌, ◌==◌, none,
  some, List, [], ◌∷◌, any, find, update_where, arith, same, Bool-cases, if◌then◌else◌, ltb, length,
  of_eq,
}
use ullav_user_management.Errors.{not_found, conflict, database}
use ullav_user_management.Exec.Keeps.{after-fail_if, after-guard}
use ullav_user_management.Accounts.{User, has_user}
use ullav_user_management.Pat.{
  Pat, PatDb, NewPat, has_hash, insert_pat, is_null, is_revocable, is_unexpired, revoke_pat,
  is_live, touch_pat_last_used,
}
use ullav_user_management.Pat.Hashes.{same_of, fresh_and_known, revoked_hash, touched_hash}
use ullav_user_management.Pat.Kept.{IsKept, Free}

-- The row that was inserted, not revoked; it may have been used.
pub record IsLasting (new : NewPat) (id : ℕ) (p : Pat) : Type 0 where
  pub own_id : p.id ≡ id
  pub unrevoked : p.revoked_at ≡ none
  pub same_expiry : p.expires_at ≡ new.expires_at
  pub same_user : p.user_id ≡ new.user_id
  pub same_scopes : p.scopes ≡ new.scopes
  pub same_repo : p.repo_id ≡ new.repo_id

-- The row is the one that its hash finds.
abbrev pub Lasts : NewPat → ℕ → PatDb → Type 0
Lasts new id db = (p : Pat) × (find (has_hash new.token_hash) db.pats ≡ some p) × IsLasting new id p

-- The hash is known, and each row with it has expired.
abbrev pub Over : ℕ → String → PatDb → Type 0
Over later h db =
    (any (has_hash h) db.pats ≡ true)
    × (any (λ p. has_hash h p && is_unexpired later p.expires_at) db.pats ≡ false)

known_of :
    (h : String) (p : Pat) (ps : List Pat)
    → find (has_hash h) ps ≡ some p
    → any (has_hash h) ps ≡ true
known_of h p [] e = absurd (ground (arith, e))
known_of h p (q ∷ ps) e = ground (arith, e, known_of h p ps)

some_injective : {A : Type 0} {x y : A} → some x ≡ some y → x ≡ y
some_injective e = ground (arith, e)

module _ (h : String) (b : Pat → Bool) (f : Pat → Pat)
    (same_hash : (q : Pat) → (f q).token_hash ≡ q.token_hash) where
  -- An UPDATE that keeps the hashes updates the row that is found.
  found_updated :
      (p : Pat) (ps : List Pat)
      → find (has_hash h) ps ≡ some p
      → find (has_hash h) (update_where b f ps) ≡ some (if b p then f p else p)
  found_updated p [] e = absurd (ground (arith, e))
  found_updated p (q ∷ ps) e = elim (Bool-cases (has_hash h q)) [
    | inl k ↦
        subst (λ x. find (has_hash h) (update_where b f (q ∷ ps)) ≡ some (if b x then f x else x))
          (some_injective (rw k at e))
          (elim (Bool-cases (b q)) [ inl c ↦ rw (c, same_hash q, k) refl | inr c ↦ rw (c, k) refl ])
    | inr k ↦ elim (Bool-cases (b q)) [
      | inl c ↦ rw (c, same_hash q, k) (found_updated p ps (rw k at e))
      | inr c ↦ rw (c, k) (found_updated p ps (rw k at e))
    ]
  ]

touched :
    (new : NewPat) (id : ℕ) (p : Pat)
    → IsLasting new id p
    → (now : ℕ) (c : Bool)
    → IsLasting new id (if c then record p { last_used_at = some now } else p)
touched new id p k now true = record {
  own_id = k.own_id;
  unrevoked = k.unrevoked;
  same_expiry = k.same_expiry;
  same_user = k.same_user;
  same_scopes = k.same_scopes;
  same_repo = k.same_repo;
}
touched new id p k now false = k

-- The row that a hash finds is found while it is live.
pub first_live :
    (later : ℕ) (h : String) (p : Pat) (ps : List Pat)
    → find (has_hash h) ps ≡ some p
    → (is_null p.revoked_at && is_unexpired later p.expires_at) ≡ true
    → find (is_live later h) ps ≡ some p
first_live later h p [] e l = absurd (ground (arith, e))
first_live later h p (q ∷ ps) e l = elim (Bool-cases (has_hash h q)) [
  | inl k ↦
      let d = some_injective (rw k at e) in
      subst (λ x. find (is_live later h) (q ∷ ps) ≡ some x) d
        (rw
          (
            k,
            subst (λ (x : Pat). (is_null x.revoked_at && is_unexpired later x.expires_at) ≡ true)
                (sym d) l,
          )
          refl)
  | inr k ↦ rw k (first_live later h p ps (rw k at e) l)
]

module _ (users : List User) (new : NewPat) (id : ℕ) where
  insert-Lasts :
      (other : NewPat) (now : ℕ) (db : PatDb)
      → Lasts new id db
      → Lasts new id (insert_pat users other now db).1
  insert-Lasts other now db (p, e, k) =
      after-guard (Lasts new id) (ltb 255 (length other.name))
        (database "string_data_right_truncation") _ db (p, e, k)
        λ _.
          after-guard (Lasts new id) (any (has_hash other.token_hash) db.pats) conflict _ db
            (p, e, k)
            λ fresh.
              after-guard (Lasts new id) (not (has_user users other.user_id))
                (database "foreign_key_violation") _ db (p, e, k)
                λ _. elim (Bool-cases (same other.token_hash new.token_hash)) [
                  | inl s ↦ absurd (
                      fresh_and_known other.token_hash new.token_hash db.pats
                        (same_of other.token_hash new.token_hash s) fresh
                        (known_of new.token_hash p db.pats e))
                  | inr s ↦ (p, rw s e, k)
                ]

  spared :
      (user_id other : ℕ) (p : Pat) → other ≢ id → p.id ≡ id → is_revocable user_id other p ≡ false
  spared user_id other p n e = elim (Bool-cases (p.id == other)) [
    | inl k ↦ absurd (n (sym (of_eq k) ∙ e))
    | inr k ↦ rw k refl
  ]

  pub Lasts-kept : IsKept users (λ other. other ≢ id) (Lasts new id)
  unfolding revoke_pat touch_pat_last_used
  Lasts-kept = record {
    after_insert = insert-Lasts;
    after_revoke = λ now user_id other db n (p, e, k).
        after-fail_if (Lasts new id) (not (any (is_revocable user_id other) db.pats)) not_found _ (
          p,
          found_updated new.token_hash (is_revocable user_id other)
                (λ q. record q { revoked_at = some now }) (λ q. refl) p db.pats e
              ∙ rw (spared user_id other p n k.own_id) refl,
          k,
        );
    after_touch = λ now other db (p, e, k). (
      _,
      found_updated new.token_hash (λ q. q.id == other) (λ q. record q { last_used_at = some now })
          (λ q. refl) p db.pats e,
      touched new id p k now (p.id == other),
    );
  }

module _ (b : Pat → Bool) (later : ℕ) (h : String) (now : ℕ) where
  revoked_over :
      (ps : List Pat)
      → any
          (λ p. has_hash h p && is_unexpired later p.expires_at)
          (update_where b (λ q. record q { revoked_at = some now }) ps)
        ≡ any (λ p. has_hash h p && is_unexpired later p.expires_at) ps
  revoked_over [] = refl
  revoked_over (q ∷ ps) = ground (arith, revoked_over ps)

  touched_over :
      (ps : List Pat)
      → any
          (λ p. has_hash h p && is_unexpired later p.expires_at)
          (update_where b (λ q. record q { last_used_at = some now }) ps)
        ≡ any (λ p. has_hash h p && is_unexpired later p.expires_at) ps
  touched_over [] = refl
  touched_over (q ∷ ps) = ground (arith, touched_over ps)

insert-Over :
    (users : List User) (later : ℕ) (h : String) (new : NewPat) (now : ℕ) (db : PatDb)
    → Over later h db
    → Over later h (insert_pat users new now db).1
insert-Over users later h new now db (known, over) =
    after-guard (Over later h) (ltb 255 (length new.name)) (database "string_data_right_truncation")
      _ db (known, over)
      λ _.
        after-guard (Over later h) (any (has_hash new.token_hash) db.pats) conflict _ db
          (known, over)
          λ fresh.
            after-guard (Over later h) (not (has_user users new.user_id))
              (database "foreign_key_violation") _ db (known, over)
              λ _. elim (Bool-cases (same new.token_hash h)) [
                | inl e ↦ absurd (
                    fresh_and_known new.token_hash h db.pats (same_of new.token_hash h e) fresh
                      known)
                | inr e ↦ (rw (e, known) refl, rw (e, over) refl)
              ]

pub Over-kept : (users : List User) (later : ℕ) (h : String) → IsKept users Free (Over later h)
unfolding revoke_pat touch_pat_last_used
Over-kept users later h = record {
  after_insert = insert-Over users later h;
  after_revoke = λ now user_id id db _ (known, over).
      after-fail_if (Over later h) (not (any (is_revocable user_id id) db.pats)) not_found _ (
        revoked_hash (is_revocable user_id id) h now db.pats ∙ known,
        revoked_over (is_revocable user_id id) later h now db.pats ∙ over,
      );
  after_touch = λ now id db (known, over). (
    touched_hash (λ p. p.id == id) h now db.pats ∙ known,
    touched_over (λ p. p.id == id) later h now db.pats ∙ over,
  );
}

pub none_over :
    (later : ℕ) (h : String) (ps : List Pat)
    → any (λ p. has_hash h p && is_unexpired later p.expires_at) ps ≡ false
    → find (is_live later h) ps ≡ none
none_over later h [] e = refl
none_over later h (p ∷ ps) e = ground (arith, e, none_over later h ps)

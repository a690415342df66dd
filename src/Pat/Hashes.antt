-- ===== src/Pat/Hashes.antt =====
-- The hashes of the tokens: no two tokens have the same, and those with a given hash stay revoked.
use ullav_user_management.Prelude.{
  ℕ, ◌≡◌, ◌∙◌, refl, ap, subst, String, inl, inr, Bool, true, false, not, ◌&&◌, same, some, List,
  [], ◌∷◌, any, update_where, arith, eq_iff, eq_refl, Bool-cases, Mem, any_of, ltb, length,
}
use ullav_user_management.Errors.{conflict, database}
use ullav_user_management.Exec.Keeps.{after-guard}
use ullav_user_management.Accounts.{has_user, User}
use ullav_user_management.Pat.{Pat, PatDb, NewPat, has_hash, insert_pat, is_null, is_revocable}

-- No two tokens have the same hash.
abbrev pub distinct : List Pat → Bool
distinct [] = true
distinct (p ∷ ps) = not (any (has_hash p.token_hash) ps) && distinct ps

abbrev pub OneHash : PatDb → Type 0
OneHash db = distinct db.pats ≡ true

-- A token that the revocation may still end.
abbrev pub is_open : String → Pat → Bool
is_open h p = has_hash h p && is_null p.revoked_at

-- The hash is known and each token with it is revoked.
abbrev pub Dead : String → PatDb → Type 0
Dead h db = (any (has_hash h) db.pats ≡ true) × (any (is_open h) db.pats ≡ false)

module _ (p : Pat → Bool) (h : String) (now : ℕ) where
  pub revoked_hash :
      (ps : List Pat)
      → any (has_hash h) (update_where p (λ q. record q { revoked_at = some now }) ps)
        ≡ any (has_hash h) ps
  revoked_hash [] = refl
  revoked_hash (q ∷ ps) = ground (arith, revoked_hash ps)

  pub touched_hash :
      (ps : List Pat)
      → any (has_hash h) (update_where p (λ q. record q { last_used_at = some now }) ps)
        ≡ any (has_hash h) ps
  touched_hash [] = refl
  touched_hash (q ∷ ps) = ground (arith, touched_hash ps)

  pub touched_open :
      (ps : List Pat)
      → any (is_open h) (update_where p (λ q. record q { last_used_at = some now }) ps)
        ≡ any (is_open h) ps
  touched_open [] = refl
  touched_open (q ∷ ps) = ground (arith, touched_open ps)

  pub revoked_open :
      (ps : List Pat)
      → any (is_open h) ps ≡ false
      → any (is_open h) (update_where p (λ q. record q { revoked_at = some now }) ps) ≡ false
  revoked_open [] e = refl
  revoked_open (q ∷ ps) e = ground (arith, e, revoked_open ps)

closed_tail :
    (h : String) (ps : List Pat) → any (has_hash h) ps ≡ false → any (is_open h) ps ≡ false
closed_tail h [] e = refl
closed_tail h (q ∷ ps) e = ground (arith, e, closed_tail h ps)

module _ (now : ℕ) (p : Pat → Bool) where
  pub revoked_distinct :
      (ps : List Pat)
      → distinct ps ≡ true
      → distinct (update_where p (λ q. record q { revoked_at = some now }) ps) ≡ true
  revoked_distinct [] d = refl
  revoked_distinct (q ∷ ps) d =
      ground (arith, d, revoked_distinct ps, revoked_hash p q.token_hash now ps)

  pub touched_distinct :
      (ps : List Pat)
      → distinct ps ≡ true
      → distinct (update_where p (λ q. record q { last_used_at = some now }) ps) ≡ true
  touched_distinct [] d = refl
  touched_distinct (q ∷ ps) d =
      ground (arith, d, touched_distinct ps, touched_hash p q.token_hash now ps)

pub same_of : (a b : String) → same a b ≡ true → a ≡ b
same_of a b e = ground (arith, e, eq_iff a b)

pub fresh_and_known :
    (a b : String) (ps : List Pat)
    → a ≡ b
    → any (has_hash a) ps ≡ false
    → any (has_hash b) ps ≡ true
    → ⊥
fresh_and_known a b ps e fresh known = ground (arith, (rw e at fresh), known)

head_closes :
    (now user_id id : ℕ) (q : Pat) (ps : List Pat)
    → distinct (q ∷ ps) ≡ true
    → is_revocable user_id id q ≡ true
    → any
        (is_open q.token_hash)
        (update_where (is_revocable user_id id) (λ q. record q { revoked_at = some now }) (q ∷ ps))
      ≡ false
head_closes now user_id id q ps d r =
    rw
      (
        r,
        eq_refl q.token_hash,
        revoked_open (is_revocable user_id id) q.token_hash now ps
            (closed_tail q.token_hash ps (ground (arith, d))),
      )
      refl

-- The revocation of one of the user's tokens leaves none with its hash open.
pub revoke_closes :
    (now user_id id : ℕ) (p : Pat) (ps : List Pat)
    → distinct ps ≡ true
    → Mem p ps
    → is_revocable user_id id p ≡ true
    → any
        (is_open p.token_hash)
        (update_where (is_revocable user_id id) (λ q. record q { revoked_at = some now }) ps)
      ≡ false
revoke_closes now user_id id p [] d i r = absurd i
revoke_closes now user_id id p (q ∷ ps) d (inl e) r =
    subst
      (λ x.
        is_revocable user_id id x ≡ true
        → any (is_open x.token_hash) (
            update_where (is_revocable user_id id) (λ q. record q { revoked_at = some now })
              (q ∷ ps))
          ≡ false)
      e (head_closes now user_id id q ps d) r
revoke_closes now user_id id p (q ∷ ps) d (inr i) r =
    elim (Bool-cases (same q.token_hash p.token_hash)) [
      | inl e ↦ absurd (
          ground (
            arith,
            d,
            any_of (has_hash q.token_hash) p ps i (
                ap (λ h. same p.token_hash h) (same_of q.token_hash p.token_hash e)
                ∙ eq_refl p.token_hash),
          ))
      | inr e ↦ ground (arith, e, revoke_closes now user_id id p ps (ground (arith, d)) i r)
    ]

module _ (users : List User) where
  pub insert-Dead :
      (new : NewPat) (now : ℕ) (h : String) (db : PatDb)
      → Dead h db
      → Dead h (insert_pat users new now db).1
  insert-Dead new now h db (known, dead) =
      after-guard (Dead h) (ltb 255 (length new.name)) (database "string_data_right_truncation") _
        db (known, dead)
        λ _.
          after-guard (Dead h) (any (has_hash new.token_hash) db.pats) conflict _ db (known, dead)
            λ fresh.
              after-guard (Dead h) (not (has_user users new.user_id))
                (database "foreign_key_violation") _ db (known, dead)
                λ _. elim (Bool-cases (same new.token_hash h)) [
                  | inl e ↦ absurd (
                      fresh_and_known new.token_hash h db.pats (same_of new.token_hash h e) fresh
                        known)
                  | inr e ↦ (rw (e, known) refl, rw (e, dead) refl)
                ]

  pub insert-OneHash :
      (new : NewPat) (now : ℕ) (db : PatDb) → OneHash db → OneHash (insert_pat users new now db).1
  insert-OneHash new now db d =
      after-guard OneHash (ltb 255 (length new.name)) (database "string_data_right_truncation") _ db
        d
        λ _. after-guard OneHash (any (has_hash new.token_hash) db.pats) conflict _ db d λ fresh.
          after-guard OneHash (not (has_user users new.user_id)) (database "foreign_key_violation")
            _ db d λ _. rw (fresh, d) refl

-- ===== src/Billing/Signature.antt =====
-- payments/stripe.rs: which webhooks `verify_signature` accepts.
use ullav_user_management.Prelude.{
  ℕ, ◌≡◌, ◌↔◌, ◌∙◌, ap, refl, subst, ◌⊎◌, inl, inr, true, not, Option, none, some, List, [], ◌∷◌,
  ◌++◌, ◌==◌, any, all, arith, Bool-cases, Option-cases, Chars, codes, same_chars, same_chars_iff,
  Mem, of_any, to_eq,
}
use ullav_user_management.Errors.{AppError, ok, err}
use ullav_user_management.Billing.Providers.{strip_prefix, split}
use ullav_user_management.Billing.Stripe.{
  read_part, read_parts, accept, no_signatures, verify_signature,
}

of_strip_prefix : (p s r : Chars) → strip_prefix p s ≡ some r → s ≡ p ++ r
of_strip_prefix [] s r h = ground (arith, h)
of_strip_prefix (c ∷ p) [] r h = absurd (ground (arith, h))
of_strip_prefix (c ∷ p) (d ∷ s) r h = ground (arith, h, of_strip_prefix p s r)

-- What the parts say: a timestamp, a signature.
abbrev Told : List Chars → Option Chars × List Chars → Type 0
Told parts found =
    ((t : Chars) → found.0 ≡ some t → Mem (codes "t=" ++ t) parts)
    × ((sig : Chars) → Mem sig found.1 → Mem (codes "v1=" ++ sig) parts)

of_append : (x y : Chars) (xs : List Chars) → Mem x (xs ++ y ∷ []) → Mem x xs ⊎ (y ≡ x)
of_append x y [] (inl e) = inr e
of_append x y [] (inr i) = absurd i
of_append x y (z ∷ xs) (inl e) = inl (inl e)
of_append x y (z ∷ xs) (inr i) = elim (of_append x y xs i) [ inl j ↦ inl (inr j) | inr e ↦ inr e ]

some_injective : {A : Type 0} {x y : A} → some x ≡ some y → x ≡ y
some_injective e = cc

-- One round keeps what all parts of the header say.
read_part-Told :
    (all : List Chars) (found : Option Chars × List Chars) (part : Chars)
    → Mem part all
    → Told all found
    → Told all (read_part found part)
read_part-Told all (timestamp, signatures) part i (h, k) =
    elim (Option-cases (strip_prefix (codes "t=") part)) [
      | inr (t, e) ↦ rw e (
        λ u q.
            subst (λ p. Mem p all)
              (of_strip_prefix (codes "t=") part t e ∙ ap (λ v. codes "t=" ++ v) (some_injective q))
              i,
        k,
      )
      | inl e ↦ elim (Option-cases (strip_prefix (codes "v1=") part)) [
        | inl f ↦ rw (e, f) (h, k)
        | inr (sig, f) ↦
            rw (e, f)
              (
                h,
                λ u j. elim (of_append u sig signatures j) [
                  | inl m ↦ k u m
                  | inr q ↦
                      subst (λ p. Mem p all)
                        (of_strip_prefix (codes "v1=") part sig f ∙ ap (λ v. codes "v1=" ++ v) q) i
                ],
              )
      ]
    ]

read_parts-Told :
    (all : List Chars) (found : Option Chars × List Chars) (parts : List Chars)
    → ((p : Chars) → Mem p parts → Mem p all)
    → Told all found
    → Told all (read_parts found parts)
read_parts-Told all found [] sub h = h
read_parts-Told all found (part ∷ parts) sub h =
    read_parts-Told all (read_part found part) parts (λ p i. sub p (inr i))
      (read_part-Told all found part (sub part (inl refl)) h)

no_error : {e : AppError} → err e ≡ ok (tt {0}) → ⊥
no_error h = ground (arith, h)

-- A header is accepted only if one of its parts between commas is `t=` with a timestamp, one is `v1=`
-- with a signature, and the signature is the HMAC, under the secret, of the timestamp, a dot and the
-- payload.
pub verify_signature_signed :
    (hmac_hex : Chars → Chars → Option Chars) (payload header secret : Chars)
    → verify_signature hmac_hex payload header secret ≡ ok tt
    → (t : Chars) × (sig : Chars) × Mem (codes "t=" ++ t) (split b',' header)
      × Mem (codes "v1=" ++ sig) (split b',' header)
      × (hmac_hex secret (t ++ b'.' ∷ payload) ≡ some sig)
unfolding verify_signature
verify_signature_signed hmac_hex payload header secret h = elim (Option-cases found.0) [
  | inl e ↦ absurd (no_error (rw e at h))
  | inr (t, e) ↦ elim (Bool-cases (no_signatures found.1)) [
    | inl n ↦ absurd (no_error (rw (e, n) at h))
    | inr n ↦ elim (Option-cases (hmac_hex secret (t ++ b'.' ∷ payload))) [
      | inl m ↦ absurd (no_error (rw (e, n, m) at h))
      | inr (sig, m) ↦ elim (Bool-cases (any (λ s. same_chars s sig) found.1)) [
        | inr a ↦ absurd (no_error (rw (e, n, m, a) at h))
        | inl a ↦
            let (s, i, q) = of_any (λ s. same_chars s sig) found.1 a in
            (
              t,
              sig,
              told.0 t e,
              told.1 sig (subst (λ v. Mem v found.1) (ground (arith, q, same_chars_iff s sig)) i),
              m,
            )
      ]
    ]
  ]
]
  where
    parts : List Chars
    parts = split b',' header

    found : Option Chars × List Chars
    found = read_parts (none, []) parts

    told : Told parts found
    told =
        read_parts-Told parts (none, []) parts (λ p i. i)
          (λ t e. absurd (ground (arith, e)), λ s i. absurd i)

pub split_first :
    (separator : ℕ) (w s : Chars)
    → all (λ c. not (c == separator)) w ≡ true
    → split separator (w ++ separator ∷ s) ≡ w ∷ split separator s
split_first separator [] s h = rw (to_eq {a = separator} refl) refl
split_first separator (c ∷ w) s h = ground (arith, h, split_first separator w s)

pub split_last :
    (separator : ℕ) (w : Chars)
    → all (λ c. not (c == separator)) w ≡ true
    → split separator w ≡ w ∷ []
split_last separator [] h = refl
split_last separator (c ∷ w) h = ground (arith, h, split_last separator w)

header_parts :
    (t sig : Chars)
    → all (λ c. not (c == b',')) t ≡ true
    → all (λ c. not (c == b',')) sig ≡ true
    → split b',' (codes "t=" ++ (t ++ b',' ∷ (codes "v1=" ++ sig)))
      ≡ (codes "t=" ++ t) ∷ (codes "v1=" ++ sig) ∷ []
header_parts t sig h k =
    split_first b',' (codes "t=" ++ t) (codes "v1=" ++ sig) h
    ∙ ap (λ parts. (codes "t=" ++ t) ∷ parts) (split_last b',' (codes "v1=" ++ sig) k)

verify_header :
    (hmac_hex : Chars → Chars → Option Chars) (payload secret t sig : Chars)
    → all (λ c. not (c == b',')) t ≡ true
    → all (λ c. not (c == b',')) sig ≡ true
    → verify_signature hmac_hex payload (codes "t=" ++ (t ++ b',' ∷ (codes "v1=" ++ sig))) secret
      ≡ accept hmac_hex payload secret (some t, sig ∷ [])
unfolding verify_signature
verify_header hmac_hex payload secret t sig h k =
    ap (λ parts. accept hmac_hex payload secret (read_parts (none, []) parts))
      (header_parts t sig h k)

-- The header that Stripe sends, with a timestamp and one signature without commas, is accepted exactly
-- if the signature is the HMAC, under the secret, of the timestamp, a dot and the payload.
pub verify_signature_iff :
    (hmac_hex : Chars → Chars → Option Chars) (payload secret t sig : Chars)
    → all (λ c. not (c == b',')) t ≡ true
    → all (λ c. not (c == b',')) sig ≡ true
    → (verify_signature hmac_hex payload (codes "t=" ++ (t ++ b',' ∷ (codes "v1=" ++ sig))) secret
        ≡ ok tt)
      ↔ (hmac_hex secret (t ++ b'.' ∷ payload) ≡ some sig)
verify_signature_iff hmac_hex payload secret t sig h k =
    rw (verify_header hmac_hex payload secret t sig h k)
      (elim (Option-cases (hmac_hex secret (t ++ b'.' ∷ payload))) [
        | inl e ↦ rw e (λ q. absurd (no_error q), λ q. absurd (ground (arith, q)))
        | inr (x, e) ↦ elim (Bool-cases (same_chars sig x)) [
          | inl q ↦ rw (e, q) (λ _. ground (arith, q, same_chars_iff sig x), λ _. refl)
          | inr q ↦
              rw (e, q)
                (λ r. absurd (no_error r), λ r. absurd (ground (arith, q, r, same_chars_iff sig x)))
        ]
      ])

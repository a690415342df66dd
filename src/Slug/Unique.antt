-- ===== src/Slug/Unique.antt =====
-- `unique_team_slug` and `unique_org_slug`: the loop ends, on a slug that no row has.
use mathlib.Core.List.{append_cancel_left, tail-eq_of_cons-eq}
use ullav_user_management.Prelude.{
  ℕ, zero, suc, ◌+◌, ◌≤◌, ◌<◌, ◌≡◌, ◌≢◌, refl, sym, ap, ◌∙◌, ◌⊎◌, inl, inr, Bool, true, false, List,
  some, [], ◌∷◌, ◌++◌, arith, if◌then◌else◌, Chars, codes, all, any, length, length-append,
  same_chars, same_chars_iff, Bool-cases,
}
use ullav_user_management.Errors.{ok}
use ullav_user_management.Slug.{
  numbered, hyphen, unique_loop, unique_slug, base_slug, is_empty, unique_team_slug,
  unique_org_slug, validate_slug_format,
}
use ullav_user_management.Slug.Decimal.{
  decimal, decimal_injective, is_digit, all-decimal, decimal-ne-nil,
}
use ullav_user_management.Slug.Format.{scan, scan-slugify, LowercaseLaws, valid_of_scan}

-- The rows' slugs as the query sees them.
abbrev pub is_taken : List Chars → Chars → Bool
is_taken slugs candidate = any (λ s. same_chars s candidate) slugs

-- One row less: the first with the slug is left out.
drop : Chars → List Chars → List Chars
drop c [] = []
drop c (s ∷ slugs) = let rest = drop c slugs in if same_chars s c then slugs else s ∷ rest

length-drop :
    (c : Chars) (slugs : List Chars)
    → is_taken slugs c ≡ true
    → length (drop c slugs) + 1 ≡ length slugs
unfolding drop
length-drop c [] h = cc
length-drop c (s ∷ slugs) h = ground (arith, length-drop c slugs)

is_taken-drop :
    (c d : Chars) (slugs : List Chars) → c ≢ d → is_taken (drop c slugs) d ≡ is_taken slugs d
unfolding drop
is_taken-drop c d [] n = refl
is_taken-drop c d (s ∷ slugs) n =
    ground (arith, is_taken-drop c d slugs, same_chars_iff s c, same_chars_iff s d)

numbered_injective : (base : Chars) (m n : ℕ) → numbered base m ≡ numbered base n → m ≡ n
unfolding numbered
numbered_injective base m n e =
    decimal_injective m n (tail-eq_of_cons-eq (append_cancel_left base _ _ e))

length-numbered : (base : Chars) (n : ℕ) → length base < length (numbered base n)
unfolding numbered
length-numbered base n = omega (arith, length-append base (hyphen ∷ decimal n))

base-ne-numbered : (base : Chars) (n : ℕ) → base ≢ numbered base n
base-ne-numbered base n e = absurd (omega (arith, ap length e, length-numbered base n))

module _ (base : Chars) where
  -- The loop asks only about the candidates.
  unique_loop_cong :
      (fuel : ℕ) (p q : Chars → Bool) (candidate : Chars) (n : ℕ)
      → p candidate ≡ q candidate
      → ((m : ℕ) → n ≤ m → p (numbered base m) ≡ q (numbered base m))
      → unique_loop fuel p base candidate n ≡ unique_loop fuel q base candidate n
  unfolding unique_loop
  unique_loop_cong zero p q candidate n e h = refl
  unique_loop_cong (suc fuel) p q candidate n e h = cc (
    e,
    unique_loop_cong fuel p q (numbered base n) (n + 1) (h n (omega arith))
        (λ m k. h m (omega arith)),
  )

  unique_loop_free :
      (fuel : ℕ) (p : Chars → Bool) (candidate c : Chars) (n : ℕ)
      → unique_loop fuel p base candidate n ≡ some c
      → p c ≡ false
  unfolding unique_loop
  unique_loop_free zero p candidate c n e = cc
  unique_loop_free (suc fuel) p candidate c n e =
      ground (arith, unique_loop_free fuel p (numbered base n) c (n + 1))

  unique_loop_shape :
      (fuel : ℕ) (p : Chars → Bool) (candidate c : Chars) (n : ℕ)
      → unique_loop fuel p base candidate n ≡ some c
      → (candidate ≡ c) ⊎ ((m : ℕ) × (numbered base m ≡ c) × (m < n + fuel))
  unfolding unique_loop
  unique_loop_shape zero p candidate c n e = cc
  unique_loop_shape (suc fuel) p candidate c n e = elim (Bool-cases (p candidate)) [
    | inl used ↦ elim (unique_loop_shape fuel p (numbered base n) c (n + 1) (rw used at e)) [
      | inl now ↦ inr (n, now, omega arith)
      | inr (m, later, bound) ↦ inr (m, later, omega arith)
    ]
    | inr free ↦ inl (ground arith)
  ]

  -- Each slug in the table costs one round at most.
  unique_loop_ends :
      (fuel : ℕ) (slugs : List Chars) (candidate : Chars) (n : ℕ)
      → ((m : ℕ) → n ≤ m → candidate ≢ numbered base m)
      → length slugs < fuel
      → (c : Chars) × (unique_loop fuel (is_taken slugs) base candidate n ≡ some c)
  unfolding unique_loop
  unique_loop_ends zero slugs candidate n h k = absurd (omega arith)
  unique_loop_ends (suc fuel) slugs candidate n h k = elim (Bool-cases (is_taken slugs candidate)) [
    | inr free ↦ (candidate, rw free)
    | inl used ↦
        let (c, e) =
          unique_loop_ends fuel (drop candidate slugs) (numbered base n) (n + 1)
            (λ m j q. absurd (omega (arith, numbered_injective base n m q)))
            (omega (arith, length-drop candidate slugs used)) in
        (c, rw used (same_loop ∙ e))
  ]
    where
      agrees :
          (m : ℕ)
          → n ≤ m
          → is_taken slugs (numbered base m) ≡ is_taken (drop candidate slugs) (numbered base m)
      agrees m j = sym (is_taken-drop candidate (numbered base m) slugs (h m j))

      same_loop :
          unique_loop fuel (is_taken slugs) base (numbered base n) (n + 1)
          ≡ unique_loop fuel (is_taken (drop candidate slugs)) base (numbered base n) (n + 1)
      same_loop =
          unique_loop_cong fuel _ _ (numbered base n) (n + 1) (agrees n (omega arith))
            (λ m j. agrees m (omega arith))

scan-append :
    (h : Bool) (s t : Chars)
    → scan h s ≡ true
    → scan true t ≡ true
    → scan h (s ++ hyphen ∷ t) ≡ true
unfolding scan
scan-append h [] t k l = ground arith
scan-append h (c ∷ s) t k l = ground (arith, scan-append true s t, scan-append false s t)

scan-digits :
    (h : Bool) (s : Chars) → all is_digit s ≡ true → (s ≡ [] → h ≡ false) → scan h s ≡ true
unfolding scan
scan-digits h [] k n = ground (arith, n refl)
scan-digits h (c ∷ s) k n = ground (arith, scan-digits false s (ground arith) (λ e. refl))

module _ (lower : Chars → Chars) (laws : LowercaseLaws lower) (fallback : Chars)
    (plain : scan true fallback ≡ true) where
  scan-base_slug : (name : Chars) → scan true (base_slug lower fallback name) ≡ true
  unfolding base_slug is_empty
  scan-base_slug name = elim (scan-slugify lower name (laws.no_uppercase name)) [
    | inl e ↦ ground (arith, plain)
    | inr h ↦ ground (arith, plain)
  ]

  scan-candidate :
      (fuel n : ℕ) (p : Chars → Bool) (name c : Chars)
      → unique_loop fuel p (base_slug lower fallback name) (base_slug lower fallback name) n
        ≡ some c
      → scan true c ≡ true
  scan-candidate fuel n p name c e =
      elim (unique_loop_shape (base_slug lower fallback name) fuel p _ c n e) [
        | inl first ↦ rw (← first) (scan-base_slug name)
        | inr (m, later, bound) ↦ rw (← later) (
            unfold numbered in
            scan-append true (base_slug lower fallback name) (decimal m) (scan-base_slug name)
              (scan-digits true (decimal m) (all-decimal m) (λ q. absurd (decimal-ne-nil m q))))
      ]

  -- What both slug searches promise for a table of slugs.
  unique_slug_lem :
      (slugs : List Chars) (name : Chars)
      → (c : Chars) × (unique_slug lower fallback (length slugs + 1) (is_taken slugs) name ≡ some c)
        × (is_taken slugs c ≡ false)
        × (validate_slug_format c ≡ ok tt)
  unfolding unique_slug
  unique_slug_lem slugs name =
      let base = base_slug lower fallback name in
      let fuel = length slugs + 1 in
      let taken = is_taken slugs in
      let (c, e) =
        unique_loop_ends base fuel slugs base 2 (λ m j. base-ne-numbered base m) (omega arith) in
      (
        c,
        e,
        unique_loop_free base fuel taken base c 2 e,
        valid_of_scan c (scan-candidate fuel 2 taken name c e),
      )

module _ (lower : Chars → Chars) (laws : LowercaseLaws lower) (slugs : List Chars)
    (name : Chars) where
  -- Where `to_lowercase` obeys `LowercaseLaws`: with one round for each row and one more, `unique_team_slug` returns a slug; no row has it, and
  -- it has the format that `validate_slug_format` accepts.
  pub unique_team_slug_total :
      (c : Chars) × (unique_team_slug lower (length slugs + 1) (is_taken slugs) name ≡ some c)
      × (is_taken slugs c ≡ false)
      × (validate_slug_format c ≡ ok tt)
  unfolding unique_team_slug scan
  unique_team_slug_total = unique_slug_lem lower laws (codes "team") refl slugs name

  -- Where `to_lowercase` obeys `LowercaseLaws`: with one round for each row and one more, `unique_org_slug` returns a slug; no row has it, and it
  -- has the format that `validate_slug_format` accepts.
  pub unique_org_slug_total :
      (c : Chars) × (unique_org_slug lower (length slugs + 1) (is_taken slugs) name ≡ some c)
      × (is_taken slugs c ≡ false)
      × (validate_slug_format c ≡ ok tt)
  unfolding unique_org_slug scan
  unique_org_slug_total = unique_slug_lem lower laws (codes "org") refl slugs name

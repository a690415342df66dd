-- ===== src/Slug/Format.antt =====
-- `slugify` against `validate_slug_format`.
use mathlib.Core.List.{reverse, reverse_aux, reverse-reverse}
use ullav_user_management.Prelude.{
  ℕ, ◌≡◌, ◌≢◌, refl, sym, ap, ◌∙◌, ◌⊎◌, inl, inr, ◌↔◌, Bool, true, false, not, ◌&&◌, [], ◌∷◌, arith,
  ◌==◌, if◌then◌else◌, Chars, all,
}
use ullav_user_management.Errors.{ok}
use ullav_user_management.Slug.{
  hyphen, is_ascii_uppercase, is_slug_char, slug_step, slug_loop, pop_hyphens, slugify,
  ends_with_hyphen, contains_double_hyphen, is_valid_slug, validate_slug_format,
}

-- The slug format as a scan from the left; `h`: the character before was a hyphen, or the start.
unfoldable pub scan : Bool → Chars → Bool
scan h [] = not h
scan h (c ∷ s) = if c == hyphen then not h && scan true s else is_slug_char c && scan false s

-- The same from the right, for the slug that the loop holds: it may end in a hyphen.
at_hyphen : Chars → Bool
at_hyphen [] = true
at_hyphen (c ∷ s) = c == hyphen

scan_back : Chars → Bool
unfolding at_hyphen
scan_back [] = true
scan_back (c ∷ s) =
    if c == hyphen then not (at_hyphen s) && scan_back s else is_slug_char c && scan_back s

-- no character is an upper-case ASCII letter
abbrev pub NoUppercase : Chars → Type 0
NoUppercase s = all (λ c. not (is_ascii_uppercase c)) s ≡ true

scan_lem :
    (c : ℕ) (s : Chars)
    → scan (c == hyphen) s ≡ (
        not (ends_with_hyphen (c ∷ s))
        && not (contains_double_hyphen (c ∷ s))
        && all is_slug_char s)
unfolding scan ends_with_hyphen contains_double_hyphen
scan_lem c [] = ground arith
scan_lem c (d ∷ s) = ground (arith, scan_lem d s)

pub is_valid_slug-scan : (s : Chars) → is_valid_slug s ≡ scan true s
unfolding is_valid_slug scan
is_valid_slug-scan [] = refl
is_valid_slug-scan (c ∷ s) = ground (arith, scan_lem c s)

pub valid_of_scan : (s : Chars) → scan true s ≡ true → validate_slug_format s ≡ ok tt
unfolding validate_slug_format
valid_of_scan s h = rw (is_valid_slug-scan s ∙ h)

-- What the loop keeps: the slug so far scans, and the flag tells its last character.
abbrev Keeps : Chars × Bool → Type 0
Keeps st = (scan_back st.0 ≡ true) × (at_hyphen st.0 ≡ st.1)

slug_step-Keeps :
    (st : Chars × Bool) (c : ℕ)
    → Keeps st
    → not (is_ascii_uppercase c) ≡ true
    → Keeps (slug_step st c)
unfolding scan_back slug_step at_hyphen
slug_step-Keeps (slug, h) c k u = ground arith

slug_loop-Keeps :
    (st : Chars × Bool) (s : Chars) → Keeps st → NoUppercase s → Keeps (slug_loop st s)
unfolding slug_loop
slug_loop-Keeps st [] k u = k
slug_loop-Keeps st (c ∷ s) k u =
    slug_loop-Keeps (slug_step st c) s (slug_step-Keeps st c k (ground arith)) (ground arith)

-- After the trailing hyphens are popped.
pop_hyphens-scan_back :
    (s : Chars)
    → scan_back s ≡ true
    → (pop_hyphens s ≡ [])
      ⊎ ((scan_back (pop_hyphens s) ≡ true) × (at_hyphen (pop_hyphens s) ≡ false))
unfolding scan_back pop_hyphens at_hyphen
pop_hyphens-scan_back [] h = ground arith
pop_hyphens-scan_back (c ∷ s) h = ground (arith, pop_hyphens-scan_back s)

scan-reverse_aux :
    (s acc : Chars)
    → scan_back s ≡ true
    → scan (at_hyphen s) acc ≡ true
    → scan true (reverse_aux s acc) ≡ true
unfolding scan scan_back at_hyphen
scan-reverse_aux [] acc h k = k
scan-reverse_aux (c ∷ s) acc h k = scan-reverse_aux s (c ∷ acc) (ground arith) (ground arith)

pub scan-slugify :
    (lower : Chars → Chars) (name : Chars)
    → NoUppercase (lower name)
    → (slugify lower name ≡ []) ⊎ (scan true (slugify lower name) ≡ true)
unfolding slugify
scan-slugify lower name u =
    elim (pop_hyphens-scan_back slug
      (slug_loop-Keeps ([], true) (lower name) (unfold scan_back at_hyphen in (refl, refl)) u).0) [
        | inl none_left ↦ inl (ap reverse none_left)
        | inr (good, plain) ↦
            inr (scan-reverse_aux (pop_hyphens slug) [] good (rw plain (unfold scan in refl)))
      ]
  where
    slug : Chars
    slug = (slug_loop ([], true) (lower name)).0

-- Where the lower-case form of the name has no ASCII capital, the slug derived from it is empty or has the format that `validate_slug_format` accepts.
pub slugify-valid :
    (lower : Chars → Chars) (name : Chars)
    → NoUppercase (lower name)
    → (slugify lower name ≡ []) ⊎ (validate_slug_format (slugify lower name) ≡ ok tt)
slugify-valid lower name u = elim (scan-slugify lower name u) [
  | inl e ↦ inl e
  | inr h ↦ inr (valid_of_scan (slugify lower name) h)
]

-- A slug that scans passes the loop unchanged.
slug_loop-scan :
    (slug : Chars) (h : Bool) (s : Chars)
    → scan h s ≡ true
    → (slug_loop (slug, h) s).0 ≡ reverse_aux s slug
unfolding slug_loop slug_step scan
slug_loop-scan slug h [] k = refl
slug_loop-scan slug h (c ∷ s) k =
    ground (arith, slug_loop-scan (c ∷ slug) true s, slug_loop-scan (c ∷ slug) false s)

pop_hyphens-scan :
    (h : Bool) (s slug : Chars)
    → scan h s ≡ true
    → at_hyphen slug ≡ h
    → (s ≡ [] → slug ≢ [])
    → pop_hyphens (reverse_aux s slug) ≡ reverse_aux s slug
unfolding scan pop_hyphens at_hyphen
pop_hyphens-scan h [] [] k e n = refl
pop_hyphens-scan h [] (d ∷ slug) k e n = ground arith
pop_hyphens-scan h (c ∷ s) slug k e n =
    ground (arith, pop_hyphens-scan true s (c ∷ slug), pop_hyphens-scan false s (c ∷ slug))

all-scan : (h : Bool) (s : Chars) → scan h s ≡ true → all is_slug_char s ≡ true
unfolding scan
all-scan h [] k = refl
all-scan h (c ∷ s) k = ground (arith, all-scan true s, all-scan false s)

-- What is used of `str::to_lowercase`: no upper-case ASCII letter is left, and text of lower-case
-- ASCII letters, digits and hyphens is unchanged.
pub record LowercaseLaws (lower : Chars → Chars) : Type 0 where
  pub no_uppercase : (s : Chars) → NoUppercase (lower s)
  pub keeps_lowercase : (s : Chars) → all is_slug_char s ≡ true → lower s ≡ s

module _ (lower : Chars → Chars) (laws : LowercaseLaws lower) where
  scan_of_valid : (s : Chars) → validate_slug_format s ≡ ok tt → scan true s ≡ true
  unfolding validate_slug_format
  scan_of_valid s h = sym (is_valid_slug-scan s) ∙ ground arith

  slugify_fixed : (s : Chars) → scan true s ≡ true → slugify lower s ≡ s
  unfolding slugify
  slugify_fixed [] h = unfold scan in cc
  slugify_fixed (c ∷ s) h = rw (laws.keeps_lowercase (c ∷ s) (all-scan true (c ∷ s) h)) (
      ap reverse (
        ap pop_hyphens (slug_loop-scan [] true (c ∷ s) h)
        ∙ pop_hyphens-scan true (c ∷ s) [] h (unfold at_hyphen in refl) (λ e. cc))
      ∙ reverse-reverse (c ∷ s))

  -- Where `to_lowercase` obeys `LowercaseLaws`, a string is accepted as a slug exactly when it is not empty and `slugify` leaves it unchanged.
  pub valid_slug_iff_fixed :
      (s : Chars) → (validate_slug_format s ≡ ok tt) ↔ ((slugify lower s ≡ s) × (s ≢ []))
  valid_slug_iff_fixed s = (forth, back)
    where
      forth : validate_slug_format s ≡ ok tt → (slugify lower s ≡ s) × (s ≢ [])
      forth h = (slugify_fixed s (scan_of_valid s h), λ e. not_empty e)
        where
          not_empty : s ≡ [] → ⊥
          not_empty e = unfold scan in cc (e, scan_of_valid s h)

      back : (slugify lower s ≡ s) × (s ≢ []) → validate_slug_format s ≡ ok tt
      back (e, n) = elim (slugify-valid lower s (laws.no_uppercase s)) [
        | inl empty ↦ absurd (n (sym e ∙ empty))
        | inr valid ↦ rw e at valid
      ]

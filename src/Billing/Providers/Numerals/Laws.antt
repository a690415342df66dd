-- ===== src/Billing/Providers/Numerals/Laws.antt =====
-- An `i16` that is printed is parsed again.
use ullav_user_management.Prelude.{
  ℕ, suc, ◌≤◌, ◌≡◌, ◌≢◌, ◌∙◌, ap, refl, true, some, [], ◌∷◌, Chars, all, arith,
}
use ullav_user_management.Prelude.Int.{ℤ, pos, negsuc}
use ullav_user_management.Slug.Decimal.{
  decimal, is_digit, value_from, value_from-decimal, all-decimal, decimal-ne-nil,
}
use ullav_user_management.Billing.Providers.Numerals.{
  i16_to_string, parse_i16, digits_value, positive_i16, negative_i16,
}

digits_value_lem :
    (s : Chars) → s ≢ [] → all is_digit s ≡ true → digits_value s ≡ some (value_from 0 s)
digits_value_lem [] n h = absurd (n refl)
digits_value_lem (c ∷ s) n h = rw h refl

unsigned :
    (s : Chars) → s ≢ [] → all is_digit s ≡ true → parse_i16 s ≡ positive_i16 (digits_value s)
unfolding parse_i16
unsigned [] n h = absurd (n refl)
unsigned (c ∷ s) n h = ground (arith, h)

-- The values of an `i16`.
abbrev pub IsI16 : ℤ → Type 0
IsI16 (pos n) = n ≤ 32767
IsI16 (negsuc n) = n ≤ 32767

in_range : (n : ℕ) → n ≤ 32767 → positive_i16 (some n) ≡ some (pos n)
in_range n h = ground (arith, h)

in_range_negative : (n : ℕ) → n ≤ 32767 → negative_i16 (some (suc n)) ≡ some (negsuc n)
in_range_negative n h = ground (arith, h)

decimal_value : (n : ℕ) → digits_value (decimal n) ≡ some n
decimal_value n =
    digits_value_lem (decimal n) (decimal-ne-nil n) (all-decimal n) ∙ ap some (value_from-decimal n)

negated : (s : Chars) → parse_i16 (b'-' ∷ s) ≡ negative_i16 (digits_value s)
unfolding parse_i16
negated s = refl

pub parse_i16-i16_to_string : (z : ℤ) → IsI16 z → parse_i16 (i16_to_string z) ≡ some z
unfolding i16_to_string
parse_i16-i16_to_string (pos n) h =
    unsigned (decimal n) (decimal-ne-nil n) (all-decimal n)
    ∙ ap positive_i16 (decimal_value n)
    ∙ in_range n h
parse_i16-i16_to_string (negsuc n) h =
    negated (decimal (suc n)) ∙ ap negative_i16 (decimal_value (suc n)) ∙ in_range_negative n h

-- ===== src/Billing/Providers/Numerals.antt =====
-- Rust's `i16`: `max` with a small constant, `to_string`, and `parse::<i16>` on a text.
pub mod Laws
use ullav_user_management.Prelude.{
  ℕ, suc, ◌+◌, ◌-◌, ◌*◌, ◌≤◌, ◌≡◌, refl, Bool, true, false, ◌&&◌, Option, none, some, [], ◌∷◌, leb,
  ◌==◌, if◌then◌else◌, Chars, all, arith,
}
use ullav_user_management.Prelude.Int.{ℤ, pos, negsuc}
use ullav_user_management.Slug.Decimal.{decimal, is_digit, value_from}

-- `z.max(n)`, for a natural number `n`.
abbrev pub at_least : ℕ → ℤ → ℕ
at_least n (pos m) = if leb n m then m else n
at_least n (negsuc m) = n

unfoldable pub i16_to_string : ℤ → Chars
i16_to_string (pos n) = decimal n
i16_to_string (negsuc n) = b'-' ∷ decimal (suc n)

-- One or more digits, as a number.
abbrev pub digits_value : Chars → Option ℕ
digits_value [] = none
digits_value (c ∷ s) = if all is_digit (c ∷ s) then some (value_from 0 (c ∷ s)) else none

abbrev pub positive_i16 : Option ℕ → Option ℤ
positive_i16 none = none
positive_i16 (some n) = if leb n 32767 then some (pos n) else none

abbrev pub negative_i16 : Option ℕ → Option ℤ
negative_i16 none = none
negative_i16 (some n) =
    if n == 0 then some (pos 0) else if leb n 32768 then some (negsuc (n - 1)) else none

-- A sign may come first; a value out of range is an error.
unfoldable pub parse_i16 : Chars → Option ℤ
parse_i16 [] = none
parse_i16 (c ∷ s) =
    if c == b'-'
    then negative_i16 (digits_value s)
    else if c == b'+'
    then positive_i16 (digits_value s)
    else positive_i16 (digits_value (c ∷ s))

-- ===== src/Slug/Decimal.antt =====
-- `{n}` of `format!("{base}-{n}")`: decimal digits, most significant first.
use ullav_user_management.Prelude.{
  ℕ, zero, suc, ◌+◌, ◌-◌, ◌*◌, ◌/◌, ◌%◌, ◌<◌, ◌≡◌, ◌≢◌, refl, sym, ap, ◌∙◌, Bool, true, ◌&&◌, [],
  ◌∷◌, ◌++◌, arith, ltb, leb, if◌then◌else◌, Chars, codes, all,
}

-- The digits of a number below the fuel.
unfoldable pub digits : ℕ → ℕ → Chars
digits zero n = []
digits (suc fuel) n =
    let front = digits fuel (n / 10) in
    if ltb n 10 then (b'0' + n) ∷ [] else front ++ (b'0' + n % 10) ∷ []

unfoldable pub decimal : ℕ → Chars
unfolding digits
decimal n = digits (suc n) n

abbrev pub value_from : ℕ → Chars → ℕ
value_from acc [] = acc
value_from acc (c ∷ s) = value_from (acc * 10 + (c - b'0')) s

value_from-append :
    (acc c : ℕ) (s : Chars) → value_from acc (s ++ c ∷ []) ≡ value_from acc s * 10 + (c - b'0')
value_from-append acc c [] = refl
value_from-append acc c (d ∷ s) = value_from-append (acc * 10 + (d - b'0')) c s

value_from_one : (n : ℕ) → value_from 0 ((b'0' + n) ∷ []) ≡ n
value_from_one n = omega arith

value_from-digits : (fuel n : ℕ) → n < fuel → value_from 0 (digits fuel n) ≡ n
unfolding digits
value_from-digits zero n h = absurd (omega arith)
value_from-digits (suc fuel) n h = ground (
  arith,
  value_from-digits fuel (n / 10),
  value_from-append 0 (b'0' + n % 10) (digits fuel (n / 10)),
  value_from_one n,
)

-- The digits of a number are read back as the number.
pub value_from-decimal : (n : ℕ) → value_from 0 (decimal n) ≡ n
unfolding decimal
value_from-decimal n = value_from-digits (suc n) n (omega arith)

pub decimal_injective : (m n : ℕ) → decimal m ≡ decimal n → m ≡ n
unfolding decimal
decimal_injective m n e =
    sym (value_from-digits (suc m) m (omega arith))
    ∙ ap (value_from 0) e
    ∙ value_from-digits (suc n) n (omega arith)

abbrev pub is_digit : ℕ → Bool
is_digit c = leb b'0' c && leb c b'9'

all-append_digit :
    (s : Chars) (c : ℕ)
    → all is_digit s ≡ true
    → is_digit c ≡ true
    → all is_digit (s ++ c ∷ []) ≡ true
all-append_digit [] c h k = ground arith
all-append_digit (d ∷ s) c h k = ground (arith, all-append_digit s c)

all-digits : (fuel n : ℕ) → all is_digit (digits fuel n) ≡ true
unfolding digits
all-digits zero n = refl
all-digits (suc fuel) n =
    ground
      (arith, all-digits fuel (n / 10), all-append_digit (digits fuel (n / 10)) (b'0' + n % 10))

pub all-decimal : (n : ℕ) → all is_digit (decimal n) ≡ true
unfolding decimal
all-decimal n = all-digits (suc n) n

decimal_runs : (decimal 2 ≡ codes "2") × (decimal 10 ≡ codes "10") × (decimal 4096 ≡ codes "4096")
unfolding decimal
decimal_runs = (refl, refl, refl)

append-ne-nil : (s : Chars) (c : ℕ) → s ++ c ∷ [] ≢ []
append-ne-nil [] c e = cc
append-ne-nil (d ∷ s) c e = cc

pub decimal-ne-nil : (n : ℕ) → decimal n ≢ []
unfolding decimal
decimal-ne-nil n = ground (arith, append-ne-nil (digits n (n / 10)) (b'0' + n % 10))

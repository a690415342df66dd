-- ===== src/Prelude/Int.antt =====
-- Signed integers, for the `i64` parameters of requests. `negsuc n` is -(n + 1).
use Prim.Native.Nat.{ℕ}
use mathlib.Core.Bool.{Bool, true}
use ullav_user_management.Prelude.Tests.{leb}

pub data ℤ : Type 0 where
  pos : ℕ → ℤ
  negsuc : ℕ → ℤ

-- `x <= n`, for a natural number `n`.
abbrev pub le_nat : ℤ → ℕ → Bool
le_nat (pos m) n = leb m n
le_nat (negsuc m) n = true

-- The integer as a natural number, where it is not negative.
abbrev pub magnitude : ℤ → ℕ
magnitude (pos m) = m
magnitude (negsuc m) = 0

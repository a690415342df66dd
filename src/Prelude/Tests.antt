-- ===== src/Prelude/Tests.antt =====
-- Boolean tests on numbers, texts and code-point lists, with what they decide.
use Prim.Native.Nat.{ℕ, ◌≤◌, ◌<◌, compare, Ordering}
use Prim.Native.Char.{code}
use Prim.Native.String.{String}
use mathlib.Core.Path.{◌≡◌, refl}
use mathlib.Core.Logic.{◌⊎◌, inl, inr, ◌↔◌}
use mathlib.Core.Bool.{Bool, true, false, not, ◌&&◌}
use mathlib.Core.Option.{Option, none, some}
use mathlib.Core.List.{List, [], ◌∷◌}
use native.Mathlib.Omega.{arith}
use text.Mathlib.Text.{◌==◌ as str_eq}

abbrev pub ltb : ℕ → ℕ → Bool
ltb a b = elim (compare a b) [ Ordering.lt ↦ true | _ ↦ false ]

abbrev pub leb : ℕ → ℕ → Bool
leb a b = elim (compare a b) [ Ordering.gt ↦ false | _ ↦ true ]

infix 50 ◌==◌
abbrev pub ◌==◌ : ℕ → ℕ → Bool
a == b = elim (compare a b) [ Ordering.eq ↦ true | _ ↦ false ]

-- Equality of strings.
abbrev pub same : String → String → Bool
same s t = str_eq s t

infix 1 if◌then◌else◌
abbrev pub if◌then◌else◌ {ℓ} : {A : Type ℓ} → Bool → A → A → A
if true then x else y = x
if false then x else y = y

pub ==_iff : (a b : ℕ) → ((a == b) ≡ true) ↔ (a ≡ b)
==_iff a b = (λ h. ground arith, λ h. ground arith)

pub to_eq : {a b : ℕ} → a ≡ b → (a == b) ≡ true
to_eq {a = a} {b = b} h = ground arith

pub of_eq : {a b : ℕ} → (a == b) ≡ true → a ≡ b
of_eq {a = a} {b = b} h = ground arith

pub to_and : {a b : Bool} → a ≡ true → b ≡ true → (a && b) ≡ true
to_and {a = a} {b = b} h k = ground arith

pub of_and : {a b : Bool} → (a && b) ≡ true → (a ≡ true) × (b ≡ true)
of_and {a = true} {b = b} h = (refl, h)
of_and {a = false} {b = b} h = absurd (ground arith)

pub of_not : {a : Bool} → not a ≡ true → a ≡ false
of_not {a = a} h = ground arith

pub to_not : {a : Bool} → a ≡ false → not a ≡ true
to_not {a = a} h = ground arith

pub ltb→lt : (a b : ℕ) → ltb a b ≡ true → a < b
ltb→lt a b h = ground arith

pub lt→ltb : (a b : ℕ) → a < b → ltb a b ≡ true
lt→ltb a b h = ground arith

pub leb→le : (a b : ℕ) → leb a b ≡ true → a ≤ b
leb→le a b h = ground arith

-- To split on a computed value and keep the equation.
pub Bool-cases : (b : Bool) → (b ≡ true) ⊎ (b ≡ false)
Bool-cases true = inl refl
Bool-cases false = inr refl

pub Option-cases {ℓ} : {A : Type ℓ} (o : Option A) → (o ≡ none) ⊎ ((a : A) × (o ≡ some a))
Option-cases none = inl refl
Option-cases (some a) = inr (a, refl)

-- A string that the program takes apart is the list of its code points.
abbrev pub Chars : Type 0
Chars = List ℕ

abbrev pub codes : String → Chars
codes String.[] = []
codes (String.◌∷◌ c s) = code c ∷ codes s

abbrev pub same_chars : Chars → Chars → Bool
same_chars [] [] = true
same_chars (a ∷ s) (b ∷ t) = a == b && same_chars s t
same_chars _ _ = false

pub same_chars_iff : (s t : Chars) → (same_chars s t ≡ true) ↔ (s ≡ t)
same_chars_iff [] [] = ground arith
same_chars_iff [] (b ∷ t) = ground arith
same_chars_iff (a ∷ s) [] = ground arith
same_chars_iff (a ∷ s) (b ∷ t) = ground (arith, same_chars_iff s t)

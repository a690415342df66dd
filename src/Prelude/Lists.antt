-- ===== src/Prelude/Lists.antt =====
-- Lists as table rows: length, tests over all rows, selection, membership.
use Prim.Native.Nat.{ℕ, suc, ◌+◌}
use mathlib.Core.Path.{◌≡◌, refl, ap}
use mathlib.Core.Logic.{◌⊎◌, inl, inr}
use mathlib.Core.Bool.{Bool, true, false, ◌&&◌, ◌||◌}
use mathlib.Core.Option.{Option, none, some}
use mathlib.Core.List.{List, [], ◌∷◌, ◌++◌}
use native.Mathlib.Omega.{arith}
use ullav_user_management.Prelude.Tests.{if◌then◌else◌, Bool-cases}

module _ {ℓ} {A : Type ℓ} where
  abbrev pub length : List A → ℕ
  length [] = 0
  length (x ∷ xs) = suc (length xs)

  pub length-append : (xs ys : List A) → length (xs ++ ys) ≡ length xs + length ys
  length-append [] ys = omega arith
  length-append (x ∷ xs) ys = omega (arith, length-append xs ys)

  abbrev pub any : (A → Bool) → List A → Bool
  any p [] = false
  any p (x ∷ xs) = p x || any p xs

  abbrev pub all : (A → Bool) → List A → Bool
  all p [] = true
  all p (x ∷ xs) = p x && all p xs

  -- The rows that pass a test: the WHERE of a SELECT.
  abbrev pub select : (A → Bool) → List A → List A
  select p [] = []
  select p (x ∷ xs) = let rest = select p xs in if p x then x ∷ rest else rest

  abbrev pub find : (A → Bool) → List A → Option A
  find p [] = none
  find p (x ∷ xs) = let rest = find p xs in if p x then some x else rest

  -- UPDATE: `f` on the rows that pass the test.
  abbrev pub update_where : (A → Bool) → (A → A) → List A → List A
  update_where p f [] = []
  update_where p f (x ∷ xs) = (if p x then f x else x) ∷ update_where p f xs

module _ {ℓ κ} {A : Type ℓ} (P : A → Type κ) where
  abbrev pub All : List A → Type κ
  All [] = Unit
  All (x ∷ xs) = P x × All xs

module _ {ℓ} {A : Type ℓ} (P : A → Type 0) where
  abbrev pub Any : List A → Type 0
  Any [] = ⊥
  Any (x ∷ xs) = P x ⊎ Any xs

module _ {A : Type 0} where
  -- `x` is one of the rows.
  abbrev pub Mem : A → List A → Type 0
  Mem x xs = Any (λ y. y ≡ x) xs

  pub any_of : (p : A → Bool) (x : A) (xs : List A) → Mem x xs → p x ≡ true → any p xs ≡ true
  any_of p x [] i h = absurd i
  any_of p x (y ∷ ys) (inl e) h = rw (e, h) refl
  any_of p x (y ∷ ys) (inr i) h = ground (arith, any_of p x ys i h)

  pub of_any : (p : A → Bool) (xs : List A) → any p xs ≡ true → (x : A) × Mem x xs × (p x ≡ true)
  of_any p [] h = absurd (ground arith)
  of_any p (x ∷ xs) h = elim (Bool-cases (p x)) [
    | inl e ↦ (x, inl refl, e)
    | inr e ↦ let (y, i, k) = of_any p xs (rw e at h) in (y, inr i, k)
  ]

  pub of_find : (p : A → Bool) (x : A) (xs : List A) → find p xs ≡ some x → Mem x xs × (p x ≡ true)
  of_find p x [] h = absurd (ground arith)
  of_find p x (y ∷ ys) h = elim (Bool-cases (p y)) [
    | inl e ↦ ground arith
    | inr e ↦ let (i, k) = of_find p x ys (rw e at h) in (inr i, k)
  ]

  pub of_select :
      (p : A → Bool) (x : A) (xs : List A) → Mem x (select p xs) → Mem x xs × (p x ≡ true)
  of_select p x [] i = absurd i
  of_select p x (y ∷ ys) h = elim (Bool-cases (p y)) [
    | inl e ↦ elim (rw e at h) [
      | inl k ↦ ground arith
      | inr i ↦ let (j, k) = of_select p x ys i in (inr j, k)
    ]
    | inr e ↦ let (j, k) = of_select p x ys (rw e at h) in (inr j, k)
  ]

  pub to_select : (p : A → Bool) (x : A) (xs : List A) → Mem x xs → p x ≡ true → Mem x (select p xs)
  to_select p x [] i h = absurd i
  to_select p x (y ∷ ys) (inl e) h = rw (e, h) (inl refl)
  to_select p x (y ∷ ys) (inr i) h = elim (Bool-cases (p y)) [
    | inl e ↦ rw e (inr (to_select p x ys i h))
    | inr e ↦ rw e (to_select p x ys i h)
  ]

  pub of_update :
      (p : A → Bool) (f : A → A) (x : A) (xs : List A)
      → Mem x (update_where p f xs)
      → (y : A) × Mem y xs × ((if p y then f y else y) ≡ x)
  of_update p f x [] i = absurd i
  of_update p f x (y ∷ ys) (inl e) = (y, inl refl, e)
  of_update p f x (y ∷ ys) (inr i) = let (z, j, k) = of_update p f x ys i in (z, inr j, k)

  pub to_update :
      (p : A → Bool) (f : A → A) (x : A) (xs : List A)
      → Mem x xs
      → Mem (if p x then f x else x) (update_where p f xs)
  to_update p f x [] i = absurd i
  to_update p f x (y ∷ ys) (inl e) = inl (ap (λ z. if p z then f z else z) e)
  to_update p f x (y ∷ ys) (inr i) = inr (to_update p f x ys i)

  pub find-none :
      (p : A → Bool) (xs : List A) → ((x : A) → Mem x xs → p x ≡ true → ⊥) → find p xs ≡ none
  find-none p [] h = refl
  find-none p (x ∷ xs) h = elim (Bool-cases (p x)) [
    | inl e ↦ absurd (h x (inl refl) e)
    | inr e ↦ rw e (find-none p xs (λ y i. h y (inr i)))
  ]

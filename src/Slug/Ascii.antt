-- ===== src/Slug/Ascii.antt =====
-- A `to_lowercase` for ASCII text, which obeys the laws that the slugs need: for concrete runs.
use ullav_user_management.Prelude.{
  ℕ, ◌+◌, ◌≡◌, refl, true, [], ◌∷◌, arith, if◌then◌else◌, Chars, all,
}
use ullav_user_management.Slug.{is_ascii_uppercase, is_slug_char}
use ullav_user_management.Slug.Format.{LowercaseLaws, NoUppercase}

-- `to_lowercase` on ASCII text.
lower_char : ℕ → ℕ
lower_char c = if is_ascii_uppercase c then c + 32 else c

unfoldable pub ascii_lower : Chars → Chars
unfolding lower_char
ascii_lower [] = []
ascii_lower (c ∷ s) = lower_char c ∷ ascii_lower s

pub ascii_lower-NoUppercase : (s : Chars) → NoUppercase (ascii_lower s)
unfolding ascii_lower
ascii_lower-NoUppercase [] = refl
ascii_lower-NoUppercase (c ∷ s) = ground (arith, ascii_lower-NoUppercase s)

ascii_lower_fixed : (s : Chars) → all is_slug_char s ≡ true → ascii_lower s ≡ s
unfolding ascii_lower
ascii_lower_fixed [] h = refl
ascii_lower_fixed (c ∷ s) h = ground (arith, ascii_lower_fixed s)

pub ascii_laws : LowercaseLaws ascii_lower
ascii_laws = record { no_uppercase = ascii_lower-NoUppercase; keeps_lowercase = ascii_lower_fixed }

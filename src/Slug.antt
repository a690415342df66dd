-- ===== src/Slug.antt =====
-- The slugs of db/mod.rs: `slugify`, `validate_slug_format`, `unique_team_slug`, `unique_org_slug`.
-- A string is the list of its code points. `to_lowercase` is Rust's Unicode table, a parameter. The
-- string that `slugify` builds is kept back to front: `push` is `∷` and `pop` takes the head.
pub mod Decimal
pub mod Format
pub mod Unique
pub mod Ascii
mod Tests
use mathlib.Core.List.{reverse}
use ullav_user_management.Prelude.{
  ℕ, zero, suc, ◌+◌, String, ◌≡◌, refl, Bool, true, false, not, ◌&&◌, ◌||◌, Option, none, some,
  List, [], ◌∷◌, ◌++◌, leb, ◌==◌, if◌then◌else◌, Chars, codes, all,
}
use ullav_user_management.Errors.{Result, ok, err, validation}
use Decimal.{decimal}

abbrev pub hyphen : ℕ
hyphen = b'-'

abbrev pub is_ascii_digit : ℕ → Bool
is_ascii_digit c = leb b'0' c && leb c b'9'

abbrev pub is_ascii_lowercase : ℕ → Bool
is_ascii_lowercase c = leb b'a' c && leb c b'z'

abbrev pub is_ascii_uppercase : ℕ → Bool
is_ascii_uppercase c = leb b'A' c && leb c b'Z'

abbrev pub is_ascii_alphanumeric : ℕ → Bool
is_ascii_alphanumeric c = is_ascii_digit c || is_ascii_lowercase c || is_ascii_uppercase c

-- One round of the loop: the slug so far and `last_was_hyphen`.
slug_step : Chars × Bool → ℕ → Chars × Bool
slug_step (slug, last_was_hyphen) ch =
    if is_ascii_alphanumeric ch
    then (ch ∷ slug, false)
    else if not last_was_hyphen
    then (hyphen ∷ slug, true)
    else (slug, last_was_hyphen)

slug_loop : Chars × Bool → Chars → Chars × Bool
unfolding slug_step
slug_loop st [] = st
slug_loop st (ch ∷ s) = slug_loop (slug_step st ch) s

-- `while slug.ends_with('-') { slug.pop(); }`
pop_hyphens : Chars → Chars
pop_hyphens [] = []
pop_hyphens (c ∷ slug) = let rest = pop_hyphens slug in if c == hyphen then rest else c ∷ slug

unfoldable pub slugify : (Chars → Chars) → Chars → Chars
unfolding slug_loop pop_hyphens
slugify to_lowercase name = reverse (pop_hyphens (slug_loop ([], true) (to_lowercase name)).0)

is_empty : Chars → Bool
is_empty [] = true
is_empty (c ∷ s) = false

starts_with_hyphen : Chars → Bool
starts_with_hyphen [] = false
starts_with_hyphen (c ∷ s) = c == hyphen

ends_with_hyphen : Chars → Bool
ends_with_hyphen [] = false
ends_with_hyphen (c ∷ []) = c == hyphen
ends_with_hyphen (c ∷ d ∷ s) = ends_with_hyphen (d ∷ s)

-- `slug.contains("--")`
contains_double_hyphen : Chars → Bool
contains_double_hyphen [] = false
contains_double_hyphen (c ∷ []) = false
contains_double_hyphen (c ∷ d ∷ s) = c == hyphen && d == hyphen || contains_double_hyphen (d ∷ s)

abbrev pub is_slug_char : ℕ → Bool
is_slug_char c = is_ascii_lowercase c || is_ascii_digit c || c == hyphen

pub is_valid_slug : Chars → Bool
unfolding is_empty starts_with_hyphen ends_with_hyphen contains_double_hyphen
is_valid_slug slug =
    not (is_empty slug)
    && not (starts_with_hyphen slug)
    && not (ends_with_hyphen slug)
    && not (contains_double_hyphen slug)
    && all is_slug_char slug

unfoldable pub validate_slug_format : Chars → Result (Unit {0})
unfolding is_valid_slug
validate_slug_format slug =
    if is_valid_slug slug
    then ok tt
    else err (validation "slug must be lowercase letters, numbers, and single hyphens only")

-- The `base` of both loops: `"team"` or `"org"` for a name with no letter and no digit.
base_slug : (Chars → Chars) → Chars → Chars → Chars
base_slug to_lowercase fallback name =
    let s = slugify to_lowercase name in if is_empty s then fallback else s

numbered : Chars → ℕ → Chars
unfolding decimal
numbered base n = base ++ hyphen ∷ decimal n

-- The loop on fuel; `taken` is the query for a row with the slug. `none`: the fuel ran out.
unique_loop : ℕ → (Chars → Bool) → Chars → Chars → ℕ → Option Chars
unfolding numbered
unique_loop zero taken base candidate n = none
unique_loop (suc fuel) taken base candidate n =
    let rest = unique_loop fuel taken base (numbered base n) (n + 1) in
    if taken candidate then rest else some candidate

unique_slug : (Chars → Chars) → Chars → ℕ → (Chars → Bool) → Chars → Option Chars
unfolding unique_loop base_slug is_empty
unique_slug to_lowercase fallback fuel taken name =
    let base = base_slug to_lowercase fallback name in unique_loop fuel taken base base 2

unfoldable pub unique_team_slug : (Chars → Chars) → ℕ → (Chars → Bool) → Chars → Option Chars
unfolding unique_slug
unique_team_slug to_lowercase = unique_slug to_lowercase (codes "team")

unfoldable pub unique_org_slug : (Chars → Chars) → ℕ → (Chars → Bool) → Chars → Option Chars
unfolding unique_slug
unique_org_slug to_lowercase = unique_slug to_lowercase (codes "org")

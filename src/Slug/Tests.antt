-- ===== src/Slug/Tests.antt =====
-- Runs of the slug functions, and the theorems about them at concrete names.
use ullav_user_management.Prelude.{
  ◌+◌, ◌≡◌, ◌≢◌, refl, ◌↔◌, ◌⊎◌, false, some, List, [], ◌∷◌, Chars, codes, length,
}
use ullav_user_management.Errors.{ok, err, validation}
use ullav_user_management.Slug.{slugify, validate_slug_format, unique_team_slug, unique_org_slug}
use ullav_user_management.Slug.Format.{slugify-valid, valid_slug_iff_fixed}
use ullav_user_management.Slug.Ascii.{ascii_lower, ascii_lower-NoUppercase, ascii_laws}
use ullav_user_management.Slug.Unique.{is_taken, unique_team_slug_total, unique_org_slug_total}

slugify_tests :
    (slugify ascii_lower (codes "Setanta Dev") ≡ codes "setanta-dev")
    × (slugify ascii_lower (codes "Belfield Grads!!") ≡ codes "belfield-grads")
    × (slugify ascii_lower (codes "  leading/trailing  ") ≡ codes "leading-trailing")
    × (slugify ascii_lower (codes "a---b") ≡ codes "a-b")
    × (slugify ascii_lower (codes "!!!") ≡ codes "")
unfolding slugify ascii_lower
slugify_tests = (refl, refl, refl, refl, refl)

validate_tests :
    (validate_slug_format (codes "setanta-dev") ≡ ok tt)
    × (validate_slug_format (codes "team2") ≡ ok tt)
    × (validate_slug_format (codes "-leading")
        ≡ err (validation "slug must be lowercase letters, numbers, and single hyphens only"))
    × (validate_slug_format (codes "double--hyphen")
        ≡ err (validation "slug must be lowercase letters, numbers, and single hyphens only"))
unfolding validate_slug_format
validate_tests = (refl, refl, refl, refl)

abbrev rows : List Chars
rows = codes "red" ∷ codes "red-2" ∷ codes "blue" ∷ []

unique_test : unique_team_slug ascii_lower 4 (is_taken rows) (codes "Red!") ≡ some (codes "red-3")
unfolding unique_team_slug slugify ascii_lower
unique_test = refl

slugify-valid_example :
    (slugify ascii_lower (codes "A b") ≡ [])
    ⊎ (validate_slug_format (slugify ascii_lower (codes "A b")) ≡ ok tt)
slugify-valid_example =
    slugify-valid ascii_lower (codes "A b") (ascii_lower-NoUppercase (codes "A b"))

valid_slug_iff_fixed_example :
    (validate_slug_format (codes "a-b") ≡ ok tt)
    ↔ ((slugify ascii_lower (codes "a-b") ≡ codes "a-b") × (codes "a-b" ≢ []))
valid_slug_iff_fixed_example = valid_slug_iff_fixed ascii_lower ascii_laws (codes "a-b")

unique_team_slug_total_example :
    (c : Chars) × (unique_team_slug ascii_lower (length rows + 1) (is_taken rows) (codes "Red!")
      ≡ some c)
    × (is_taken rows c ≡ false)
    × (validate_slug_format c ≡ ok tt)
unique_team_slug_total_example = unique_team_slug_total ascii_lower ascii_laws rows (codes "Red!")

unique_org_slug_total_test :
    (c : Chars) × (unique_org_slug ascii_lower (length rows + 1) (is_taken rows) (codes "???")
      ≡ some c)
    × (is_taken rows c ≡ false)
    × (validate_slug_format c ≡ ok tt)
unique_org_slug_total_test = unique_org_slug_total ascii_lower ascii_laws rows (codes "???")

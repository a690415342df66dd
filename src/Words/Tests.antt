-- ===== src/Words/Tests.antt =====
-- The round trip of words at a concrete list.
use ullav_user_management.Prelude.{◌≡◌, [], ◌∷◌, codes, refl, arith}
use ullav_user_management.Words.{split_whitespace, join, is_whitespace}
use ullav_user_management.Words.Laws.{split_whitespace-join}

split_join_test :
    split_whitespace (join (codes "openid" ∷ codes "email" ∷ []))
    ≡ codes "openid" ∷ codes "email" ∷ []
unfolding is_whitespace
split_join_test =
    split_whitespace-join (codes "openid" ∷ codes "email" ∷ [])
      ((refl, λ e. ground (arith, e)), ((refl, λ e. ground (arith, e)), tt))

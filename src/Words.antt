-- ===== src/Words.antt =====
-- Rust's `char::is_whitespace`, `str::trim`, `split_whitespace` and `join(" ")`, over code points.
pub mod Laws
mod Tests
use mathlib.Core.List.{reverse}
use ullav_user_management.Prelude.{
  ℕ, Bool, true, false, ◌&&◌, ◌||◌, List, [], ◌∷◌, ◌++◌, leb, ◌==◌, if◌then◌else◌, Chars,
}

-- The Unicode property `White_Space`.
unfoldable pub is_whitespace : ℕ → Bool
is_whitespace c =
    leb 0x9 c && leb c 0xd
    || c == 0x20
    || c == 0x85
    || c == 0xa0
    || c == 0x1680
    || leb 0x2000 c && leb c 0x200a
    || c == 0x2028
    || c == 0x2029
    || c == 0x202f
    || c == 0x205f
    || c == 0x3000

trim_start : Chars → Chars
trim_start [] = []
trim_start (c ∷ s) = let rest = trim_start s in if is_whitespace c then rest else c ∷ s

unfoldable pub trim : Chars → Chars
unfolding trim_start is_whitespace
trim s = reverse (trim_start (reverse (trim_start s)))

-- A word is ended by whitespace; `word` is what was read of it, back to front.
end_word : Chars → List Chars → List Chars
end_word [] ws = ws
end_word (c ∷ word) ws = reverse (c ∷ word) ∷ ws

split_from : Chars → Chars → List Chars
unfolding end_word
split_from word [] = end_word word []
split_from word (c ∷ s) =
    let rest = split_from [] s in
    let more = split_from (c ∷ word) s in if is_whitespace c then end_word word rest else more

unfoldable pub split_whitespace : Chars → List Chars
unfolding split_from is_whitespace
split_whitespace s = split_from [] s

unfoldable pub join : List Chars → Chars
join [] = []
join (w ∷ []) = w
join (w ∷ v ∷ ws) = w ++ 0x20 ∷ join (v ∷ ws)

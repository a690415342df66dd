-- ===== src/Words/Laws.antt =====
-- Words that are joined by a space are found again.
use mathlib.Core.List.{reverse, reverse_aux, reverse-reverse, append-nil, append_assoc}
use ullav_user_management.Prelude.{
  ℕ, Bool, Bool-cases, inl, inr, ◌≡◌, ◌≢◌, refl, sym, ap, ◌∙◌, true, not, List, [], ◌∷◌, ◌++◌,
  arith, Chars, all, All,
}
use ullav_user_management.Words.{is_whitespace, end_word, split_from, split_whitespace, join}

-- A word: not empty, and without whitespace.
abbrev pub IsWord : Chars → Type 0
IsWord w = (all (λ c. not (is_whitespace c)) w ≡ true) × (w ≢ [])

split_from-append :
    (word w s : Chars)
    → all (λ c. not (is_whitespace c)) w ≡ true
    → split_from word (w ++ s) ≡ split_from (reverse_aux w word) s
unfolding split_from
split_from-append word [] s h = refl
split_from-append word (c ∷ w) s h = ground (arith, split_from-append (c ∷ word) w s)

end_word-cons : (x : Chars) (ws : List Chars) → x ≢ [] → end_word x ws ≡ reverse x ∷ ws
unfolding end_word
end_word-cons [] ws n = absurd (n refl)
end_word-cons (c ∷ x) ws n = refl

end_word-reverse : (w : Chars) (ws : List Chars) → w ≢ [] → end_word (reverse_aux w []) ws ≡ w ∷ ws
end_word-reverse w ws n =
    end_word-cons (reverse w) ws (λ e. n (sym (reverse-reverse w) ∙ ap reverse e))
    ∙ ap (λ v. v ∷ ws) (reverse-reverse w)

split_from_end : (w : Chars) → split_from w [] ≡ end_word w []
unfolding split_from
split_from_end w = refl

split_from_space : (w s : Chars) → split_from w (0x20 ∷ s) ≡ end_word w (split_from [] s)
unfolding split_from is_whitespace
split_from_space w s = refl

-- Splitting what `join(" ")` wrote gives the words back.
pub split_whitespace-join : (ws : List Chars) → All IsWord ws → split_whitespace (join ws) ≡ ws
unfolding split_whitespace join
split_whitespace-join [] h = refl
split_whitespace-join (w ∷ []) h =
    ap (split_from []) (sym (append-nil w))
    ∙ split_from-append [] w [] h.0.0
    ∙ split_from_end (reverse_aux w [])
    ∙ end_word-reverse w [] h.0.1
split_whitespace-join (w ∷ v ∷ ws) h =
    split_from-append [] w (0x20 ∷ join (v ∷ ws)) h.0.0
    ∙ split_from_space (reverse_aux w []) (join (v ∷ ws))
    ∙ end_word-reverse w (split_from [] (join (v ∷ ws))) h.0.1
    ∙ ap (λ r. w ∷ r) (split_whitespace-join (v ∷ ws) h.1)

all-reverse_aux :
    (p : ℕ → Bool) (s acc : Chars)
    → all p s ≡ true
    → all p acc ≡ true
    → all p (reverse_aux s acc) ≡ true
all-reverse_aux p [] acc h k = k
all-reverse_aux p (c ∷ s) acc h k =
    all-reverse_aux p s (c ∷ acc) (ground (arith, h)) (ground (arith, h, k))

reverse_aux-ne-nil : (s : Chars) (c : ℕ) (acc : Chars) → reverse_aux s (c ∷ acc) ≢ []
reverse_aux-ne-nil [] c acc e = cc
reverse_aux-ne-nil (d ∷ s) c acc e = reverse_aux-ne-nil s d (c ∷ acc) e

end_word-IsWord :
    (word : Chars) (ws : List Chars)
    → all (λ c. not (is_whitespace c)) word ≡ true
    → All IsWord ws
    → All IsWord (end_word word ws)
unfolding end_word
end_word-IsWord [] ws h k = k
end_word-IsWord (c ∷ word) ws h k = (
  (all-reverse_aux (λ c. not (is_whitespace c)) (c ∷ word) [] h refl, reverse_aux-ne-nil word c []),
  k,
)

split_from-IsWord :
    (word s : Chars) → all (λ c. not (is_whitespace c)) word ≡ true → All IsWord (split_from word s)
unfolding split_from
split_from-IsWord word [] h = end_word-IsWord word [] h tt
split_from-IsWord word (c ∷ s) h = elim (Bool-cases (is_whitespace c)) [
  | inl e ↦ rw e (end_word-IsWord word (split_from [] s) h (split_from-IsWord [] s refl))
  | inr e ↦ rw e (split_from-IsWord (c ∷ word) s (ground (arith, h, e)))
]

-- What is split at whitespace is words.
pub split_whitespace-IsWord : (s : Chars) → All IsWord (split_whitespace s)
unfolding split_whitespace
split_whitespace-IsWord s = split_from-IsWord [] s refl

-- A word is added at the end.
pub join-append :
    (v : Chars) (ws : List Chars) (w : Chars)
    → join ((v ∷ ws) ++ w ∷ []) ≡ join (v ∷ ws) ++ 0x20 ∷ w
unfolding join
join-append v [] w = refl
join-append v (u ∷ ws) w =
    ap (λ r. v ++ 0x20 ∷ r) (join-append u ws w)
    ∙ sym (append_assoc v (0x20 ∷ join (u ∷ ws)) (0x20 ∷ w))

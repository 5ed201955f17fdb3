-- ===== src/Prelude/Text/Trim.antt =====
-- Laws of `trim` and `trim_end`.
use Prim.Native.Nat.{ℕ}
use mathlib.Core.Path.{◌≡◌, refl, ap, ◌∙◌}
use mathlib.Core.Logic.{◌⊎◌, inl, inr}
use mathlib.Core.Bool.{Bool, true, false, ◌&&◌}
use mathlib.Core.List.{[], ◌∷◌, ◌++◌, reverse, reverse_aux, reverse-reverse}
use my_mta.Prelude.Tests.{Bool-cases}
use my_mta.Prelude.Lists.{all, is_empty}
use my_mta.Prelude.Text.{
  Text, split_whitespace, words_from, push_word, trim, is_whitespace, drop_while, trim_end_matches,
}
use my_mta.Prelude.Text.Laws.{Lacks, trim_end_matches-Lacks, trim_end_matches-append}

-- To split on a computed text and keep the equation.
pub text_cases : (s : Text) → (s ≡ []) ⊎ ((c : ℕ) × (t : Text) × (s ≡ c ∷ t))
text_cases [] = inl refl
text_cases (c ∷ t) = inr (c, t, refl)

module _ (p : ℕ → Bool) where
  -- What is trimmed stays.
  pub trim_end_matches_again :
      (s : Text) → trim_end_matches p (trim_end_matches p s) ≡ trim_end_matches p s
  unfolding trim_end_matches
  trim_end_matches_again [] = refl
  trim_end_matches_again (c ∷ s) = elim (text_cases (trim_end_matches p s)) [
    | inl e ↦ elim (Bool-cases (p c)) [
      | inl is_end ↦ rw (trim_end_matches, e, is_end) refl
      | inr stays ↦ rw (trim_end_matches, e, stays) (rw (trim_end_matches, stays) refl)
    ]
    | inr (d, t, e) ↦
        let again : trim_end_matches p (d ∷ t) ≡ d ∷ t = rw e at (trim_end_matches_again s) in
        rw (trim_end_matches, e, again) refl
  ]

  -- Only such characters go.
  pub all-trim_end_matches : (s : Text) → all p (trim_end_matches p s) ≡ all p s
  unfolding trim_end_matches
  all-trim_end_matches [] = refl
  all-trim_end_matches (c ∷ s) = elim (text_cases (trim_end_matches p s)) [
    | inl e ↦
        let rest : true ≡ all p s = rw e at (all-trim_end_matches s) in
        elim (Bool-cases (p c)) [
          | inl is_end ↦ rw (trim_end_matches, e, is_end) rest
          | inr stays ↦ rw (trim_end_matches, e, stays) (rw (stays) refl)
        ]
    | inr (d, t, e) ↦
        let rest : all p (d ∷ t) ≡ all p s = rw e at (all-trim_end_matches s) in
        rw (trim_end_matches, e) (ap (λ b. p c && b) rest)
  ]

  -- Nothing is left of a text of such characters.
  pub trimmed_is_empty : (s : Text) → is_empty (trim_end_matches p (drop_while p s)) ≡ all p s
  unfolding trim_end_matches drop_while
  trimmed_is_empty [] = refl
  trimmed_is_empty (c ∷ s) = elim (Bool-cases (p c)) [
    | inl is_end ↦ rw (drop_while, is_end) (trimmed_is_empty s)
    | inr stays ↦ elim (text_cases (trim_end_matches p s)) [
      | inl e ↦ rw (drop_while, stays, trim_end_matches, e, stays) refl
      | inr (d, t, e) ↦ rw (drop_while, stays, trim_end_matches, e) refl
    ]
  ]

-- What stands before a text that stays is not trimmed.
trim_end_matches_before :
    (p : ℕ → Bool) (s t : Text) (c : ℕ) (u : Text)
    → trim_end_matches p t ≡ c ∷ u
    → trim_end_matches p (s ++ t) ≡ s ++ (c ∷ u)
unfolding trim_end_matches
trim_end_matches_before p [] t c u h = h
trim_end_matches_before p (d ∷ []) t c u h = rw (trim_end_matches, h) refl
trim_end_matches_before p (d ∷ e ∷ s) t c u h =
    rw (trim_end_matches, trim_end_matches_before p (e ∷ s) t c u h) refl

-- A text that begins with a character that is no white space, and ends in a word, is trimmed to the
-- end of the word.
pub trim_to_word :
    (c : ℕ) (s word t : Text)
    → is_whitespace c ≡ false
    → is_empty word ≡ false
    → Lacks is_whitespace word
    → trim_end_matches is_whitespace t ≡ []
    → trim (c ∷ (s ++ (word ++ t))) ≡ c ∷ (s ++ word)
unfolding trim drop_while
trim_to_word c s [] t h n k e = cc
trim_to_word c s (d ∷ word) t h n k e =
    rw (trim, drop_while, h)
      (trim_end_matches_before is_whitespace (c ∷ s) ((d ∷ word) ++ t) d word
        (trim_end_matches-append is_whitespace (d ∷ word) t k e))

-- A word is trimmed to itself.
pub trim_word : (c : ℕ) (s : Text) → Lacks is_whitespace (c ∷ s) → trim (c ∷ s) ≡ c ∷ s
unfolding trim drop_while
trim_word c s h = rw (trim, drop_while, h.0) (trim_end_matches-Lacks is_whitespace (c ∷ s) h)

words_of_one :
    (cur word : Text)
    → Lacks is_whitespace word
    → words_from cur word ≡ push_word (reverse_aux word cur) []
unfolding words_from
words_of_one cur [] h = refl
words_of_one cur (c ∷ word) (h, hs) = rw (words_from, h) (words_of_one (c ∷ cur) word hs)

reverse_aux_ne_nil : (s : Text) (c : ℕ) (t : Text) → is_empty (reverse_aux s (c ∷ t)) ≡ false
reverse_aux_ne_nil [] c t = refl
reverse_aux_ne_nil (d ∷ s) c t = reverse_aux_ne_nil s d (c ∷ t)

push_word_ne_nil : (s : Text) → is_empty s ≡ false → push_word s [] ≡ reverse s ∷ []
unfolding push_word
push_word_ne_nil [] h = cc
push_word_ne_nil (c ∷ s) h = refl

-- A word is its only word.
pub split_whitespace_word :
    (c : ℕ) (word : Text)
    → Lacks is_whitespace (c ∷ word)
    → split_whitespace (c ∷ word) ≡ (c ∷ word) ∷ []
unfolding split_whitespace
split_whitespace_word c word h =
    words_of_one [] (c ∷ word) h
    ∙ push_word_ne_nil (reverse_aux word (c ∷ [])) (reverse_aux_ne_nil word c [])
    ∙ ap (λ w. w ∷ []) (reverse-reverse (c ∷ word))

trim_end_matches_first :
    (p : ℕ → Bool) (c : ℕ) (s : Text)
    → p c ≡ false
    → (t : Text) × (trim_end_matches p (c ∷ s) ≡ c ∷ t)
unfolding trim_end_matches
trim_end_matches_first p c s h = elim (text_cases (trim_end_matches p s)) [
  | inl e ↦ ([], rw (trim_end_matches, e, h) refl)
  | inr (d, t, e) ↦ (d ∷ t, rw (trim_end_matches, e) refl)
]

-- What was trimmed stays.
pub trim_again : (s : Text) → trim (trim s) ≡ trim s
unfolding trim drop_while trim_end_matches
trim_again [] = refl
trim_again (c ∷ s) = elim (Bool-cases (is_whitespace c)) [
  | inl e ↦ rw (trim, drop_while, e) (trim_again s)
  | inr e ↦
      let (t, first) = trim_end_matches_first is_whitespace c s e in
      let stays = trim_end_matches_again is_whitespace (c ∷ s) in
      rw (trim, drop_while, e, first) (rw (drop_while, e) (rw first at stays))
]

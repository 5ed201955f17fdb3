-- ===== src/Auth/Dkim/Canon/Body.antt =====
-- Canonical bodies of src/auth/dkim.rs.
use my_mta.Prelude.{
  ℕ, List, [], ◌∷◌, ◌++◌, append_assoc, map, reverse, is_empty, true, false, ◌≡◌, refl, sym, ap,
  ◌∙◌, ◌⊎◌, All, Bool-cases, inl, inr,
}
use mathlib.Core.List.{reverse-append}
use my_mta.Prelude.Text.{
  Text, trim, trim_end_matches, is_whitespace, as_bytes, utf8, ends_with, starts_with, lines,
}
use my_mta.Prelude.Text.Trim.{
  text_cases, trim_end_matches_again, all-trim_end_matches, trimmed_is_empty,
}
use my_mta.Prelude.Text.Bytes.{as_bytes-append}
use my_mta.Prelude.Text.Lines.{NoFeed, lines-NoFeed, lines-line}
use my_mta.Auth.Dkim.{Canonicalization, simple, relaxed}
use my_mta.Auth.Dkim.Canon.{crlf, pop_blank, lines_out, relaxed_lines, canonicalize_body}

-- `trim_end`
abbrev trim_end : Text → Text
trim_end s = trim_end_matches is_whitespace s

trim_end_matches-NoFeed : (s : Text) → NoFeed s → NoFeed (trim_end s)
unfolding trim_end_matches
trim_end_matches-NoFeed [] h = tt
trim_end_matches-NoFeed (c ∷ s) (h, hs) = elim (text_cases (trim_end s)) [
  | inl e ↦ elim (Bool-cases (is_whitespace c)) [
    | inl is_end ↦ rw (trim_end_matches, e, is_end) tt
    | inr stays ↦ rw (trim_end_matches, e, stays) (h, tt)
  ]
  | inr (d, t, e) ↦ rw (trim_end_matches, e) (h, rw e at (trim_end_matches-NoFeed s hs))
]

-- A line is blank with its white space at the end as without.
blank_trimmed : (s : Text) → is_empty (trim (trim_end s)) ≡ is_empty (trim s)
unfolding trim
blank_trimmed s =
    trimmed_is_empty is_whitespace (trim_end s)
    ∙ all-trim_end_matches is_whitespace s
    ∙ sym (trimmed_is_empty is_whitespace s)

lines_cases : (l : List Text) → (l ≡ []) ⊎ ((s : Text) × (t : List Text) × (l ≡ s ∷ t))
lines_cases [] = inl refl
lines_cases (s ∷ t) = inr (s, t, refl)

pop_blank_trimmed : (l : List Text) → pop_blank (map trim_end l) ≡ map trim_end (pop_blank l)
unfolding pop_blank
pop_blank_trimmed [] = refl
pop_blank_trimmed (s ∷ l) = elim (lines_cases (pop_blank l)) [
  | inl e ↦
      let rest : pop_blank (map trim_end l) ≡ [] = rw e at (pop_blank_trimmed l) in
      elim (Bool-cases (is_empty (trim s))) [
        | inl blank ↦ rw (pop_blank, rest, blank_trimmed s, e, blank) refl
        | inr text ↦ rw (pop_blank, rest, blank_trimmed s, e, text) refl
      ]
  | inr (t, k, e) ↦
      let rest : pop_blank (map trim_end l) ≡ trim_end t ∷ map trim_end k =
        rw e at (pop_blank_trimmed l) in
      rw (pop_blank, rest, e) refl
]

pop_blank_again : (l : List Text) → pop_blank (pop_blank l) ≡ pop_blank l
unfolding pop_blank
pop_blank_again [] = refl
pop_blank_again (s ∷ l) = elim (lines_cases (pop_blank l)) [
  | inl e ↦ elim (Bool-cases (is_empty (trim s))) [
    | inl blank ↦ rw (pop_blank, e, blank) refl
    | inr text ↦ rw (pop_blank, e, text) (rw (pop_blank, text) refl)
  ]
  | inr (t, k, e) ↦
      let again : pop_blank (t ∷ k) ≡ t ∷ k = rw e at (pop_blank_again l) in
      rw (pop_blank, e, again) refl
]

-- The canonical body as a text.
text_out : List Text → Text
text_out [] = []
text_out (s ∷ l) = trim_end s ++ (crlf ++ text_out l)

lines_out-text_out : (l : List Text) → lines_out l ≡ as_bytes (text_out l)
unfolding lines_out text_out as_bytes utf8
lines_out-text_out [] = refl
lines_out-text_out (s ∷ l) =
    append_assoc (as_bytes (trim_end s)) crlf (lines_out l)
    ∙ ap (λ b. as_bytes (trim_end s) ++ (crlf ++ b)) (lines_out-text_out l)
    ∙ sym (as_bytes-append (trim_end s) (crlf ++ text_out l))

lines-text_out : (l : List Text) → All NoFeed l → lines (text_out l) ≡ map trim_end l
unfolding text_out lines
lines-text_out [] h = refl
lines-text_out (s ∷ l) (h, hs) =
    lines-line (trim_end s) (text_out l) (trim_end_matches-NoFeed s h)
    ∙ ap (λ t. trim_end s ∷ t) (lines-text_out l hs)

lines_out_trimmed : (l : List Text) → lines_out (map trim_end l) ≡ lines_out l
unfolding lines_out
lines_out_trimmed [] = refl
lines_out_trimmed (s ∷ l) = rw (trim_end_matches_again is_whitespace s, lines_out_trimmed l) refl

pop_blank-NoFeed : (l : List Text) → All NoFeed l → All NoFeed (pop_blank l)
unfolding pop_blank
pop_blank-NoFeed [] h = tt
pop_blank-NoFeed (s ∷ l) (h, hs) = elim (lines_cases (pop_blank l)) [
  | inl e ↦ elim (Bool-cases (is_empty (trim s))) [
    | inl blank ↦ rw (pop_blank, e, blank) tt
    | inr text ↦ rw (pop_blank, e, text) (h, tt)
  ]
  | inr (t, k, e) ↦ rw (pop_blank, e) (h, rw e at (pop_blank-NoFeed l hs))
]

out_ne_nil : (b t : List ℕ) → is_empty ((b ++ crlf) ++ t) ≡ false
out_ne_nil [] t = refl
out_ne_nil (c ∷ b) t = refl

ends_with-crlf : (b : List ℕ) → ends_with (b ++ crlf) crlf ≡ true
unfolding ends_with starts_with
ends_with-crlf b = ap (λ r. starts_with r (reverse crlf)) (reverse-append b crlf)

module _ (lossy : List ℕ → Text) (faithful : (t : Text) → lossy (as_bytes t) ≡ t) where
  empty_again : canonicalize_body lossy crlf relaxed ≡ crlf
  unfolding canonicalize_body as_bytes utf8 lines pop_blank relaxed_lines trim
  empty_again = ap (λ t. relaxed_lines (pop_blank (lines t))) (faithful crlf)

  lines_again :
      (s : Text) (l : List Text)
      → All NoFeed (s ∷ l)
      → pop_blank (s ∷ l) ≡ s ∷ l
      → canonicalize_body lossy (lines_out (s ∷ l)) relaxed ≡ lines_out (s ∷ l)
  unfolding canonicalize_body relaxed_lines
  lines_again s l ok popped =
      let some_out : is_empty (lines_out (s ∷ l)) ≡ false =
        unfold lines_out in out_ne_nil (as_bytes (trim_end s)) (lines_out l) in
      let again : lines (lossy (lines_out (s ∷ l))) ≡ map trim_end (s ∷ l) =
        ap (λ b. lines (lossy b)) (lines_out-text_out (s ∷ l))
        ∙ ap lines (faithful (text_out (s ∷ l)))
        ∙ lines-text_out (s ∷ l) ok in
      let popped' : pop_blank (map trim_end (s ∷ l)) ≡ map trim_end (s ∷ l) =
        pop_blank_trimmed (s ∷ l) ∙ ap (map trim_end) popped in
      rw (canonicalize_body, some_out, again, popped', relaxed_lines) (lines_out_trimmed (s ∷ l))

  -- The canonical form of a canonical body is the body itself, for both canonicalisations, where
  -- decoding UTF-8 undoes encoding it.
  pub canonicalize_body_again :
      (body : List ℕ) (canon : Canonicalization)
      → canonicalize_body lossy (canonicalize_body lossy body canon) canon
        ≡ canonicalize_body lossy body canon
  unfolding canonicalize_body ends_with starts_with relaxed_lines
  canonicalize_body_again [] simple = refl
  canonicalize_body_again (c ∷ body) simple = elim (Bool-cases (ends_with (c ∷ body) crlf)) [
    | inl ended ↦ rw (canonicalize_body, ended) (rw (canonicalize_body, ended) refl)
    | inr open_end ↦
        rw (canonicalize_body, open_end) (rw (canonicalize_body, ends_with-crlf (c ∷ body)) refl)
  ]
  canonicalize_body_again [] relaxed = empty_again
  canonicalize_body_again (c ∷ body) relaxed =
      let kept = pop_blank_again (lines (lossy (c ∷ body))) in
      let ok = pop_blank-NoFeed (lines (lossy (c ∷ body))) (lines-NoFeed (lossy (c ∷ body))) in
      elim (lines_cases (pop_blank (lines (lossy (c ∷ body))))) [
        | inl e ↦ rw (canonicalize_body, e, relaxed_lines) empty_again
        | inr (s, l, e) ↦
            rw (canonicalize_body, e, relaxed_lines) (lines_again s l (rw e at ok) (rw e at kept))
      ]

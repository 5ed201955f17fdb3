-- ===== src/Auth/Dkim/Canon/Folding.antt =====
-- The folded signature of src/auth/dkim.rs.
use my_mta.Prelude.{
  append-nil, ℕ, zero, suc, ◌≤◌, [], ◌∷◌, ◌++◌, length, take, drop, select, not, ◌≡◌, refl, sym, ap,
  ◌∙◌, arith, leb, ltb, Bool-cases, inl, inr,
}
use my_mta.Prelude.Text.{Text, codes, is_whitespace}
use my_mta.Prelude.Text.Laws.{Lacks}
use my_mta.Auth.Dkim.Canon.{max_line_len, fold_from, fold_signature}

-- A verifier ignores white space in the signature.
abbrev pub unfolded : Text → Text
unfolded = select λ c. not (is_whitespace c)

unfolded-append : (s t : Text) → Lacks is_whitespace s → unfolded (s ++ t) ≡ s ++ unfolded t
unfolded-append [] t h = refl
unfolded-append (c ∷ s) t (h, hs) = ground (arith, unfolded-append s t hs)

take-drop : (n : ℕ) (s : Text) → take n s ++ drop n s ≡ s
take-drop zero s = refl
take-drop (suc n) [] = refl
take-drop (suc n) (c ∷ s) = ap (λ x. c ∷ x) (take-drop n s)

length-drop : (n : ℕ) (s : Text) → length (drop n s) ≤ length s
length-drop zero s = omega arith
length-drop (suc n) [] = omega arith
length-drop (suc n) (c ∷ s) = omega (arith, length-drop n s)

take-Lacks : (n : ℕ) (s : Text) → Lacks is_whitespace s → Lacks is_whitespace (take n s)
take-Lacks zero s h = tt
take-Lacks (suc n) [] h = tt
take-Lacks (suc n) (c ∷ s) (h, hs) = (h, take-Lacks n s hs)

drop-Lacks : (n : ℕ) (s : Text) → Lacks is_whitespace s → Lacks is_whitespace (drop n s)
drop-Lacks zero s h = h
drop-Lacks (suc n) [] h = tt
drop-Lacks (suc n) (c ∷ s) (h, hs) = drop-Lacks n s hs

-- A line, and what comes after its end.
fold_line :
    (sig rest : Text)
    → Lacks is_whitespace sig
    → unfolded rest ≡ drop max_line_len sig
    → (unfolded (take max_line_len sig ++ rest) ≡ sig)
      × (unfolded (take max_line_len sig ++ (codes "\r\n " ++ rest)) ≡ sig)
unfolding is_whitespace
fold_line sig rest ok e =
    let line = unfolded-append (take max_line_len sig) rest (take-Lacks max_line_len sig ok) in
    let line' =
      unfolded-append (take max_line_len sig) (codes "\r\n " ++ rest)
        (take-Lacks max_line_len sig ok) in
    (
      line ∙ ap (λ t. take max_line_len sig ++ t) e ∙ take-drop max_line_len sig,
      line' ∙ ap (λ t. take max_line_len sig ++ t) e ∙ take-drop max_line_len sig,
    )

fold_all :
    (fuel : ℕ) (sig : Text)
    → length sig ≤ fuel
    → Lacks is_whitespace sig
    → unfolded (fold_from fuel sig) ≡ sig
unfolding fold_from
fold_all zero [] h ok = refl
fold_all zero (c ∷ sig) h ok = absurd (omega arith)
fold_all (suc fuel) [] h ok = refl
fold_all (suc fuel) (c ∷ sig) h ok =
    let line = fold_line (c ∷ sig) (fold_from fuel (drop max_line_len (c ∷ sig))) ok (
      fold_all fuel (drop max_line_len (c ∷ sig)) (omega (arith, length-drop 75 sig))
        (drop-Lacks max_line_len (c ∷ sig) ok)) in
    elim (Bool-cases (ltb max_line_len (length (c ∷ sig)))) [
      | inl e ↦ rw (fold_from, e) line.1
      | inr e ↦ rw (fold_from, e) line.0
    ]

-- A verifier that ignores white space in the signature reads the signature that was folded, if that
-- has no white space.
pub unfolded-fold_signature :
    (sig : Text) → Lacks is_whitespace sig → unfolded (fold_signature sig) ≡ sig
unfolding fold_signature
unfolded-fold_signature sig ok = elim (Bool-cases (leb (length sig) max_line_len)) [
  | inl e ↦
      rw (fold_signature, e)
        (ap unfolded (sym (append-nil sig)) ∙ unfolded-append sig [] ok ∙ append-nil sig)
  | inr e ↦ rw (fold_signature, e) (fold_all (length sig) sig (omega arith) ok)
]

-- ===== src/Tests/Utf8.antt =====
-- A decoder that undoes `as_bytes`, for the parameter `lossy` of the tests.
use my_mta.Prelude.{
  ℕ, zero, suc, ◌+◌, ◌-◌, ◌*◌, ◌/◌, ◌%◌, ◌≤◌, ◌<◌, List, [], ◌∷◌, ◌++◌, ltb, ◌≡◌, refl, ap, ◌∙◌,
  arith, Bool-cases, inl, inr, if◌then◌else◌,
}
use my_mta.Prelude.Text.{Text, utf8, as_bytes}

-- So many bytes of the character are missing, and this is its value so far.
unfoldable pub decode_from : ℕ → ℕ → List ℕ → Text
decode_from left value [] = []
decode_from zero value (b ∷ s) =
    let whole = b ∷ decode_from 0 0 s in
    let two = decode_from 1 (b - 0xc0) s in
    let three = decode_from 2 (b - 0xe0) s in
    let four = decode_from 3 (b - 0xf0) s in
    if ltb b 0x80 then whole else if ltb b 0xe0 then two else if ltb b 0xf0 then three else four
decode_from (suc zero) value (b ∷ s) = (value * 64 + (b - 0x80)) ∷ decode_from 0 0 s
decode_from (suc (suc left)) value (b ∷ s) = decode_from (suc left) (value * 64 + (b - 0x80)) s

unfoldable pub decode : List ℕ → Text
unfolding decode_from
decode bytes = decode_from 0 0 bytes

starts_one : (b : ℕ) (s : List ℕ) → b < 0x80 → decode_from 0 0 (b ∷ s) ≡ b ∷ decode_from 0 0 s
unfolding decode_from
starts_one b s h = ground arith

starts_two :
    (b : ℕ) (s : List ℕ)
    → 0x80 ≤ b
    → b < 0xe0
    → decode_from 0 0 (b ∷ s) ≡ decode_from 1 (b - 0xc0) s
unfolding decode_from
starts_two b s h h' = ground arith

starts_three :
    (b : ℕ) (s : List ℕ)
    → 0xe0 ≤ b
    → b < 0xf0
    → decode_from 0 0 (b ∷ s) ≡ decode_from 2 (b - 0xe0) s
unfolding decode_from
starts_three b s h h' = ground arith

starts_four : (b : ℕ) (s : List ℕ) → 0xf0 ≤ b → decode_from 0 0 (b ∷ s) ≡ decode_from 3 (b - 0xf0) s
unfolding decode_from
starts_four b s h = ground arith

decode_one : (c : ℕ) (s : List ℕ) → decode_from 0 0 (utf8 c ++ s) ≡ c ∷ decode_from 0 0 s
unfolding utf8 decode_from
decode_one c s = elim (Bool-cases (ltb c 0x80)) [
  | inl e ↦ rw (utf8, e) (starts_one c s (ground arith))
  | inr e ↦ elim (Bool-cases (ltb c 0x800)) [
    | inl e' ↦
        rw (utf8, e, e')
          (starts_two (0xc0 + c / 64) ((0x80 + c % 64) ∷ s) (ground arith) (ground arith)
            ∙ ap (λ v. v ∷ decode_from 0 0 s) (omega arith))
    | inr e' ↦ elim (Bool-cases (ltb c 0x10000)) [
      | inl e'' ↦
          rw (utf8, e, e', e'')
            (starts_three (0xe0 + c / 4096) ((0x80 + c / 64 % 64) ∷ (0x80 + c % 64) ∷ s)
                (ground arith) (ground arith)
              ∙ ap (λ v. v ∷ decode_from 0 0 s) (omega arith))
      | inr e'' ↦
          rw (utf8, e, e', e'')
            (starts_four (0xf0 + c / 262144)
                ((0x80 + c / 4096 % 64) ∷ (0x80 + c / 64 % 64) ∷ (0x80 + c % 64) ∷ s) (ground arith)
              ∙ ap (λ v. v ∷ decode_from 0 0 s) (omega arith))
    ]
  ]
]

pub decode-as_bytes : (s : Text) → decode (as_bytes s) ≡ s
unfolding decode as_bytes
decode-as_bytes [] = refl
decode-as_bytes (c ∷ s) = decode_one c (as_bytes s) ∙ ap (λ t. c ∷ t) (decode-as_bytes s)

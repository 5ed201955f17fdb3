-- ===== src/Prelude/Text/Numbers/Decimal.antt =====
-- Printing a number and reading it back.
use Prim.Native.Nat.{ℕ, zero, suc, ◌+◌, ◌*◌, ◌/◌, ◌%◌, ◌≤◌, ◌<◌}
use mathlib.Core.Path.{◌≡◌, refl, ap, ◌∙◌}
use mathlib.Core.Logic.{inl, inr}
use mathlib.Core.Bool.{false}
use mathlib.Core.Option.{some}
use mathlib.Core.List.{List, [], ◌∷◌}
use native.Mathlib.Omega.{arith}
use my_mta.Prelude.Tests.{◌==◌, Bool-cases}
use my_mta.Prelude.Lists.{All, is_empty}
use my_mta.Prelude.Text.Numbers.{digits, decimal, scan, scan_unsigned, parse_uint, scan_digit}

abbrev pub IsDigit : ℕ → Type 0
IsDigit c = (b'0' ≤ c) × (c ≤ b'9')

digits-IsDigit : (fuel n : ℕ) (out : List ℕ) → All IsDigit out → All IsDigit (digits fuel n out)
unfolding digits
digits-IsDigit zero n out h = h
digits-IsDigit (suc fuel) n out h =
    let digit : IsDigit (b'0' + n % 10) = (omega arith, omega arith) in
    elim (Bool-cases (n / 10 == 0)) [
      | inl e ↦ rw (digits, e) (digit, h)
      | inr e ↦ rw (digits, e) (digits-IsDigit fuel (n / 10) ((b'0' + n % 10) ∷ out) (digit, h))
    ]

digits_ne_nil : (fuel n c : ℕ) (out : List ℕ) → is_empty (digits fuel n (c ∷ out)) ≡ false
unfolding digits
digits_ne_nil zero n c out = refl
digits_ne_nil (suc fuel) n c out = elim (Bool-cases (n / 10 == 0)) [
  | inl e ↦ rw (digits, e) refl
  | inr e ↦ rw (digits, e) (digits_ne_nil fuel (n / 10) (b'0' + n % 10) (c ∷ out))
]

-- The digits are read one by one.
scan-digits :
    (top fuel n : ℕ) (out : List ℕ)
    → n < fuel
    → n ≤ top
    → scan top (digits fuel n out) 0 ≡ scan top out n
unfolding digits
scan-digits top zero n out h t = absurd (omega arith)
scan-digits top (suc fuel) n out h t =
    let whole : n / 10 * 10 + n % 10 ≡ n = omega arith in
    let last = scan_digit top (n % 10) (n / 10) out (omega arith) (omega arith) in
    elim (Bool-cases (n / 10 == 0)) [
      | inl e ↦
          let none_before : n / 10 ≡ 0 = ground arith in
          rw (digits, e)
            (ap (λ k. scan top ((b'0' + n % 10) ∷ out) k) (ground arith)
              ∙ last
              ∙ ap (scan top out) whole)
      | inr e ↦
          rw (digits, e)
            (scan-digits top fuel (n / 10) ((b'0' + n % 10) ∷ out) (ground arith) (omega arith)
              ∙ last
              ∙ ap (scan top out) whole)
    ]

pub decimal-IsDigit : (n : ℕ) → All IsDigit (decimal n)
unfolding decimal
decimal-IsDigit n = digits-IsDigit (n + 1) n [] tt

pub decimal_ne_nil : (n : ℕ) → is_empty (decimal n) ≡ false
unfolding decimal digits
decimal_ne_nil n =
    let fuel : n + 1 ≡ suc n = omega arith in
    elim (Bool-cases (n / 10 == 0)) [
      | inl e ↦ rw (fuel, digits, e) refl
      | inr e ↦ rw (fuel, digits, e) (digits_ne_nil n (n / 10) (b'0' + n % 10) [])
    ]

parse_digits :
    (top : ℕ) (s : List ℕ) → All IsDigit s → is_empty s ≡ false → parse_uint top s ≡ scan top s 0
unfolding parse_uint scan_unsigned
parse_digits top [] h e = cc
parse_digits top (c ∷ s) (h, hs) e =
    let no_sign : (c == b'+') ≡ false = ground arith in rw (parse_uint, no_sign) refl

-- Reading a printed number gives the number, if it fits the type.
pub parse_uint-decimal : (top n : ℕ) → n ≤ top → parse_uint top (decimal n) ≡ some n
unfolding decimal scan
parse_uint-decimal top n h =
    parse_digits top (decimal n) (decimal-IsDigit n) (decimal_ne_nil n)
    ∙ scan-digits top (n + 1) n [] (omega arith) h

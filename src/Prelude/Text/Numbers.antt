-- ===== src/Prelude/Text/Numbers.antt =====
-- `{}` of an unsigned integer, and `parse::<uN>`.
pub mod Decimal
use Prim.Native.Nat.{ℕ, zero, suc, ◌+◌, ◌-◌, ◌*◌, ◌/◌, ◌%◌, ◌^◌, ◌≤◌, ◌<◌}
use mathlib.Core.Path.{◌≡◌, refl, ap, ◌∙◌}
use mathlib.Core.Bool.{false, ◌&&◌}
use mathlib.Core.Option.{Option, none, some}
use mathlib.Core.List.{List, [], ◌∷◌}
use native.Mathlib.Omega.{arith}
use my_mta.Prelude.Tests.{leb, ◌==◌, if◌then◌else◌}

digits : ℕ → ℕ → List ℕ → List ℕ
digits zero n out = out
digits (suc fuel) n out =
    let more = digits fuel (n / 10) ((b'0' + n % 10) ∷ out) in
    if n / 10 == 0 then (b'0' + n % 10) ∷ out else more

-- The decimal digits of `n`. Each round divides by ten, so `n + 1` rounds are enough.
unfoldable pub decimal : ℕ → List ℕ
unfolding digits
decimal n = digits (n + 1) n []

abbrev pub u8_max : ℕ
u8_max = 255

abbrev pub u16_max : ℕ
u16_max = 65535

-- `usize` on a 64-bit target.
abbrev pub usize_max : ℕ
usize_max = 2 ^ 64 - 1

scan : ℕ → List ℕ → ℕ → Option ℕ
scan top [] n = some n
scan top (c ∷ s) n =
    let next = n * 10 + (c - b'0') in
    let rest = scan top s next in
    if leb b'0' c && leb c b'9' then (if leb next top then rest else none) else none

scan_unsigned : ℕ → List ℕ → Option ℕ
scan_unsigned top [] = none
scan_unsigned top (c ∷ s) = scan top (c ∷ s) 0

-- `parse::<uN>` for the type with the greatest value `top`: an optional `+`, then one digit or more;
-- `none` is `Err`, for a wrong character and for an overflow.
unfoldable pub parse_uint : ℕ → List ℕ → Option ℕ
unfolding scan scan_unsigned
parse_uint top [] = none
parse_uint top (c ∷ s) = if c == b'+' then scan_unsigned top s else scan_unsigned top (c ∷ s)

scan-le : (top : ℕ) (s : List ℕ) (n m : ℕ) → n ≤ top → scan top s n ≡ some m → m ≤ top
unfolding scan
scan-le top [] n m h e = ground arith
scan-le top (c ∷ s) n m h e = ground (arith, scan-le top s (n * 10 + (c - b'0')) m)

-- A parsed number fits its type.
pub parse_uint-le : (top : ℕ) (s : List ℕ) (n : ℕ) → parse_uint top s ≡ some n → n ≤ top
unfolding parse_uint
parse_uint-le top [] n e = ground arith
parse_uint-le top (c ∷ []) n e = ground (arith, scan-le top (c ∷ []) 0 n)
parse_uint-le top (c ∷ d ∷ s) n e =
    ground (arith, scan-le top (c ∷ d ∷ s) 0 n, scan-le top (d ∷ s) 0 n)

decimal_size : decimal 10485760 ≡ b'1' ∷ b'0' ∷ b'4' ∷ b'8' ∷ b'5' ∷ b'7' ∷ b'6' ∷ b'0' ∷ []
unfolding decimal
decimal_size = refl

parse_uint_overflow : parse_uint u8_max (b'2' ∷ b'5' ∷ b'6' ∷ []) ≡ none
unfolding parse_uint
parse_uint_overflow = refl

digits_more :
    (fuel n : ℕ) (out : List ℕ)
    → 10 ≤ n
    → digits (suc fuel) n out ≡ digits fuel (n / 10) ((b'0' + n % 10) ∷ out)
unfolding digits
digits_more fuel n out h = ground arith

digits_done : (fuel n : ℕ) (out : List ℕ) → n < 10 → digits (suc fuel) n out ≡ (b'0' + n % 10) ∷ out
unfolding digits
digits_done fuel n out h = ground arith

-- A number of three digits.
pub decimal_three :
    (n : ℕ)
    → 100 ≤ n
    → n ≤ 999
    → decimal n ≡ (b'0' + n / 10 / 10 % 10) ∷ (b'0' + n / 10 % 10) ∷ (b'0' + n % 10) ∷ []
unfolding decimal
decimal_three n h h' =
    let fuel : n + 1 ≡ suc (suc (suc (n - 2))) = omega arith in
    ap (λ f. digits f n []) fuel
    ∙ digits_more (suc (suc (n - 2))) n [] (omega arith)
    ∙ digits_more (suc (n - 2)) (n / 10) ((b'0' + n % 10) ∷ []) (omega arith)
    ∙ digits_done (n - 2) (n / 10 / 10) ((b'0' + n / 10 % 10) ∷ (b'0' + n % 10) ∷ []) (omega arith)

scan_digit :
    (top d n : ℕ) (s : List ℕ)
    → d ≤ 9
    → n * 10 + d ≤ top
    → scan top ((b'0' + d) ∷ s) n ≡ scan top s (n * 10 + d)
unfolding scan
scan_digit top d n s h t = let e : b'0' + d - b'0' ≡ d = omega arith in rw e (ground arith)

pub parse_uint_three :
    (top n : ℕ)
    → 100 ≤ n
    → n ≤ 999
    → 999 ≤ top
    → parse_uint top ((b'0' + n / 10 / 10 % 10) ∷ (b'0' + n / 10 % 10) ∷ (b'0' + n % 10) ∷ [])
      ≡ some n
unfolding parse_uint scan_unsigned
parse_uint_three top n h h' t =
    let a = n / 10 / 10 % 10 in
    let b = n / 10 % 10 in
    let c = n % 10 in
    let sign : (b'0' + a == b'+') ≡ false = ground arith in
    rw (parse_uint, sign)
      (scan_digit top a 0 ((b'0' + b) ∷ (b'0' + c) ∷ []) (omega arith) (omega arith)
        ∙ scan_digit top b (0 * 10 + a) ((b'0' + c) ∷ []) (omega arith) (omega arith)
        ∙ scan_digit top c ((0 * 10 + a) * 10 + b) [] (omega arith) (omega arith)
        ∙ ap some (omega arith))

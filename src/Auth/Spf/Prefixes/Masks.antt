-- ===== src/Auth/Spf/Prefixes/Masks.antt =====
-- `&` with the shifted masks of src/auth/spf.rs, as arithmetic.
use Prim.Native.Nat.{min, digits, bit_and, bit_and-bitwise}
use my_mta.Prelude.{
  ℕ, zero, suc, ap, sym, ◌∙◌, ◌+◌, ◌-◌, ◌*◌, ◌/◌, ◌%◌, ◌^◌, ◌≤◌, ◌<◌, ◌≡◌, refl, arith, Bool, true,
  false, ◌==◌, if◌then◌else◌,
}
use native.Mathlib.Nat.{le_refl, one-le-pow, pow-suc, div-div-eq-div-mul}

pub pow_pos : (k : ℕ) → 0 < 2 ^ k
pow_pos k = let two_pos : 0 < 2 = omega arith in omega (arith, one-le-pow k 2 two_pos)

-- More fuel than digits changes nothing.
enough_digits :
    (n m a b : ℕ) → a ≤ n → a ≤ m → digits (λ y. 0) min n a b ≡ digits (λ y. 0) min m a b
enough_digits zero zero a b p q = refl
enough_digits zero (suc m) zero b p q = refl
enough_digits zero (suc m) (suc a) b p q = absurd (omega arith)
enough_digits (suc n) zero zero b p q = refl
enough_digits (suc n) zero (suc a) b p q = absurd (omega arith)
enough_digits (suc n) (suc m) zero b p q = refl
enough_digits (suc n) (suc m) (suc a) b p q =
    rw (enough_digits n m (suc a / 2) (b / 2) (omega arith) (omega arith))

-- The lowest bit, and the others.
lowest_bit : (a b : ℕ) → bit_and a b ≡ bit_and (a / 2) (b / 2) * 2 + min (a % 2) (b % 2)
lowest_bit zero b = simp bit_and-bitwise (omega arith)
lowest_bit (suc a) b =
    simp bit_and-bitwise
      (omega (arith, enough_digits a (suc a / 2) (suc a / 2) (b / 2) (omega arith) (le_refl _)))

-- The mask of j ones keeps a number of j bits.
bit_and-ones : (j x : ℕ) → x < 2 ^ j → bit_and x (2 ^ j - 1) ≡ x
bit_and-ones zero x small = ground (arith, lowest_bit x 0)
bit_and-ones (suc j) x small =
    ground (arith, lowest_bit x (2 ^ suc j - 1), pow-suc 2 j, pow_pos j, bit_and-ones j (x / 2))

double : (q k : ℕ) → q * 2 ^ suc k ≡ 2 * (q * 2 ^ k)
double q k = omega (arith, ap (λ (t : ℕ). q * t) (pow-suc 2 k))

-- With k zeros after the ones, it keeps the high bits.
pub bit_and-high_bits :
    (k j x : ℕ) → x < 2 ^ j * 2 ^ k → bit_and x ((2 ^ j - 1) * 2 ^ k) ≡ x / 2 ^ k * 2 ^ k
bit_and-high_bits zero j x small = ground (arith, bit_and-ones j x)
bit_and-high_bits (suc k) j x small =
    let half : x / 2 < 2 ^ j * 2 ^ k = omega (arith, double (2 ^ j) k) in
    let low = lowest_bit x ((2 ^ j - 1) * 2 ^ suc k) in
    let ones = double (2 ^ j - 1) k in
    let rest = bit_and-high_bits k j (x / 2) half in
    let twice : 2 ^ suc k ≡ 2 * 2 ^ k = omega (arith, pow-suc 2 k) in
    let quotient : x / 2 ^ suc k ≡ x / 2 / 2 ^ k =
      ap (λ d. x / d) twice ∙ sym (div-div-eq-div-mul x 2 (2 ^ k)) in
    let again = double (x / 2 ^ suc k) k in ground arith

module _ (f g : ℕ → ℕ) where
  agree : ℕ → Bool
  agree zero = true
  agree (suc n) = let rest = agree n in if f n == g n then rest else false

  agree-eq : (n : ℕ) → agree n ≡ true → (i : ℕ) → i < n → f i ≡ g i
  unfolding agree
  agree-eq zero e i h = absurd (omega arith)
  agree-eq (suc n) e i h = grind (arith, agree-eq n)

-- The mask of 32 bits, for every shift that does not overflow.
pub mask_bits : (k : ℕ) → k < 32 → (2 ^ 32 - 1) * 2 ^ k % 2 ^ 32 ≡ (2 ^ (32 - k) - 1) * 2 ^ k
unfolding agree
mask_bits = agree-eq _ _ 32 refl

pub full_width : (k : ℕ) → k < 32 → 2 ^ (32 - k) * 2 ^ k ≡ 2 ^ 32
unfolding agree
full_width = agree-eq _ _ 32 refl

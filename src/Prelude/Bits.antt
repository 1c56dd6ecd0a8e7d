-- ===== src/Prelude/Bits.antt =====
-- `bit_or` of numbers whose bits do not overlap is their sum.
use Prim.Native.Nat.{
  ℕ, zero, suc, ◌+◌, ◌*◌, ◌/◌, ◌%◌, ◌^◌, ◌≤◌, ◌<◌, max, bit_or, digits, bit_or-bitwise,
}
use mathlib.Core.Path.{◌≡◌, refl, ap}
use native.Mathlib.Omega.{arith}
use native.Mathlib.Nat.{pow-suc, add-zero}

-- The recursion on binary digits that `bit_or` stands for, on `n` digits.
abbrev or_digits : ℕ → ℕ → ℕ → ℕ
or_digits n a b = digits (λ b. b) max n a b

or_digits_fuel : (n m a b : ℕ) → a ≤ n → a ≤ m → or_digits n a b ≡ or_digits m a b
or_digits_fuel zero zero a b p q = refl
or_digits_fuel zero (suc m) zero b p q = refl
or_digits_fuel zero (suc m) (suc a) b p q = absurd (omega arith)
or_digits_fuel (suc n) zero zero b p q = refl
or_digits_fuel (suc n) zero (suc a) b p q = absurd (omega arith)
or_digits_fuel (suc n) (suc m) zero b p q = refl
or_digits_fuel (suc n) (suc m) (suc a) b p q =
    omega (arith, or_digits_fuel n m (suc a / 2) (b / 2) (omega arith) (omega arith))

pub zero-bit_or : (b : ℕ) → bit_or 0 b ≡ b
zero-bit_or b = bit_or-bitwise 0 b

pub bit_or_step : (x y : ℕ) → bit_or x y ≡ max (x % 2) (y % 2) + bit_or (x / 2) (y / 2) * 2
bit_or_step zero y = omega (zero-bit_or y, zero-bit_or (y / 2), arith)
bit_or_step (suc x) y = omega (
  bit_or-bitwise (suc x) y,
  bit_or-bitwise (suc x / 2) (y / 2),
  or_digits_fuel x (suc x / 2) (suc x / 2) (y / 2) (omega arith) (omega arith),
  arith,
)

bit_or-zero_fuel : (n a : ℕ) → a ≤ n → bit_or a 0 ≡ a
bit_or-zero_fuel n zero h = refl
bit_or-zero_fuel zero (suc a) h = absurd (omega arith)
bit_or-zero_fuel (suc n) (suc a) h =
    omega (arith, bit_or_step (suc a) 0, bit_or-zero_fuel n (suc a / 2) (omega arith))

-- `a << k | b` is `(a << k) + b` where `b` has at most `k` bits.
pub bit_or-shift : (k a b : ℕ) → b < 2 ^ k → bit_or (a * 2 ^ k) b ≡ a * 2 ^ k + b
bit_or-shift zero a zero h = omega (arith, bit_or-zero_fuel (a * 2 ^ 0) (a * 2 ^ 0) (omega arith))
bit_or-shift zero a (suc b) h = absurd (omega arith)
bit_or-shift (suc k) a b h = omega (
  arith,
  bit_or_step (a * 2 ^ suc k) b,
  ap (λ t. bit_or t (b / 2)) half,
  bit_or-shift k a (b / 2) (omega (arith, pow-suc 2 k)),
  ap (λ t. a * t) (pow-suc 2 k),
)
  where
    half : a * 2 ^ suc k / 2 ≡ a * 2 ^ k
    half = omega (arith, ap (λ t. a * t) (pow-suc 2 k))

-- The same for a left side that is a multiple of `2 ^ k`.
pub bit_or-multiple : (k y x b : ℕ) → x ≡ y * 2 ^ k → b < 2 ^ k → bit_or x b ≡ x + b
bit_or-multiple k y x b e h = rw e (bit_or-shift k y b h)

bit_or_comm_fuel : (n a b : ℕ) → a + b ≤ n → bit_or a b ≡ bit_or b a
bit_or_comm_fuel zero zero zero h = refl
bit_or_comm_fuel zero zero (suc b) h = absurd (omega arith)
bit_or_comm_fuel zero (suc a) b h = absurd (omega arith)
bit_or_comm_fuel (suc n) zero zero h = refl
bit_or_comm_fuel (suc n) zero (suc b) h = omega (
  arith,
  bit_or_step 0 (suc b),
  bit_or_step (suc b) 0,
  bit_or_comm_fuel n 0 (suc b / 2) (omega arith),
)
bit_or_comm_fuel (suc n) (suc a) b h = omega (
  arith,
  bit_or_step (suc a) b,
  bit_or_step b (suc a),
  bit_or_comm_fuel n (suc a / 2) (b / 2) (omega arith),
)

pub bit_or_comm : (a b : ℕ) → bit_or a b ≡ bit_or b a
bit_or_comm a b = bit_or_comm_fuel (a + b) a b (omega arith)

pub two_pow-add : (a b : ℕ) → 2 ^ (a + b) ≡ 2 ^ a * 2 ^ b
two_pow-add a zero = omega (arith, ap (λ t. 2 ^ t) (add-zero a))
two_pow-add a (suc b) = omega (
  arith,
  pow-suc 2 (a + b),
  two_pow-add a b,
  ap (λ t. 2 ^ a * t) (pow-suc 2 b),
  ap (λ t. 2 ^ t) (shift_suc a b),
)
  where
    shift_suc : (a b : ℕ) → a + suc b ≡ suc (a + b)
    shift_suc a b = omega arith

-- A byte has eight bits.
pub pow_bytes : (n : ℕ) → 256 ^ n ≡ 2 ^ (n * 8)
pow_bytes zero = refl
pow_bytes (suc n) =
    omega (arith, pow-suc 256 n, pow_bytes n, two_pow-add (n * 8) 8, ap (λ t. 2 ^ t) (eight_more n))
  where
    eight_more : (n : ℕ) → suc n * 8 ≡ n * 8 + 8
    eight_more n = omega arith

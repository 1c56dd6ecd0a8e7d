-- ===== src/Rfc6979/Curve.antt =====
-- What ecdsa.go uses of the packages bigmod, nistec and hmac, as parameters, and its `nistCurve`.
use sunlight.Prelude.{
  ℕ, ◌+◌, ◌-◌, ◌*◌, ◌/◌, ◌%◌, ◌^◌, ◌<◌, ◌≤◌, ◌≡◌, Outcome, ok, err, panic, Bool, length, All,
}
use sunlight.Errors.{EcdsaError, input_overflows_modulus}
use sunlight.Cryptobyte.Wire.{Bytes, IsByte, be, be_value}

-- filippo.io/bigmod: a Nat is its value, a Modulus is its value, and each operation is given the
-- modulus. The laws are the package's documentation.
pub record Bigmod : Type 0 where
  pub size : ℕ → ℕ
  pub bit_len : ℕ → ℕ
  pub set_bytes : Bytes → ℕ → Outcome EcdsaError ℕ
  pub set_overflowing_bytes : Bytes → ℕ → Outcome EcdsaError ℕ
  pub bytes : ℕ → ℕ → Bytes
  pub add : ℕ → ℕ → ℕ → ℕ
  pub mul : ℕ → ℕ → ℕ → ℕ
  pub exp : ℕ → Bytes → ℕ → ℕ
  pub bit_len_bound : (n : ℕ) → 0 < n → n < 2 ^ bit_len n
  pub bit_len_least : (n : ℕ) → 0 < n → 2 ^ bit_len n ≤ 2 * n
  pub size_lem : (n : ℕ) → size n ≡ (bit_len n + 7) / 8
  pub set_bytes_lem : (b : Bytes) (n : ℕ) → be_value 0 b < n → set_bytes b n ≡ ok (be_value 0 b)
  pub set_bytes_overflow :
      (b : Bytes) (n : ℕ) → n ≤ be_value 0 b → set_bytes b n ≡ err input_overflows_modulus
  pub set_overflowing_bytes-lt :
      (b : Bytes) (n x : ℕ) → 0 < n → set_overflowing_bytes b n ≡ ok x → x < n
  -- reduces values of as many bits as the modulus
  pub set_overflowing_bytes_lem :
      (b : Bytes) (n : ℕ)
      → be_value 0 b < 2 ^ bit_len n
      → set_overflowing_bytes b n ≡ ok (be_value 0 b % n)
  pub bytes_lem : (x n : ℕ) → x < n → bytes x n ≡ be (size n) x
  pub add_lem : (x y n : ℕ) → x < n → y < n → add x y n ≡ (x + y) % n
  pub mul_lem : (x y n : ℕ) → x < n → y < n → mul x y n ≡ x * y % n
  pub exp_lem : (x n : ℕ) (e : Bytes) → x < n → exp x e n ≡ x ^ be_value 0 e % n

-- `nistCurve`, with the points of its nistec implementation: `Point` is their type. The order of the
-- curve is a prime, so by Fermat's theorem a power is the inverse.
pub record NistCurve (Point : Type 0) : Type 0 where
  pub n : ℕ
  pub n_minus2 : Bytes
  pub is_p521 : Bool
  pub scalar_base_mult : Bytes → Outcome EcdsaError Point
  pub bytes_x : Point → Outcome EcdsaError Bytes
  pub n_large : 2 ≤ n
  pub n_minus2_value : be_value 0 n_minus2 ≡ n - 2
  pub inverse : (k : ℕ) → 0 < k → k < n → k ^ (n - 2) * k % n ≡ 1

-- crypto/hmac with one hash function
pub record Hmac : Type 0 where
  pub hash_size : ℕ
  pub sum : Bytes → Bytes → Bytes
  pub length-sum : (key message : Bytes) → length (sum key message) ≡ hash_size
  pub sum-IsByte : (key message : Bytes) → All IsByte (sum key message)
  pub hash_size_positive : 0 < hash_size

-- math/big: the shortest bytes of a number, and `FillBytes`, which panics if they do not fit.
pub record BigInt : Type 0 where
  pub int_bytes : ℕ → Bytes
  pub fill_bytes : ℕ → ℕ → Outcome EcdsaError Bytes
  pub be_value-int_bytes : (x : ℕ) → be_value 0 (int_bytes x) ≡ x
  pub fill_bytes_lem : (x size : ℕ) → x < 256 ^ size → fill_bytes x size ≡ ok (be size x)
  pub fill_bytes_panics : (x size : ℕ) → 256 ^ size ≤ x → fill_bytes x size ≡ panic

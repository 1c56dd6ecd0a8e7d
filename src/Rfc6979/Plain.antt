-- ===== src/Rfc6979/Plain.antt =====
-- Implementations of what ecdsa.go builds on, small enough to run the code on: the laws hold of them.
use sunlight.Prelude.{
  ℕ, zero, suc, ◌+◌, ◌*◌, ◌/◌, ◌%◌, ◌^◌, ◌<◌, ◌≤◌, ◌≡◌, refl, ◌∙◌, ap, [], ◌∷◌, ◌++◌, true, ltb,
  lt→ltb, le→ltb, ◌==◌, if◌then◌else◌, Outcome, ok, err, panic, arith, if-eq-ok, ok-injective, inl,
  inr, Bool-cases,
}
use native.Mathlib.Nat.{pow-suc, mod-lt}
use sunlight.Errors.{EcdsaError, input_overflows_modulus}
use sunlight.Cryptobyte.Wire.{Bytes, be, be_value}
use sunlight.Rfc6979.Curve.{Bigmod, NistCurve, Hmac, BigInt}

unfoldable pub bits : ℕ → ℕ → ℕ
bits zero n = 0
bits (suc fuel) n = let rest = bits fuel (n / 2) in if n == 0 then 0 else suc rest

bits-zero : (fuel : ℕ) → bits fuel 0 ≡ 0
unfolding bits
bits-zero zero = refl
bits-zero (suc fuel) = refl

pub bits_lem : (fuel n : ℕ) → n ≤ fuel → 0 < n → (n < 2 ^ bits fuel n) × (2 ^ bits fuel n ≤ 2 * n)
unfolding bits
bits_lem zero n h p = absurd (omega arith)
bits_lem (suc fuel) n h p = elim (Bool-cases (n == 0)) [
  | inl nil ↦ absurd (ground arith)
  | inr more ↦ elim (Bool-cases (n / 2 == 0)) [
    | inl one ↦
        let half : n / 2 ≡ 0 = ground arith in
        let nil : bits fuel (n / 2) ≡ 0 = ap (bits fuel) half ∙ bits-zero fuel in
        rw (more, nil) (omega (arith, half), omega (arith, p))
    | inr two ↦
        let (below, least) = bits_lem fuel (n / 2) (omega (arith, h, p)) (ground arith) in
        rw (more) (
          omega (arith, pow-suc 2 (bits fuel (n / 2)), below),
          omega (arith, pow-suc 2 (bits fuel (n / 2)), least),
        )
  ]
]

abbrev pub overflowing : Bytes → ℕ → Outcome EcdsaError ℕ
unfolding bits be_value
overflowing b n =
    if ltb (be_value 0 b) (2 ^ bits n n) then ok (be_value 0 b % n) else err input_overflows_modulus

pub overflowing-lt : (b : Bytes) (n x : ℕ) → 0 < n → overflowing b n ≡ ok x → x < n
unfolding overflowing
overflowing-lt b n x p h = elim (if-eq-ok (ltb (be_value 0 b) (2 ^ bits n n)) _ _ h) [
  | inl (_, done) ↦ omega (arith, ok-injective _ _ done, mod-lt (be_value 0 b) p)
  | inr (_, failed) ↦ absurd (cc failed)
]

abbrev pub plain_bigmod : Bigmod
unfolding bits be_value
plain_bigmod = record {
  size = λ n. (bits n n + 7) / 8;
  bit_len = λ n. bits n n;
  set_bytes =
      λ b n. if ltb (be_value 0 b) n then ok (be_value 0 b) else err input_overflows_modulus;
  set_overflowing_bytes = overflowing;
  bytes = λ x n. be ((bits n n + 7) / 8) x;
  add = λ x y n. (x + y) % n;
  mul = λ x y n. x * y % n;
  exp = λ x e n. x ^ be_value 0 e % n;
  bit_len_bound = λ n p. (bits_lem n n (omega arith) p).0;
  bit_len_least = λ n p. (bits_lem n n (omega arith) p).1;
  size_lem = λ n. refl;
  set_bytes_lem = λ b n h. rw (lt→ltb (be_value 0 b) n h) refl;
  set_bytes_overflow = λ b n h. rw (le→ltb (be_value 0 b) n h) refl;
  set_overflowing_bytes-lt = overflowing-lt;
  set_overflowing_bytes_lem = λ b n h. rw (lt→ltb (be_value 0 b) (2 ^ bits n n) h) refl;
  bytes_lem = λ x n h. refl;
  add_lem = λ x y n h k. refl;
  mul_lem = λ x y n h k. refl;
  exp_lem = λ x n e h. refl;
}

-- A group of prime order 7, whose points are given by their scalar
pub inverse_mod7 : (k : ℕ) → 0 < k → k < 7 → k ^ 5 * k % 7 ≡ 1
inverse_mod7 zero p h = absurd (omega arith)
inverse_mod7 (suc zero) p h = refl
inverse_mod7 (suc (suc zero)) p h = refl
inverse_mod7 (suc (suc (suc zero))) p h = refl
inverse_mod7 (suc (suc (suc (suc zero)))) p h = refl
inverse_mod7 (suc (suc (suc (suc (suc zero))))) p h = refl
inverse_mod7 (suc (suc (suc (suc (suc (suc zero)))))) p h = refl
inverse_mod7 (suc (suc (suc (suc (suc (suc (suc k))))))) p h = absurd (omega arith)

abbrev pub plain_curve : NistCurve Bytes
unfolding be_value
plain_curve = record {
  n = 7;
  n_minus2 = 5 ∷ [];
  is_p521 = true;
  scalar_base_mult = λ b. ok b;
  bytes_x = λ p. ok p;
  n_large = omega arith;
  n_minus2_value = refl;
  inverse = inverse_mod7;
}

abbrev mix : Bytes → ℕ
mix [] = 37
mix (x ∷ s) = (x + 5 * mix s) % 256

-- A hash of one byte
abbrev pub plain_hmac : Hmac
plain_hmac = record {
  hash_size = 1;
  sum = λ key message. mix (key ++ message) % 256 ∷ [];
  length-sum = λ key message. refl;
  sum-IsByte = λ key message. (omega arith, tt);
  hash_size_positive = omega arith;
}

abbrev pub plain_big : BigInt
unfolding be_value
plain_big = record {
  int_bytes = λ x. x ∷ [];
  fill_bytes = λ x size. if ltb x (256 ^ size) then ok (be size x) else panic;
  be_value-int_bytes = λ x. omega arith;
  fill_bytes_lem = λ x size h. rw (lt→ltb x (256 ^ size) h) refl;
  fill_bytes_panics = λ x size h. rw (le→ltb x (256 ^ size) h) refl;
}

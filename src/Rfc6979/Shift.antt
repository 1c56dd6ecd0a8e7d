-- ===== src/Rfc6979/Shift.antt =====
-- The right shift of bits2int (ecdsa.go, `rightShift`).
use Prim.Native.Nat.{bit_or}
use sunlight.Prelude.{
  ℕ, zero, suc, ◌+◌, ◌-◌, ◌*◌, ◌/◌, ◌%◌, ◌^◌, ◌<◌, ◌≡◌, refl, sym, ◌∙◌, ap, [], ◌∷◌, Outcome, ok,
  panic, leb, gt→leb, if◌then◌else◌, length, All, arith,
}
use sunlight.Prelude.Bits.{bit_or-multiple, bit_or_comm}
use sunlight.Errors.{EcdsaError}
use sunlight.Cryptobyte.Wire.{Bytes, IsByte, be_value}

-- The loop goes from the last byte to the first, so a byte is combined with the byte before it as it
-- was: `prev`.
unfoldable pub shift_after : ℕ → ℕ → Bytes → Bytes
shift_after k prev [] = []
shift_after k prev (x ∷ s) = bit_or (x / 2 ^ k) (prev * 2 ^ (8 - k) % 256) ∷ shift_after k x s

abbrev shift_bytes : ℕ → Bytes → Bytes
shift_bytes k [] = []
shift_bytes k (x ∷ s) = x / 2 ^ k ∷ shift_after k x s

-- `rightShift`
unfoldable pub right_shift : Bytes → ℕ → Outcome EcdsaError Bytes
unfolding shift_after
right_shift b shift = if leb 8 shift then panic else ok (shift_bytes shift b)

below_eight :
    (P : ℕ → Type 0) → P 0 → P 1 → P 2 → P 3 → P 4 → P 5 → P 6 → P 7 → (k : ℕ) → k < 8 → P k
below_eight P a b c d e f g i zero h = a
below_eight P a b c d e f g i (suc zero) h = b
below_eight P a b c d e f g i (suc (suc zero)) h = c
below_eight P a b c d e f g i (suc (suc (suc zero))) h = d
below_eight P a b c d e f g i (suc (suc (suc (suc zero)))) h = e
below_eight P a b c d e f g i (suc (suc (suc (suc (suc zero))))) h = f
below_eight P a b c d e f g i (suc (suc (suc (suc (suc (suc zero)))))) h = g
below_eight P a b c d e f g i (suc (suc (suc (suc (suc (suc (suc zero))))))) h = i
below_eight P a b c d e f g i (suc (suc (suc (suc (suc (suc (suc (suc k)))))))) h =
    absurd (omega arith)

module _ (acc x : ℕ) (is_byte : x < 256) where
  -- The bits that are moved in from the byte before lie above those that stay.
  moved_in : (k : ℕ) → k < 8 → acc % 256 * 2 ^ (8 - k) % 256 ≡ acc % 256 % 2 ^ k * 2 ^ (8 - k)
  moved_in =
      below_eight (λ k. acc % 256 * 2 ^ (8 - k) % 256 ≡ acc % 256 % 2 ^ k * 2 ^ (8 - k))
        (omega arith) (omega arith) (omega arith) (omega arith) (omega arith) (omega arith)
        (omega arith) (omega arith)

  stay_below : (k : ℕ) → k < 8 → x / 2 ^ k < 2 ^ (8 - k)
  stay_below =
      below_eight (λ k. x / 2 ^ k < 2 ^ (8 - k)) (omega arith) (omega arith) (omega arith)
        (omega arith) (omega arith) (omega arith) (omega arith) (omega arith)

  shifted_value :
      (k : ℕ)
      → k < 8
      → acc / 2 ^ k * 256 + (acc % 256 * 2 ^ (8 - k) % 256 + x / 2 ^ k) ≡ (acc * 256 + x) / 2 ^ k
  shifted_value =
      below_eight
        (λ k.
          acc / 2 ^ k * 256 + (acc % 256 * 2 ^ (8 - k) % 256 + x / 2 ^ k) ≡ (acc * 256 + x) / 2 ^ k)
        (omega arith) (omega arith) (omega arith) (omega arith) (omega arith) (omega arith)
        (omega arith) (omega arith)

  shifted_byte :
      (k : ℕ)
      → k < 8
      → acc / 2 ^ k * 256 + bit_or (x / 2 ^ k) (acc % 256 * 2 ^ (8 - k) % 256)
        ≡ (acc * 256 + x) / 2 ^ k
  shifted_byte k h = omega (
    arith,
    bit_or_comm (x / 2 ^ k) (acc % 256 * 2 ^ (8 - k) % 256),
    bit_or-multiple (8 - k) (acc % 256 % 2 ^ k) (acc % 256 * 2 ^ (8 - k) % 256) (x / 2 ^ k)
        (moved_in k h) (stay_below k h),
    shifted_value k h,
  )

be_value-shift_after :
    (k acc : ℕ) (s : Bytes)
    → k < 8
    → All IsByte s
    → be_value (acc / 2 ^ k) (shift_after k (acc % 256) s) ≡ be_value acc s / 2 ^ k
unfolding be_value shift_after
be_value-shift_after k acc [] h a = refl
be_value-shift_after k acc (x ∷ s) h a =
    let last : (acc * 256 + x) % 256 ≡ x = omega (arith, a.0) in
    let rest = be_value-shift_after k (acc * 256 + x) s h a.1 in
    rw (be_value, shifted_byte acc x a.0 k h) (rw (last) at rest)

length-shift_after : (k prev : ℕ) (s : Bytes) → length (shift_after k prev s) ≡ length s
unfolding shift_after
length-shift_after k prev [] = refl
length-shift_after k prev (x ∷ s) = ap suc (length-shift_after k x s)

be_value_head : (x : ℕ) (s : Bytes) → be_value 0 (x ∷ s) ≡ be_value x s
unfolding be_value
be_value_head x s = ap (λ v. be_value v s) (omega arith)

-- A shift by less than a byte gives as many bytes, for the number that the shift of the whole number
-- gives: none of its bits is lost between bytes.
pub be_value-right_shift :
    (b : Bytes) (shift : ℕ)
    → All IsByte b
    → shift < 8
    → (s : Bytes) × (right_shift b shift ≡ ok s)
      × (length s ≡ length b)
      × (be_value 0 s ≡ be_value 0 b / 2 ^ shift)
unfolding right_shift be_value
be_value-right_shift [] shift a h = (
  [],
  rw (gt→leb 8 shift h) refl,
  refl,
  below_eight (λ k. 0 ≡ 0 / 2 ^ k) refl refl refl refl refl refl refl refl shift h,
)
be_value-right_shift (x ∷ s) shift a h =
    let last : x % 256 ≡ x = omega (arith, a.0) in
    let rest = be_value-shift_after shift x s h a.1 in
    (
      x / 2 ^ shift ∷ shift_after shift x s,
      rw (gt→leb 8 shift h) refl,
      ap suc (length-shift_after shift x s),
      be_value_head (x / 2 ^ shift) (shift_after shift x s)
          ∙ (rw (last) at rest ∙ ap (λ v. v / 2 ^ shift) (sym (be_value_head x s))),
    )

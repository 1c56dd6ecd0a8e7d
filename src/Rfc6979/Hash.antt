-- ===== src/Rfc6979/Hash.antt =====
-- A hash as a number modulo the order of the curve (ecdsa.go, `hashToNat`), against its definition in
-- SEC 1 by the left-most bits.
use sunlight.Prelude.{
  ℕ, zero, suc, ◌+◌, ◌-◌, ◌*◌, ◌/◌, ◌%◌, ◌^◌, ◌<◌, ◌≤◌, ◌≡◌, refl, sym, ◌∙◌, ap, [], ◌∷◌, Outcome,
  ok, panic, ◌>>=◌, ltb, leb, if◌then◌else◌, length, All, arith, inl, inr, Bool-cases, leb→le,
}
use native.Mathlib.Nat.{
  pow-suc, div-div-eq-div-mul, div-lt_iff_lt-mul, pow-le-pow_right, one-le-pow,
}
use sunlight.Prelude.Bits.{two_pow-add, pow_bytes}
use sunlight.Errors.{EcdsaError}
use sunlight.Cryptobyte.Wire.{Bytes, IsByte, be_value, be_value-lt}
use sunlight.Rfc6979.Shift.{right_shift, be_value-right_shift}
use sunlight.Rfc6979.Curve.{Bigmod, NistCurve}

-- `hash[:size]` of a hash that is long enough
unfoldable pub take : ℕ → Bytes → Bytes
take zero s = []
take (suc n) [] = []
take (suc n) (x ∷ s) = x ∷ take n s

-- `panic` in place of an error
abbrev pub or_panic : {A : Type 0} → Outcome EcdsaError A → Outcome EcdsaError A
or_panic (ok a) = ok a
or_panic _ = panic

module _ {Point : Type 0} (bm : Bigmod) (c : NistCurve Point) where
  -- The shift where there are more bits than the order has
  abbrev pub drop_excess : Bytes → Outcome EcdsaError Bytes
  drop_excess b =
      let excess = length b * 8 - bm.bit_len c.n in
      if ltb 0 excess then right_shift b excess else ok b

  -- `hashToNat`
  unfoldable pub hash_to_nat : Bytes → Outcome EcdsaError ℕ
  unfolding take right_shift
  hash_to_nat hash =
      let size = bm.size c.n in
      (if leb size (length hash) then drop_excess (take size hash) else ok hash) >>= λ h.
      or_panic (bm.set_overflowing_bytes h c.n)

-- `bits2int` of SEC 1: the `len` left-most bits, or all where there are fewer
abbrev pub left_most : ℕ → Bytes → ℕ
left_most len hash = be_value 0 hash / 2 ^ (length hash * 8 - len)

be_value-div : (acc : ℕ) (s : Bytes) → All IsByte s → be_value acc s / 256 ^ length s ≡ acc
unfolding be_value
be_value-div acc [] h = omega arith
be_value-div acc (x ∷ s) h =
    ap (λ m. be_value (acc * 256 + x) s / m) (pow-suc 256 (length s))
    ∙ (sym (div-div-eq-div-mul (be_value (acc * 256 + x) s) (256 ^ length s) 256)
        ∙ omega (arith, be_value-div (acc * 256 + x) s h.1, h.0))

be_value-take :
    (acc n : ℕ) (s : Bytes)
    → All IsByte s
    → n ≤ length s
    → be_value acc s / 256 ^ (length s - n) ≡ be_value acc (take n s)
unfolding be_value take
be_value-take acc zero s a h =
    ap (λ m. be_value acc s / 256 ^ m) (omega arith) ∙ be_value-div acc s a
be_value-take acc (suc n) [] a h = absurd (omega (arith, h))
be_value-take acc (suc n) (x ∷ s) a h =
    ap (λ m. be_value (acc * 256 + x) s / 256 ^ m) (omega arith)
    ∙ be_value-take (acc * 256 + x) n s a.1 (omega (arith, h))

pub take-IsByte : (n : ℕ) (s : Bytes) → All IsByte s → All IsByte (take n s)
unfolding take
take-IsByte zero s h = tt
take-IsByte (suc n) [] h = tt
take-IsByte (suc n) (x ∷ s) h = (h.0, take-IsByte n s h.1)

pub length-take : (n : ℕ) (s : Bytes) → n ≤ length s → length (take n s) ≡ n
unfolding take
length-take zero s h = refl
length-take (suc n) [] h = absurd (omega (arith, h))
length-take (suc n) (x ∷ s) h = ap suc (length-take n s (omega (arith, h)))

-- The left-most bits are no more than were asked for.
left_most-lt : (len : ℕ) (hash : Bytes) → All IsByte hash → left_most len hash < 2 ^ len
left_most-lt len hash a = (div-lt_iff_lt-mul (one-le-pow _ _ (omega arith))).1 (
    omega (
      arith,
      be_value-lt hash a,
      pow_bytes (length hash),
      two_pow-add len (length hash * 8 - len),
      pow-le-pow_right {n = 2} (omega arith) {i = length hash * 8}
          {j = len + (length hash * 8 - len)} (omega arith),
    ))

-- The bytes that are kept, shifted by the excess, are the left-most bits.
pub left_most-take :
    (len size : ℕ) (hash : Bytes)
    → All IsByte hash
    → len ≤ size * 8
    → size ≤ length hash
    → be_value 0 (take size hash) / 2 ^ (size * 8 - len) ≡ left_most len hash
left_most-take len size hash a l h =
    let m = length hash - size in
    ap (λ v. v / 2 ^ (size * 8 - len)) (sym (be_value-take 0 size hash a h))
    ∙ (div-div-eq-div-mul (be_value 0 hash) (256 ^ m) (2 ^ (size * 8 - len))
        ∙ ap (λ v. be_value 0 hash / v)
            (ap (λ v. v * 2 ^ (size * 8 - len)) (pow_bytes m)
              ∙ (sym (two_pow-add (m * 8) (size * 8 - len))
                  ∙ ap (λ v. 2 ^ v) (omega (arith, l, h)))))

module _ {Point : Type 0} (bm : Bigmod) (c : NistCurve Point) where
  kept :
      (b : Bytes) (v : ℕ)
      → be_value 0 b ≡ v
      → v < 2 ^ bm.bit_len c.n
      → or_panic (bm.set_overflowing_bytes b c.n) ≡ ok (v % c.n)
  kept b v same bound =
      ap or_panic (bm.set_overflowing_bytes_lem b c.n (omega (arith, same, bound)))
      ∙ ap (λ x. ok (x % c.n)) same

  drop_excess_eq :
      (b : Bytes)
      → All IsByte b
      → length b * 8 - bm.bit_len c.n < 8
      → (s : Bytes) × (drop_excess bm c b ≡ ok s)
        × (be_value 0 s ≡ be_value 0 b / 2 ^ (length b * 8 - bm.bit_len c.n))
  drop_excess_eq b a small = elim (Bool-cases (ltb 0 (length b * 8 - bm.bit_len c.n))) [
    | inl more ↦
        let (s, shifted, _, value) =
          be_value-right_shift b (length b * 8 - bm.bit_len c.n) a small in
        (s, rw (more) shifted, value)
    | inr none_more ↦
        let zero_more : length b * 8 - bm.bit_len c.n ≡ 0 = ground arith in
        (b, rw (none_more) refl, rw (zero_more) (omega arith))
  ]

  -- The hash of a message is taken for the number of its left-most bits, as many as the order of the
  -- curve has, modulo the order; no hash, however long or short, makes it panic.
  pub hash_to_nat_eq :
      (hash : Bytes)
      → All IsByte hash
      → hash_to_nat bm c hash ≡ ok (left_most (bm.bit_len c.n) hash % c.n)
  unfolding hash_to_nat
  hash_to_nat_eq hash a =
      let len = bm.bit_len c.n in
      let size = bm.size c.n in
      let size_is : size ≡ (len + 7) / 8 = bm.size_lem c.n in
      let bound = left_most-lt len hash a in
      elim (Bool-cases (leb size (length hash))) [
        | inl long ↦
            let long' = leb→le size (length hash) long in
            let len_is = length-take size hash long' in
            let (s, dropped, value) =
              drop_excess_eq (take size hash) (take-IsByte size hash a)
                (omega (arith, len_is, size_is)) in
            let same : be_value 0 s ≡ left_most len hash =
              value
              ∙ (ap (λ m. be_value 0 (take size hash) / 2 ^ (m * 8 - len)) len_is
                  ∙ left_most-take len size hash a (omega (arith, size_is)) long') in
            rw (long, dropped) (kept s (left_most len hash) same bound)
        | inr short ↦
            let whole : length hash * 8 - len ≡ 0 = ground (arith, size_is) in
            let same : be_value 0 hash ≡ left_most len hash = rw (whole) (omega arith) in
            rw (short) (kept hash (left_most len hash) same bound)
      ]

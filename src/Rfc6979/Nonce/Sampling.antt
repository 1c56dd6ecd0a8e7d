-- ===== src/Rfc6979/Nonce/Sampling.antt =====
-- The sampling of nonces (ecdsa.go, `randomPoint` over `rfc6979DRBG`) takes the first candidate that
-- is suitable, as RFC 6979 says in 3.2.
use sunlight.Prelude.{
  ℕ, zero, suc, ◌+◌, ◌-◌, ◌*◌, ◌/◌, ◌%◌, ◌<◌, ◌≤◌, ◌≡◌, refl, ◌∙◌, ap, ◌⊎◌, inl, inr, [], ◌∷◌,
  false, ltb, ltb→lt, length, length-append, All, All-append, ok, none, some, arith, Bool-cases,
  Outcome, panic, sym, >>=-eq-ok, ok-injective,
}
use sunlight.Errors.{EcdsaError}
use sunlight.Cryptobyte.Wire.{Bytes, IsByte, be_value}
use sunlight.Rfc6979.Shift.{be_value-right_shift}
use sunlight.Rfc6979.Curve.{Bigmod, NistCurve, Hmac}
use sunlight.Rfc6979.Hash.{take, take-IsByte, left_most}
use sunlight.Rfc6979.Nonce.{Drbg, fill, draw, shifted_candidate, accepted, sample}

-- What is taken and what is still missing
length-take_rest : (n : ℕ) (s : Bytes) → length (take n s) + (n - length s) ≡ n
unfolding take
length-take_rest zero s = omega arith
length-take_rest (suc n) [] = omega arith
length-take_rest (suc n) (x ∷ s) = omega (arith, length-take_rest n s)

module _ (hm : Hmac) where
  -- Enough rounds fill all the bytes.
  fill_lem :
      (rounds left : ℕ) (k v : Bytes)
      → left ≤ rounds
      → (length (fill hm rounds left k v).0 ≡ left) × All IsByte (fill hm rounds left k v).0
  unfolding fill
  fill_lem zero left k v h = (omega (arith, h), tt)
  fill_lem (suc rounds) left k v h = elim (Bool-cases (ltb 0 left)) [
    | inr done ↦ rw (done) ((ground arith), tt)
    | inl more ↦
        let next = hm.sum k v in
        let long = hm.length-sum k v in
        let (len, bytes) =
          fill_lem rounds (left - length next) k next
            (omega (arith, h, long, hm.hash_size_positive, ltb→lt 0 left more)) in
        rw (more) (
          length-append (take left next) _ ∙ omega (arith, len, length-take_rest left next),
          All-append IsByte (take left next) _ (take-IsByte left next (hm.sum-IsByte k v)) bytes,
        )
  ]

  -- A draw gives as many bytes as it was asked for.
  pub draw_lem :
      (seed : Bytes) (len : ℕ) (d : Drbg)
      → (length (draw hm seed len d).0 ≡ len) × All IsByte (draw hm seed len d).0
  unfolding draw
  draw_lem seed len d = fill_lem len len _ _ (omega arith)

module _ {Point : Type 0} (bm : Bigmod) (c : NistCurve Point) (hm : Hmac) (seed : Bytes) where
  -- The number that the next draw stands for, and that of the draw after `i` others
  abbrev pub candidate : Drbg → ℕ
  candidate d = left_most (bm.bit_len c.n) (draw hm seed (bm.size c.n) d).0

  abbrev pub candidate_at : ℕ → Drbg → ℕ
  candidate_at zero d = candidate d
  candidate_at (suc i) d = candidate_at i (draw hm seed (bm.size c.n) d).1

  -- Every candidate before the `i`th is zero or not below the order.
  abbrev pub AllRejected : ℕ → Drbg → Type 0
  AllRejected zero d = Unit {0}
  AllRejected (suc i) d =
      ((candidate d ≡ 0) ⊎ (c.n ≤ candidate d)) × AllRejected i (draw hm seed (bm.size c.n) d).1

  -- Only a curve whose order does not have whole bytes has excess bits.
  abbrev pub HasExcess : Type 0
  HasExcess = c.is_p521 ≡ false → bm.bit_len c.n % 8 ≡ 0

  shifted_candidate_eq :
      (b : Bytes)
      → HasExcess
      → All IsByte b
      → length b ≡ bm.size c.n
      → (s : Bytes) × (shifted_candidate bm c hm seed b ≡ ok s)
        × (be_value 0 s ≡ left_most (bm.bit_len c.n) b)
  shifted_candidate_eq b e a len =
      let bits = bm.bit_len c.n in
      let size_is : length b ≡ (bits + 7) / 8 = len ∙ bm.size_lem c.n in
      elim (Bool-cases (ltb 0 (length b * 8 - bits))) [
        | inr whole ↦
            let zero_more : length b * 8 - bits ≡ 0 = ground arith in
            (b, rw (whole) refl, rw (zero_more) (omega arith))
        | inl more ↦ elim (Bool-cases c.is_p521) [
          | inl p521 ↦
              let (s, shifted, _, value) =
                be_value-right_shift b (length b * 8 - bits) a (omega (arith, size_is)) in
              (s, rw (more, p521) shifted, value)
          | inr other ↦
              absurd (omega (arith, e other, size_is, ltb→lt 0 (length b * 8 - bits) more))
        ]
      ]

  -- A candidate is accepted exactly if it is positive and below the order.
  accepted_suitable :
      (b : Bytes)
      → 0 < be_value 0 b
      → be_value 0 b < c.n
      → accepted bm c hm seed (bm.set_bytes b c.n) ≡ some (be_value 0 b)
  accepted_suitable b p l =
      ap (accepted bm c hm seed) (bm.set_bytes_lem b c.n l) ∙ positive (be_value 0 b) p
    where
      positive : (v : ℕ) → 0 < v → accepted bm c hm seed (ok v) ≡ some v
      positive zero p = absurd (omega arith)
      positive (suc v) p = refl

  accepted_unsuitable :
      (b : Bytes)
      → (be_value 0 b ≡ 0) ⊎ (c.n ≤ be_value 0 b)
      → accepted bm c hm seed (bm.set_bytes b c.n) ≡ none
  accepted_unsuitable b (inr large) = rw (bm.set_bytes_overflow b c.n large) refl
  accepted_unsuitable b (inl nil) =
      ap (accepted bm c hm seed)
        (bm.set_bytes_lem b c.n (omega (arith, nil, c.n_large)) ∙ ap ok nil)

  -- The loop gives the first candidate that is positive and below the order.
  pub sample_first :
      (i fuel : ℕ) (d : Drbg)
      → HasExcess
      → i < fuel
      → AllRejected i d
      → 0 < candidate_at i d
      → candidate_at i d < c.n
      → sample bm c hm seed fuel d ≡ ok (candidate_at i d)
  unfolding sample
  sample_first i zero d e h r p l = absurd (omega (arith, h))
  sample_first zero (suc fuel) d e h r p l =
      let (len, bytes) = draw_lem hm seed (bm.size c.n) d in
      let (s, shifted, value) = shifted_candidate_eq (draw hm seed (bm.size c.n) d).0 e bytes len in
      let good = accepted_suitable s (omega (arith, value, p)) (omega (arith, value, l)) in
      rw (shifted, good) (ap ok value)
  sample_first (suc i) (suc fuel) d e h (first, r) p l =
      let (len, bytes) = draw_lem hm seed (bm.size c.n) d in
      let (s, shifted, value) = shifted_candidate_eq (draw hm seed (bm.size c.n) d).0 e bytes len in
      let bad = accepted_unsuitable s (elim first [
        | inl nil ↦ inl (value ∙ nil)
        | inr large ↦ inr (omega (arith, value, large))
      ]) in
      rw (shifted, bad)
        (sample_first i fuel (draw hm seed (bm.size c.n) d).1 e (omega (arith, h)) r p l)

  -- Bytes that are shifted have the value of their left-most bits.
  shifted_candidate-eq-ok :
      (b s : Bytes)
      → All IsByte b
      → length b ≡ bm.size c.n
      → shifted_candidate bm c hm seed b ≡ ok s
      → be_value 0 s ≡ left_most (bm.bit_len c.n) b
  shifted_candidate-eq-ok b s a len h =
      let bits = bm.bit_len c.n in
      let size_is : length b ≡ (bits + 7) / 8 = len ∙ bm.size_lem c.n in
      elim (Bool-cases (ltb 0 (length b * 8 - bits))) [
        | inr whole ↦
            let zero_more : length b * 8 - bits ≡ 0 = ground arith in
            let same : b ≡ s = ok-injective {E = EcdsaError} _ _ (rw (whole) at h) in
            rw (zero_more, ← same) (omega arith)
        | inl more ↦ elim (Bool-cases c.is_p521) [
          | inl p521 ↦
              let (s', shifted, _, value) =
                be_value-right_shift b (length b * 8 - bits) a (omega (arith, size_is)) in
              let same : s' ≡ s =
                ok-injective {E = EcdsaError} _ _ (sym shifted ∙ (rw (more, p521) at h)) in
              ap (be_value 0) (sym same) ∙ value
          | inr other ↦
              let panicked : ◌≡◌ {A = Outcome EcdsaError Bytes} panic (ok s) =
                rw (more, other) at h in
              absurd (cc panicked)
        ]
      ]

  -- What the loop gives is such a candidate.
  pub sample-eq-ok :
      (fuel : ℕ) (d : Drbg) (k : ℕ)
      → sample bm c hm seed fuel d ≡ ok k
      → (i : ℕ) × (i < fuel) × AllRejected i d × (k ≡ candidate_at i d)
  unfolding sample
  sample-eq-ok zero d k h = absurd (cc h)
  sample-eq-ok (suc fuel) d k h =
      let drawn = draw hm seed (bm.size c.n) d in
      let (len, bytes) = draw_lem hm seed (bm.size c.n) d in
      let (s, shifted, rest) = >>=-eq-ok (shifted_candidate bm c hm seed drawn.0) _ h in
      let value = shifted_candidate-eq-ok drawn.0 s bytes len shifted in
      elim (suitable s) [
        | inl (p, l) ↦
            let same : be_value 0 s ≡ k =
              ok-injective {E = EcdsaError} _ _ (rw (accepted_suitable s p l) at rest) in
            (0, omega arith, tt, sym same ∙ value)
        | inr bad ↦
            let (i, less, rejected, found) =
              sample-eq-ok fuel drawn.1 k (rw (accepted_unsuitable s bad) at rest) in
            (suc i, omega (arith, less), (again bad value, rejected), found)
      ]
    where
      suitable :
          (s : Bytes)
          → ((0 < be_value 0 s) × (be_value 0 s < c.n))
            ⊎ ((be_value 0 s ≡ 0) ⊎ (c.n ≤ be_value 0 s))
      suitable s = elim (Bool-cases (ltb 0 (be_value 0 s))) [
        | inr nil ↦ inr (inl (ground arith))
        | inl more ↦ elim (Bool-cases (ltb (be_value 0 s) c.n)) [
          | inl less ↦ inl (ground arith, ground arith)
          | inr large ↦ inr (inr (ground arith))
        ]
      ]

      again : {v w : ℕ} → (v ≡ 0) ⊎ (c.n ≤ v) → v ≡ w → (w ≡ 0) ⊎ (c.n ≤ w)
      again (inl z) e = inl (sym e ∙ z)
      again (inr m) e = inr (omega (arith, m, e))

-- ===== src/Rfc6979/Nonce/Bounds.antt =====
-- The ranges of the numbers that ecdsa.go draws and reads: hashes, nonces and keys.
use sunlight.Prelude.{
  ℕ, zero, suc, ◌<◌, ◌≡◌, refl, sym, ◌∙◌, ap, inl, inr, leb, ltb, ltb→lt, if◌then◌else◌, length,
  Outcome, ok, err, panic, >>=-eq-ok, arith, Bool-cases, ok-injective,
}
use sunlight.Errors.{EcdsaError, input_overflows_modulus}
use sunlight.Cryptobyte.Wire.{Bytes, be_value}
use sunlight.Rfc6979.Curve.{Bigmod, NistCurve, Hmac}
use sunlight.Rfc6979.Hash.{hash_to_nat, or_panic, drop_excess, take}
use sunlight.Rfc6979.Nonce.{Drbg, draw, shifted_candidate, accepted, or_next, sample, random_point}

module _ {Point : Type 0} (bm : Bigmod) (c : NistCurve Point) where
  or_panic-eq-ok : {A : Type 0} (m : Outcome EcdsaError A) {a : A} → or_panic m ≡ ok a → m ≡ ok a
  or_panic-eq-ok (ok a) h = h
  or_panic-eq-ok (err e) h = absurd (cc h)
  or_panic-eq-ok panic h = absurd (cc h)

  pub hash_to_nat-lt : (hash : Bytes) {e : ℕ} → hash_to_nat bm c hash ≡ ok e → e < c.n
  unfolding hash_to_nat
  hash_to_nat-lt hash h =
      let size = bm.size c.n in
      let (b, _, rest) =
        >>=-eq-ok (if leb size (length hash) then drop_excess bm c (take size hash) else ok hash)
          (λ b. or_panic (bm.set_overflowing_bytes b c.n)) h in
      bm.set_overflowing_bytes-lt b c.n _ (omega (arith, c.n_large)) (or_panic-eq-ok _ rest)

  pub set_bytes_bound :
      (b : Bytes) {x : ℕ} → bm.set_bytes b c.n ≡ ok x → (be_value 0 b ≡ x) × (x < c.n)
  set_bytes_bound b {x} h = elim (Bool-cases (ltb (be_value 0 b) c.n)) [
    | inl less ↦
        let l = ltb→lt (be_value 0 b) c.n less in
        let same : be_value 0 b ≡ x = ok-injective _ _ (sym (bm.set_bytes_lem b c.n l) ∙ h) in
        (same, omega (arith, same, l))
    | inr more ↦
        let refusal : ◌≡◌ {A = Outcome EcdsaError ℕ} (err input_overflows_modulus) (ok x) =
          sym (bm.set_bytes_overflow b c.n (ground arith)) ∙ h in
        absurd (cc refusal)
  ]

  module _ (hm : Hmac) (seed : Bytes) where
    accepted_bound :
        (b : Bytes) (rest : Outcome EcdsaError ℕ) (k : ℕ)
        → (rest ≡ ok k → (0 < k) × (k < c.n))
        → or_next bm c hm seed (accepted bm c hm seed (bm.set_bytes b c.n)) rest ≡ ok k
        → (0 < k) × (k < c.n)
    accepted_bound b rest k later h = by_outcome (bm.set_bytes b c.n) (λ x g. set_bytes_bound b g) h
      where
        by_outcome :
            (m : Outcome EcdsaError ℕ)
            → ((x : ℕ) → m ≡ ok x → (be_value 0 b ≡ x) × (x < c.n))
            → or_next bm c hm seed (accepted bm c hm seed m) rest ≡ ok k
            → (0 < k) × (k < c.n)
        by_outcome (ok zero) bound h = later h
        by_outcome (ok (suc x)) bound h =
            let same : suc x ≡ k = ok-injective _ _ h in
            (omega (arith, same), omega (arith, same, (bound (suc x) refl).1))
        by_outcome (err e) bound h = later h
        by_outcome panic bound h = later h

    -- A nonce is positive and below the order.
    sample_bound :
        (fuel : ℕ) (d : Drbg) (k : ℕ) → sample bm c hm seed fuel d ≡ ok k → (0 < k) × (k < c.n)
    unfolding sample
    sample_bound zero d k h = absurd (cc h)
    sample_bound (suc fuel) d k h =
        let next = (draw hm seed (bm.size c.n) d).1 in
        let (b, _, rest) =
          >>=-eq-ok (shifted_candidate bm c hm seed (draw hm seed (bm.size c.n) d).0) _ h in
        accepted_bound b (sample bm c hm seed fuel next) k (sample_bound fuel next k) rest

    pub random_point_bound :
        (fuel : ℕ) (d : Drbg) {k : ℕ} {p : Point}
        → random_point bm c hm seed fuel d ≡ ok (k, p)
        → (0 < k) × (k < c.n)
    unfolding random_point
    random_point_bound fuel d {k} {p} h =
        let (k', sampled, h₁) = >>=-eq-ok (sample bm c hm seed fuel d) _ h in
        let (q, _, h₂) = >>=-eq-ok (c.scalar_base_mult (bm.bytes k' c.n)) _ h₁ in
        let same : k' ≡ k = ap (λ y. y.0) (ok-injective _ _ h₂) in
        rw (← same) (sample_bound fuel d k' sampled)

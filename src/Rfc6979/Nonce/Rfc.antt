-- ===== src/Rfc6979/Nonce/Rfc.antt =====
-- The candidates for a nonce as RFC 6979 defines them, in the steps of 3.2, and that the generator of
-- ecdsa.go draws them.
use sunlight.Prelude.{
  ℕ, zero, suc, ◌+◌, ◌-◌, ◌*◌, ◌/◌, ◌^◌, ◌≤◌, ◌<◌, ◌≡◌, refl, sym, ◌∙◌, ap, ◌⊎◌, inl, inr, [], ◌∷◌,
  ◌++◌, true, false, ltb, if◌then◌else◌, length, length-append, All, All-append, replicate, arith,
  Bool-cases, append-nil, append_assoc, subst, ok, ◌%◌,
}
use sunlight.Cryptobyte.Wire.{Bytes, IsByte, be_value}
use sunlight.Rfc6979.Curve.{Bigmod, NistCurve, Hmac}
use sunlight.Rfc6979.Hash.{take, length-take, left_most, left_most-take}
use sunlight.Rfc6979.Nonce.{Drbg, new_drbg, fill, draw, sample}
use sunlight.Rfc6979.Nonce.Sampling.{candidate, candidate_at, AllRejected, sample_first}

-- The variables K and V of RFC 6979
abbrev pub Kv : Type 0
Kv = Bytes × Bytes

module _ (hm : Hmac) where
  -- Steps b to g, for the private key and the hash as bytes, one behind the other
  abbrev pub rfc_start : Bytes → Kv
  rfc_start seed =
      let v = replicate hm.hash_size 1 in
      let k = replicate hm.hash_size 0 in
      let k = hm.sum k (v ++ ((0 ∷ []) ++ seed)) in
      let v = hm.sum k v in
      let k = hm.sum k (v ++ ((1 ∷ []) ++ seed)) in let v = hm.sum k v in (k, v)

  -- Step h.2, for `qlen` bits: T grows by one V after the other while it is too short. The first
  -- argument is fuel; T grows by a byte or more in each round.
  unfoldable pub rfc_gather : ℕ → ℕ → Bytes → Kv → Bytes × Bytes
  rfc_gather zero qlen t kv = (t, kv.1)
  rfc_gather (suc rounds) qlen t kv =
      let v = hm.sum kv.0 kv.1 in
      let rest = rfc_gather rounds qlen (t ++ v) (kv.0, v) in
      if ltb (length t * 8) qlen then rest else (t, kv.1)

  -- The end of step h.3, behind a candidate that is not suitable, for the V that it ended with
  abbrev pub rfc_retry : Bytes → Bytes → Kv
  rfc_retry k v = let k = hm.sum k (v ++ (0 ∷ [])) in (k, hm.sum k v)

  -- The candidate of step h.3, and that behind `i` others
  abbrev pub rfc_candidate : ℕ → Kv → ℕ
  rfc_candidate qlen kv = left_most qlen (rfc_gather qlen qlen [] kv).0

  abbrev pub rfc_next : ℕ → Kv → Kv
  rfc_next qlen kv = rfc_retry kv.0 (rfc_gather qlen qlen [] kv).1

  abbrev pub rfc_candidate_at : ℕ → ℕ → Kv → ℕ
  rfc_candidate_at zero qlen kv = rfc_candidate qlen kv
  rfc_candidate_at (suc i) qlen kv = rfc_candidate_at i qlen (rfc_next qlen kv)

  -- Every candidate before the `i`th is zero or not below `q`.
  abbrev pub AllUnsuitable : ℕ → ℕ → ℕ → Kv → Type 0
  AllUnsuitable zero qlen q kv = Unit {0}
  AllUnsuitable (suc i) qlen q kv =
      ((rfc_candidate qlen kv ≡ 0) ⊎ (q ≤ rfc_candidate qlen kv))
      × AllUnsuitable i qlen q (rfc_next qlen kv)

take-whole : (n : ℕ) (s : Bytes) → length s ≤ n → take n s ≡ s
unfolding take
take-whole zero [] h = refl
take-whole zero (x ∷ s) h = absurd (omega (arith, h))
take-whole (suc n) [] h = refl
take-whole (suc n) (x ∷ s) h = ap (λ t. x ∷ t) (take-whole n s (omega (arith, h)))

take-append : (n : ℕ) (s t : Bytes) → length s ≤ n → take n (s ++ t) ≡ s ++ take (n - length s) t
unfolding take
take-append n [] t h = ap (λ m. take m t) (omega arith)
take-append zero (x ∷ s) t h = absurd (omega (arith, h))
take-append (suc n) (x ∷ s) t h =
    ap (λ t. x ∷ t) (take-append n s t (omega (arith, h)) ∙ ap (λ m. s ++ take m t) (omega arith))

module _ (hm : Hmac) where
  -- The bytes that the code fills are the first of T, and both end with the same V.
  fill-rfc_gather :
      (rounds fuel size qlen left : ℕ) (t k v : Bytes)
      → qlen ≤ size * 8
      → size * 8 < qlen + 8
      → left ≡ size - length t
      → left ≤ rounds
      → qlen ≤ length t * 8 + fuel
      → (take size (rfc_gather hm fuel qlen t (k, v)).0
          ≡ take size t ++ (fill hm rounds left k v).0)
        × ((rfc_gather hm fuel qlen t (k, v)).1 ≡ (fill hm rounds left k v).1)
        × (size ≤ length (rfc_gather hm fuel qlen t (k, v)).0)
        × (All IsByte t → All IsByte (rfc_gather hm fuel qlen t (k, v)).0)
  unfolding fill rfc_gather
  fill-rfc_gather zero zero size qlen left t k v a b e l f =
      (sym (append-nil _), refl, omega (arith, a, b, e, l, f), λ h. h)
  fill-rfc_gather (suc rounds) zero size qlen left t k v a b e l f =
      let none : ltb 0 left ≡ false = ground (arith, a, b, e, f) in
      rw (none) (sym (append-nil _), refl, omega (arith, a, b, e, l, f), λ h. h)
  fill-rfc_gather zero (suc fuel) size qlen left t k v a b e l f =
      let done : ltb (length t * 8) qlen ≡ false = ground (arith, a, b, e, l) in
      rw (done) (sym (append-nil _), refl, omega (arith, a, b, e, l), λ h. h)
  fill-rfc_gather (suc rounds) (suc fuel) size qlen left t k v a b e l f =
      let next = hm.sum k v in
      let long = hm.length-sum k v in
      elim (Bool-cases (ltb 0 left)) [
        | inr none ↦
            let done : ltb (length t * 8) qlen ≡ false = ground (arith, a, b, e) in
            rw (none, done) (sym (append-nil _), refl, ground (arith, e), λ h. h)
        | inl more ↦
            let going : ltb (length t * 8) qlen ≡ true = ground (arith, a, b, e) in
            let short : length t ≤ size = ground (arith, e) in
            let grown = length-append t next in
            let rest = (fill hm rounds (left - length next) k next).0 in
            let (first, end, enough, bytes) =
              fill-rfc_gather rounds fuel size qlen (left - length next) (t ++ next) k next a b
                (omega (arith, e, grown)) (omega (arith, l, long, hm.hash_size_positive))
                (omega (arith, f, grown, long, hm.hash_size_positive)) in
            rw (more, going)
              (
                first
                    ∙ (ap (λ z. z ++ rest)
                          (take-append size t next short ∙ ap (λ n. t ++ take n next) (sym e))
                        ∙ (append_assoc t (take left next) rest
                            ∙ ap (λ z. z ++ (take left next ++ rest))
                                (sym (take-whole size t short)))),
                end,
                enough,
                λ h. bytes (All-append IsByte t next h (hm.sum-IsByte k v)),
              )
      ]

  module _ (seed : Bytes) where
    -- K and V where the next draw makes its T
    abbrev pub kv_of : Drbg → Kv
    kv_of d =
        let k = hm.sum d.k (if d.first_loop then d.v ++ (1 ∷ seed) else d.v ++ (0 ∷ [])) in
        (k, hm.sum k d.v)

    new_drbg_lem : kv_of (new_drbg hm seed) ≡ rfc_start hm seed
    unfolding new_drbg
    new_drbg_lem = refl

    module _ {Point : Type 0} (bm : Bigmod) (c : NistCurve Point) where
      -- A draw is the candidate of RFC 6979, and the next draw goes on from its next K and V.
      draw-rfc :
          (d : Drbg)
          → (candidate bm c hm seed d ≡ rfc_candidate hm (bm.bit_len c.n) (kv_of d))
            × (kv_of (draw hm seed (bm.size c.n) d).1 ≡ rfc_next hm (bm.bit_len c.n) (kv_of d))
      unfolding draw
      draw-rfc d =
          let qlen = bm.bit_len c.n in
          let size = bm.size c.n in
          let size_is : size ≡ (qlen + 7) / 8 = bm.size_lem c.n in
          let kv = kv_of d in
          let (first, end, enough, bytes) =
            fill-rfc_gather size qlen size qlen size [] kv.0 kv.1 (omega (arith, size_is))
              (omega (arith, size_is)) (omega arith) (omega arith) (omega arith) in
          let t = (rfc_gather hm qlen qlen [] kv).0 in
          let drawn : take size t ≡ (fill hm size size kv.0 kv.1).0 =
            first
            ∙ ap (λ z. z ++ (fill hm size size kv.0 kv.1).0) (take-whole size [] (omega arith)) in
          (
            ap (left_most qlen) (sym drawn)
                ∙ (ap (λ n. be_value 0 (take size t) / 2 ^ (n * 8 - qlen))
                      (length-take size t enough)
                    ∙ left_most-take qlen size t (bytes tt) (omega (arith, size_is)) enough),
            ap (λ v. rfc_retry hm kv.0 v) (sym end),
          )

      candidate_at-rfc :
          (i : ℕ) (d : Drbg)
          → candidate_at bm c hm seed i d ≡ rfc_candidate_at hm i (bm.bit_len c.n) (kv_of d)
      candidate_at-rfc zero d = (draw-rfc d).0
      candidate_at-rfc (suc i) d =
          candidate_at-rfc i (draw hm seed (bm.size c.n) d).1
          ∙ ap (rfc_candidate_at hm i (bm.bit_len c.n)) (draw-rfc d).1

      pub candidate_at-new_drbg :
          (i : ℕ)
          → candidate_at bm c hm seed i (new_drbg hm seed)
            ≡ rfc_candidate_at hm i (bm.bit_len c.n) (rfc_start hm seed)
      candidate_at-new_drbg i =
          candidate_at-rfc i (new_drbg hm seed)
          ∙ ap (rfc_candidate_at hm i (bm.bit_len c.n)) new_drbg_lem

      AllRejected-rfc :
          (i : ℕ) (d : Drbg)
          → AllRejected bm c hm seed i d ≡ AllUnsuitable hm i (bm.bit_len c.n) c.n (kv_of d)
      AllRejected-rfc zero d = refl
      AllRejected-rfc (suc i) d =
          let (same, next) = draw-rfc d in
          ap
            (λ x.
              ((x ≡ 0) ⊎ (c.n ≤ x)) × AllRejected bm c hm seed i (draw hm seed (bm.size c.n) d).1)
            same
          ∙ ap
              (λ X.
                ((rfc_candidate hm (bm.bit_len c.n) (kv_of d) ≡ 0)
                  ⊎ (c.n ≤ rfc_candidate hm (bm.bit_len c.n) (kv_of d)))
                × X)
              (AllRejected-rfc i (draw hm seed (bm.size c.n) d).1
                ∙ ap (AllUnsuitable hm i (bm.bit_len c.n) c.n) next)

      pub AllRejected-new_drbg :
          (i : ℕ)
          → AllRejected bm c hm seed i (new_drbg hm seed)
            ≡ AllUnsuitable hm i (bm.bit_len c.n) c.n (rfc_start hm seed)
      AllRejected-new_drbg i =
          AllRejected-rfc i (new_drbg hm seed)
          ∙ ap (AllUnsuitable hm i (bm.bit_len c.n) c.n) new_drbg_lem

      -- Seeded with the private key and the hash, with more rounds than RFC 6979's sequence (3.2) has
      -- candidates that are zero or not below the order at its start, the loop of randomPoint ends,
      -- without panicking, and gives the candidate behind those, which is the nonce of RFC 6979; if
      -- the curve is P-521 or has an order of whole bytes.
      pub sample-new_drbg :
          (i fuel : ℕ)
          → (c.is_p521 ≡ false → bm.bit_len c.n % 8 ≡ 0)
          → i < fuel
          → AllUnsuitable hm i (bm.bit_len c.n) c.n (rfc_start hm seed)
          → 0 < rfc_candidate_at hm i (bm.bit_len c.n) (rfc_start hm seed)
          → rfc_candidate_at hm i (bm.bit_len c.n) (rfc_start hm seed) < c.n
          → sample bm c hm seed fuel (new_drbg hm seed)
            ≡ ok (rfc_candidate_at hm i (bm.bit_len c.n) (rfc_start hm seed))
      sample-new_drbg i fuel e h r p l =
          let same = candidate_at-new_drbg i in
          sample_first bm c hm seed i fuel (new_drbg hm seed) e h
            (subst (λ X. X) (sym (AllRejected-new_drbg i)) r) (omega (arith, same, p))
            (omega (arith, same, l))
          ∙ ap ok same

-- ===== src/Rfc6979/Signing/Der.antt =====
-- The encoding of a signature (ecdsa.go, `encodeSignature`), against the rules of DER.
use sunlight.Prelude.{
  ℕ, zero, suc, ◌+◌, ◌-◌, ◌^◌, ◌<◌, ◌≤◌, ◌≡◌, refl, ◌∙◌, ap, ◌⊎◌, inl, inr, [], ◌∷◌, ◌++◌, Bool,
  true, false, ltb, leb, leb→le, lt→ltb, if◌then◌else◌, length, length-append, All, ok, ◌>>=◌,
  arith, Bool-cases,
}
use sunlight.Cryptobyte.{Cryptobyte, append_asn1, der_length}
use sunlight.Cryptobyte.Wire.{Bytes, IsByte, be, be_value, length-be}
use sunlight.Rfc6979.Signing.{strip, add_positive, add_asn1_int_bytes, encode_signature}

-- The content of an INTEGER is positive, so its top bit is clear, and has no byte too many: a zero
-- comes first only before a byte with its top bit set.
abbrev pub IsMinimal : Bytes → Type 0
IsMinimal [] = ⊥
IsMinimal (x ∷ []) = (0 < x) × (x < 128)
IsMinimal (x ∷ y ∷ s) = ((0 < x) ⊎ (128 ≤ y)) × (x < 128)

-- The content that DER prescribes for a positive number
pub record IsInteger (v : ℕ) (content : Bytes) : Type 0 where
  pub value : be_value 0 content ≡ v
  pub minimal : IsMinimal content

-- A value behind its tag and its length
abbrev pub der : ℕ → Bytes → Bytes
der tag content = tag ∷ (der_length (length content) ++ content)

abbrev integer : Bytes → Bytes
integer [] = []
integer (x ∷ s) = if leb 128 x then 0 ∷ x ∷ s else x ∷ s

be_value-strip : (s : Bytes) → be_value 0 (strip s) ≡ be_value 0 s
unfolding be_value
be_value-strip [] = refl
be_value-strip (zero ∷ s) = be_value-strip s
be_value-strip (suc x ∷ s) = refl

length-strip : (s : Bytes) → length (strip s) ≤ length s
length-strip [] = omega arith
length-strip (zero ∷ s) = omega (arith, length-strip s)
length-strip (suc x ∷ s) = omega arith

strip-cases :
    (s : Bytes)
    → All IsByte s
    → (strip s ≡ [] × be_value 0 s ≡ 0)
      ⊎ ((x : ℕ) × (t : Bytes) × (strip s ≡ suc x ∷ t) × (suc x < 256))
unfolding be_value
strip-cases [] a = inl (refl, refl)
strip-cases (zero ∷ s) a = strip-cases s a.1
strip-cases (suc x ∷ s) a = inr (x, s, refl, a.0)

integer-IsInteger :
    (x : ℕ) (s : Bytes) → suc x < 256 → IsInteger (be_value 0 (suc x ∷ s)) (integer (suc x ∷ s))
unfolding be_value
integer-IsInteger x s h = elim (Bool-cases (leb 128 (suc x))) [
  | inl top ↦ record {
    value = rw (top) refl;
    minimal = rw (top) ((inr (leb→le 128 (suc x) top)), omega arith);
  }
  | inr clear ↦ record {
    value = rw (clear) refl;
    minimal = rw (clear) (clear_minimal s (ground arith));
  }
]
  where
    clear_minimal : (s : Bytes) → suc x < 128 → IsMinimal (suc x ∷ s)
    clear_minimal [] h = (omega arith, h)
    clear_minimal (y ∷ s) h = (inl (omega arith), h)

length-integer : (s : Bytes) → length (integer s) ≤ suc (length s)
length-integer [] = omega arith
length-integer (x ∷ s) = elim (Bool-cases (leb 128 x)) [
  | inl top ↦ rw (top) (omega arith)
  | inr clear ↦ rw (clear) (omega arith)
]

length-if : (b : Bool) (s t : Bytes) → length s ≤ 5 → length t ≤ 5 → length (if b then s else t) ≤ 5
length-if true s t h k = h
length-if false s t h k = k

length-der_length : (n : ℕ) → length (der_length n) ≤ 5
length-der_length n = length-if (ltb n 128) _ _ (omega arith) (
    length-if (ltb n 256) _ _ (omega (arith, length-be 1 n)) (
      length-if (ltb n (256 ^ 2)) _ _ (omega (arith, length-be 2 n)) (
        length-if (ltb n (256 ^ 3)) _ _ (omega (arith, length-be 3 n))
          (omega (arith, length-be 4 n)))))

length-der : (tag : ℕ) (c : Bytes) → length (der tag c) ≤ length c + 6
length-der tag c =
    omega (arith, length-append (der_length (length c)) c, length-der_length (length c))

module _ {Builder : Type 0} (cb : Cryptobyte Builder) where
  bytes-padded :
      (top : Bool) (s : Bytes)
      → cb.bytes
          (cb.add_bytes (if top then cb.add_uint8 (cb.new_builder []) 0 else cb.new_builder []) s)
        ≡ ok (if top then 0 ∷ s else s)
  unfolding be
  bytes-padded true s =
      cb.bytes-add_bytes (cb.add_uint8 (cb.new_builder []) 0) s
      ∙ ap (λ m. m >>= λ t. ok (t ++ s))
          (cb.bytes-add_uint8 (cb.new_builder []) 0
            ∙ ap (λ m. m >>= λ t. ok (t ++ be 1 0)) (cb.bytes-new_builder []))
  bytes-padded false s =
      cb.bytes-add_bytes (cb.new_builder []) s
      ∙ ap (λ m. m >>= λ t. ok (t ++ s)) (cb.bytes-new_builder [])

  bytes-add_positive :
      (x : ℕ) (s : Bytes)
      → cb.bytes (add_positive cb x s (cb.new_builder [])) ≡ ok (integer (x ∷ s))
  bytes-add_positive x s = bytes-padded (leb 128 x) (x ∷ s)

  -- One INTEGER, of bytes that stand for a positive number
  bytes-add_asn1_int_bytes :
      (b : Builder) (t s : Bytes)
      → cb.bytes b ≡ ok t
      → All IsByte s
      → 0 < be_value 0 s
      → length s < 256 ^ 3
      → IsInteger (be_value 0 s) (integer (strip s))
        × (length (integer (strip s)) ≤ suc (length s))
        × (cb.bytes (add_asn1_int_bytes cb b s) ≡ ok (t ++ der 2 (integer (strip s))))
  unfolding add_asn1_int_bytes
  bytes-add_asn1_int_bytes b t s h a pos short = elim (strip-cases s a) [
    | inl (_, nil) ↦ absurd (omega (arith, nil, pos))
    | inr (x, u, stripped, is_byte) ↦
        let len = length-integer (strip s) in
        let len' = length-strip s in
        let fits : ltb (length (integer (suc x ∷ u))) (256 ^ 4 - 1) ≡ true =
          lt→ltb _ _ (small (rw (stripped) at len) (rw (stripped) at len')) in
        (
          rw (stripped, ← be_value-strip s, stripped) (integer-IsInteger x u is_byte),
          omega (arith, len, len'),
          rw (stripped) (
              cb.bytes-add_asn1 b 2 (add_positive cb (suc x) u)
              ∙ (ap
                    (λ m. m >>= λ t.
                      cb.bytes (add_positive cb (suc x) u (cb.new_builder [])) >>= λ c.
                      append_asn1 2 t c)
                    h
                  ∙ (ap (λ m. m >>= λ c. append_asn1 2 t c) (bytes-add_positive (suc x) u)
                      ∙ rw (fits) refl))),
        )
  ]
    where
      small : {n m : ℕ} → n ≤ suc m → m ≤ length s → n < 256 ^ 4 - 1
      small h k = omega (arith, h, k, short)

  -- The encoding of two positive numbers, given by bytes with any number of leading zeroes, is the DER
  -- SEQUENCE of the two INTEGERs, each of them as short as DER demands.
  pub encode_signature_eq :
      (r s : Bytes)
      → All IsByte r
      → All IsByte s
      → 0 < be_value 0 r
      → 0 < be_value 0 s
      → length r < 256 ^ 3
      → length s < 256 ^ 3
      → (x : Bytes) × (y : Bytes) × IsInteger (be_value 0 r) x
        × IsInteger (be_value 0 s) y
        × (encode_signature cb r s ≡ ok (der 48 (der 2 x ++ der 2 y)))
  unfolding encode_signature
  encode_signature_eq r s ra sa rp sp rl sl =
      let x = integer (strip r) in
      let y = integer (strip s) in
      let (xi, xl, first) =
        bytes-add_asn1_int_bytes (cb.new_builder []) [] r (cb.bytes-new_builder []) ra rp rl in
      let (yi, yl, both) =
        bytes-add_asn1_int_bytes (add_asn1_int_bytes cb (cb.new_builder []) r) (der 2 x) s first sa
          sp sl in
      let fits : ltb (length (der 2 x ++ der 2 y)) (256 ^ 4 - 1) ≡ true = lt→ltb _ _ (
        omega (
          arith,
          length-append (der 2 x) (der 2 y),
          length-der 2 x,
          length-der 2 y,
          xl,
          yl,
          rl,
          sl,
        )) in
      (
        x,
        y,
        xi,
        yi,
        cb.bytes-add_asn1 (cb.new_builder []) 48
              (λ b. add_asn1_int_bytes cb (add_asn1_int_bytes cb b r) s)
            ∙ (ap
                  (λ m. m >>= λ t.
                    cb.bytes (add_asn1_int_bytes cb (add_asn1_int_bytes cb (cb.new_builder []) r) s)
                    >>= λ c. append_asn1 48 t c)
                  (cb.bytes-new_builder [])
                ∙ (ap (λ m. m >>= λ c. append_asn1 48 [] c) both ∙ rw (fits) refl)),
      )

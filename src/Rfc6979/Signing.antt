-- ===== src/Rfc6979/Signing.antt =====
-- The signature (ecdsa.go): `Sign`, `signNISTEC`, `encodeSignature` and `addASN1IntBytes`.
pub mod Equation
pub mod Der
use sunlight.Prelude.{
  ℕ, zero, suc, List, [], ◌∷◌, ◌++◌, leb, ◌==◌, if◌then◌else◌, Outcome, ok, err, panic, ◌>>=◌,
}
use sunlight.Errors.{
  EcdsaError, CodecError, invalid_integer, r_is_zero, s_is_zero, unsupported_curve, not_encoded,
}
use sunlight.Cryptobyte.{Cryptobyte}
use sunlight.Cryptobyte.Wire.{Bytes}
use sunlight.Rfc6979.Curve.{Bigmod, NistCurve, Hmac, BigInt}
use sunlight.Rfc6979.Hash.{hash_to_nat}
use sunlight.Rfc6979.Nonce.{new_drbg, random_point}

-- The loop of `addASN1IntBytes` over leading zeroes
abbrev pub strip : Bytes → Bytes
strip [] = []
strip (zero ∷ s) = strip s
strip (suc x ∷ s) = suc x ∷ s

module _ {Builder : Type 0} (cb : Cryptobyte Builder) where
  -- The content of an INTEGER, whose first byte is `x`; a byte with its top bit set is 128 or more
  abbrev add_positive : ℕ → Bytes → Builder → Builder
  add_positive x s b = cb.add_bytes (if leb 128 x then cb.add_uint8 b 0 else b) (x ∷ s)

  abbrev add_stripped : Builder → Bytes → Builder
  add_stripped b [] = cb.set_error b invalid_integer
  add_stripped b (x ∷ s) = cb.add_asn1 b 2 (add_positive x s)

  -- `addASN1IntBytes`
  unfoldable pub add_asn1_int_bytes : Builder → Bytes → Builder
  add_asn1_int_bytes b bytes = add_stripped b (strip bytes)

  -- `encodeSignature`
  unfoldable pub encode_signature : Bytes → Bytes → Outcome CodecError Bytes
  unfolding add_asn1_int_bytes
  encode_signature r s =
      cb.bytes
        (cb.add_asn1 (cb.new_builder []) 48 (λ b. add_asn1_int_bytes (add_asn1_int_bytes b r) s))

abbrev pub encoded : Outcome CodecError Bytes → Outcome EcdsaError Bytes
encoded (ok b) = ok b
encoded (err e) = err (not_encoded e)
encoded panic = panic

module _ {Builder Point : Type 0} (cb : Cryptobyte Builder) (bm : Bigmod) (big : BigInt) (hm : Hmac)
    (c : NistCurve Point) where
  -- From the nonce and the x-coordinate of its point on
  unfoldable pub finish_signature : (d e k r : ℕ) → Outcome EcdsaError Bytes
  unfolding encode_signature
  finish_signature d e k r =
      if r == 0
      then err r_is_zero
      else (bm.set_bytes (big.int_bytes d) c.n >>= λ x.
          let s = bm.mul (bm.add (bm.mul x r c.n) e c.n) (bm.exp k c.n_minus2 c.n) c.n in
          if s == 0
          then err s_is_zero
          else encoded (encode_signature cb (bm.bytes r c.n) (bm.bytes s c.n)))

  -- `signNISTEC`, with fuel for the rejection loop
  unfoldable pub sign_nistec : ℕ → ℕ → Bytes → Outcome EcdsaError Bytes
  unfolding hash_to_nat new_drbg random_point finish_signature
  sign_nistec fuel d digest = do
    e ← hash_to_nat bm c digest
    x ← big.fill_bytes d (bm.size c.n)
    let seed = x ++ bm.bytes e c.n
    (k, p) ← random_point bm c hm seed fuel (new_drbg hm seed)
    rx ← c.bytes_x p
    r ← bm.set_overflowing_bytes rx c.n
    finish_signature d e k r

-- The curve of a key, by its parameters
pub data CurveName : Type 0 where
  p256 p384 p521 other : CurveName

-- `Sign`
unfoldable pub sign :
    {Builder P256 P384 P521 : Type 0}
    → Cryptobyte Builder
    → Bigmod
    → BigInt
    → Hmac
    → NistCurve P256
    → NistCurve P384
    → NistCurve P521
    → ℕ
    → CurveName
    → ℕ
    → Bytes
    → Outcome EcdsaError Bytes
unfolding sign_nistec
sign cb bm big hm c256 c384 c521 fuel p256 d digest = sign_nistec cb bm big hm c256 fuel d digest
sign cb bm big hm c256 c384 c521 fuel p384 d digest = sign_nistec cb bm big hm c384 fuel d digest
sign cb bm big hm c256 c384 c521 fuel p521 d digest = sign_nistec cb bm big hm c521 fuel d digest
sign cb bm big hm c256 c384 c521 fuel other d digest = err unsupported_curve

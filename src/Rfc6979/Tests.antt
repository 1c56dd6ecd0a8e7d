-- ===== src/Rfc6979/Tests.antt =====
-- Deterministic ECDSA (ecdsa.go) on concrete input.
use sunlight.Prelude.{◌≡◌, refl, [], ◌∷◌, ◌++◌, ok, arith, inl, inr}
use sunlight.Cryptobyte.Wire.{Bytes, be, be_value}
use sunlight.Cryptobyte.Plain.{plain, All-IsByte}
use sunlight.Rfc6979.Shift.{right_shift, shift_after}
use sunlight.Rfc6979.Hash.{hash_to_nat, hash_to_nat_eq, take}
use sunlight.Rfc6979.Nonce.{draw, fill, sample, new_drbg, random_point}
use sunlight.Rfc6979.Nonce.Rfc.{rfc_gather, sample-new_drbg}
use sunlight.Rfc6979.Signing.{encode_signature, finish_signature, add_asn1_int_bytes, sign_nistec}
use sunlight.Rfc6979.Signing.Equation.{IsSigned, sign_nistec-IsSigned}
use sunlight.Rfc6979.Signing.Der.{IsInteger, der, encode_signature_eq}
use sunlight.Rfc6979.Plain.{bits, plain_bigmod, plain_curve, plain_hmac, plain_big}

hash_to_nat_eq_example : hash_to_nat plain_bigmod plain_curve (200 ∷ 9 ∷ []) ≡ ok 6
unfolding be_value bits
hash_to_nat_eq_example =
    hash_to_nat_eq plain_bigmod plain_curve (200 ∷ 9 ∷ []) (All-IsByte (200 ∷ 9 ∷ []) refl)

-- Its candidates are 7, 0, 7 and 6.
sample-new_drbg_example :
    sample plain_bigmod plain_curve plain_hmac (3 ∷ 4 ∷ []) 5 (new_drbg plain_hmac (3 ∷ 4 ∷ []))
    ≡ ok 6
unfolding rfc_gather bits be_value
sample-new_drbg_example =
    sample-new_drbg plain_hmac (3 ∷ 4 ∷ []) plain_bigmod plain_curve 3 5 (λ h. absurd (cc h))
      (omega arith) (inr (omega arith), (inl refl, (inr (omega arith), tt))) (omega arith)
      (omega arith)

abbrev signature : Bytes
signature = 48 ∷ 6 ∷ 2 ∷ 1 ∷ 2 ∷ 2 ∷ 1 ∷ 6 ∷ []

signed :
    sign_nistec plain plain_bigmod plain_big plain_hmac plain_curve 5 3 (200 ∷ []) ≡ ok signature
unfolding sign_nistec finish_signature random_point sample draw fill take bits be_value hash_to_nat
    right_shift shift_after new_drbg encode_signature add_asn1_int_bytes be
signed = refl

sign_nistec-IsSigned_example : IsSigned plain_bigmod plain_hmac plain_curve 3 (200 ∷ []) signature
unfolding bits be_value
sign_nistec-IsSigned_example =
    sign_nistec-IsSigned plain plain_bigmod plain_big plain_hmac plain_curve 5 3 (200 ∷ [])
      signature (All-IsByte (200 ∷ []) refl) (omega arith) signed

encode_signature_eq_example :
    (x : Bytes) × (y : Bytes) × IsInteger 200 x
    × IsInteger 6 y
    × (encode_signature plain (0 ∷ 200 ∷ []) (6 ∷ []) ≡ ok (der 48 (der 2 x ++ der 2 y)))
unfolding be_value
encode_signature_eq_example =
    encode_signature_eq plain (0 ∷ 200 ∷ []) (6 ∷ []) (All-IsByte (0 ∷ 200 ∷ []) refl)
      (All-IsByte (6 ∷ []) refl) (omega arith) (omega arith) (omega arith) (omega arith)

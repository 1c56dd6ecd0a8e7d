-- ===== src/Ctlog/Signing/Tests.antt =====
-- The signature of a tree head (ctlog.go) on concrete input, made by the package rfc6979.
use sunlight.Prelude.{◌≡◌, refl, [], ◌∷◌, ok, replicate}
use sunlight.Prelude.Int.{pos}
use sunlight.Cryptobyte.Wire.{Bytes, be, be_value}
use sunlight.Cryptobyte.Plain.{plain}
use sunlight.Ctlog.Signing.{digitally_sign, note_signature}
use sunlight.Ctlog.Signing.Plain.{sign_digest, plain_verification}
use sunlight.Rfc6979.Shift.{right_shift, shift_after}
use sunlight.Rfc6979.Hash.{hash_to_nat, take}
use sunlight.Rfc6979.Nonce.{draw, fill, sample, new_drbg, random_point}
use sunlight.Rfc6979.Signing.{
  encode_signature, finish_signature, add_asn1_int_bytes, sign_nistec, sign,
}
use sunlight.Rfc6979.Plain.{bits}

abbrev hash : Bytes
hash = replicate 32 7

abbrev sig : Bytes
sig = 0 ∷ 0 ∷ 0 ∷ 0 ∷ 0 ∷ 0 ∷ 0 ∷ 20 ∷ 4 ∷ 3 ∷ 0 ∷ 8 ∷ 48 ∷ 6 ∷ 2 ∷ 1 ∷ 2 ∷ 2 ∷ 1 ∷ 6 ∷ []

made : note_signature plain plain_verification sign_digest (pos 258) (pos 20) hash ≡ ok sig
unfolding note_signature digitally_sign sign_digest plain_verification sign sign_nistec
    finish_signature random_point sample draw fill take bits be_value hash_to_nat right_shift
    shift_after new_drbg encode_signature add_asn1_int_bytes be
made = refl

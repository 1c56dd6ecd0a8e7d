-- ===== src/Ctlog/Signing/Plain.antt =====
-- The signatures of the package rfc6979 with a small curve, and their verification, for running the
-- code of checkpoint.go and ctlog.go.
use sunlight.Prelude.{◌∷◌, [], length, Bool, false, Outcome, ok}
use sunlight.Prelude.Maps.{bytes_beq}
use sunlight.Errors.{EcdsaError}
use sunlight.Cryptobyte.Wire.{Bytes}
use sunlight.Cryptobyte.Plain.{plain}
use sunlight.Checkpoint.Signature.{Verification}
use sunlight.Rfc6979.Signing.{sign, p256}
use sunlight.Rfc6979.Plain.{plain_bigmod, plain_curve, plain_hmac, plain_big}

unfoldable pub sign_digest : Bytes → Outcome EcdsaError Bytes
unfolding sign
sign_digest digest =
    sign plain plain_bigmod plain_big plain_hmac plain_curve plain_curve plain_curve 5 p256 3 digest

-- Signatures are deterministic, so they can be compared.
abbrev pub is_signature : Bytes → Outcome EcdsaError Bytes → Bool
is_signature der (ok s) = bytes_beq s der
is_signature der _ = false

unfoldable pub plain_verification : Verification
unfolding sign sign_digest
plain_verification = record {
  sha256 = λ s. 200 ∷ length s ∷ [];
  serialize_sth = λ sth. ok (sth.tree_size ∷ sth.timestamp ∷ sth.root_hash);
  verify_pkcs1v15 = λ key digest sig. false;
  verify_asn1 = λ key digest der. is_signature der (sign_digest digest);
}

-- ===== src/Ctlog/Signing.antt =====
-- The signature of a tree head (ctlog.go): `digitallySign`, and what `signTreeHead` makes of it. The
-- verifier of checkpoint.go accepts it, and reads its timestamp.
pub mod Plain
pub mod Verified
mod Tests
use sunlight.Prelude.{ℕ, List, [], ◌∷◌, Outcome, ok, err, panic, ◌>>=◌}
use sunlight.Prelude.Int.{ℤ, to_uint64}
use sunlight.Errors.{LogError, CodecError, EcdsaError, sign_failed}
use sunlight.Cryptobyte.{Cryptobyte}
use sunlight.Cryptobyte.Wire.{Bytes}
use sunlight.Ctlog.Action.{of_codec}
use sunlight.Checkpoint.Signature.{SignedTreeHead, Verification}

-- An error of the package rfc6979 is one of the signature.
abbrev pub of_ecdsa : Outcome EcdsaError Bytes → Outcome LogError Bytes
of_ecdsa (ok b) = ok b
of_ecdsa (err e) = err sign_failed
of_ecdsa panic = panic

-- `sign_digest` is `rfc6979.Sign` with the key of the log.
module _ {Builder : Type 0} (cb : Cryptobyte Builder) (vf : Verification)
    (sign_digest : Bytes → Outcome EcdsaError Bytes) where
  -- `digitallySign`
  unfoldable pub digitally_sign : Bytes → Outcome LogError Bytes
  digitally_sign msg = of_ecdsa (sign_digest (vf.sha256 msg)) >>= λ sig. of_codec (
      cb.bytes (
        cb.add_uint16_length_prefixed (cb.add_uint8 (cb.add_uint8 (cb.new_builder []) 4) 3)
          (λ b. cb.add_bytes b sig)))

  -- The RFC6962NoteSignature that `signTreeHead` makes
  unfoldable pub note_signature : ℤ → ℤ → Bytes → Outcome LogError Bytes
  unfolding digitally_sign
  note_signature n time hash =
      vf.serialize_sth
        (record { tree_size = to_uint64 n; timestamp = to_uint64 time; root_hash = hash })
      >>= λ sth. digitally_sign sth >>= λ signature.
          of_codec
            (cb.bytes (cb.add_bytes (cb.add_uint64 (cb.new_builder []) (to_uint64 time)) signature))

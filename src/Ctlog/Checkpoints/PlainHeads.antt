-- ===== src/Ctlog/Checkpoints/PlainHeads.antt =====
-- The signing and opening of tree heads (ctlog.go) with the plain packages, for running the sequencer
-- and `LoadLog` over it.
use sunlight.Prelude.{◌≡◌, refl, ap, [], ◌∷◌, true, false, Outcome, ok, ok-injective, arith}
use sunlight.Prelude.Maps.{bytes_beq_iff}
use sunlight.Errors.{LogError}
use sunlight.Cryptobyte.Wire.{Bytes, be_value}
use sunlight.Cryptobyte.Plain.{plain}
use sunlight.Checkpoint.Plain.{plain_texts}
use sunlight.Checkpoint.Verifier.{
  Verifier, is_valid_name, contains_plus, key_hash, new_rfc6962_verifier,
}
use sunlight.Ctlog.Signing.Plain.{sign_digest, plain_verification}
use sunlight.Ctlog.Sequencer.{CheckpointSigner}
use sunlight.Ctlog.Checkpoints.{Draw}
use sunlight.Ctlog.Checkpoints.RoundTrip.{HaveDistinctKeys, SignsWith}
use sunlight.Ctlog.Checkpoints.Heads.{code_signer}
use sunlight.Ctlog.Checkpoints.Plain.{
  plain_note, plain_names, plain_config, checked-eq-ok, has_newline,
}

abbrev pub drawn : Draw
drawn = record {
  g1 = 1 ∷ 2 ∷ 3 ∷ 4 ∷ 5 ∷ [];
  label = 7;
  g2_rest = 6 ∷ [];
  grease_swapped = false;
  signers_swapped = true;
}

abbrev pub bytes_of : Outcome LogError Bytes → Bytes
bytes_of (ok b) = b
bytes_of _ = []

pub signs : SignsWith plain plain_texts plain_verification plain_names plain_note plain_config []
unfolding sign_digest plain_verification
signs = (
  refl,
  λ digest der h.
      let (made, bytes) = checked-eq-ok (sign_digest digest) der h in
      (rw (made) ((bytes_beq_iff der der).1 refl), bytes),
)

pub distinct :
    HaveDistinctKeys plain plain_texts plain_verification plain_names plain_note plain_config
unfolding new_rfc6962_verifier is_valid_name contains_plus key_hash has_newline be_value
    plain_verification
distinct v1 v2 is_v1 is_v2 same =
    let h1 : 51206 ≡ v1.hash = ap (λ (v : Verifier). v.hash) (ok-injective _ _ is_v1) in
    let h2 : 7 ≡ v2.hash = ap (λ (v : Verifier). v.hash) (ok-injective _ _ is_v2) in
    omega (arith, h1, h2, same)

abbrev pub plain_code_signer : CheckpointSigner
plain_code_signer =
    code_signer plain plain_texts plain_verification plain_names plain_note plain_config
      (λ t. drawn) [] signs distinct (λ t h. refl)

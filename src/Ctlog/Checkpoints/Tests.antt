-- ===== src/Ctlog/Checkpoints/Tests.antt =====
-- The checkpoints of a log (ctlog.go) on concrete input.
use sunlight.Prelude.{◌≡◌, refl, [], ◌∷◌, Outcome, ok, arith, replicate}
use sunlight.Prelude.Int.{pos}
use sunlight.Errors.{LogError}
use sunlight.Cryptobyte.Wire.{Bytes, be, be_value, take_exact, read_be, read_prefixed}
use sunlight.Cryptobyte.Plain.{plain, All-IsByte}
use sunlight.Checkpoint.{
  Checkpoint, format_checkpoint, parse_checkpoint, count_newlines, ends, cut_line, split,
  extension_loop,
}
use sunlight.Checkpoint.Plain.{plain_texts}
use sunlight.Checkpoint.Signature.{signature_timestamp}
use sunlight.Checkpoint.Verifier.{is_valid_name, contains_plus, key_hash, new_rfc6962_verifier}
use sunlight.Ctlog.Stubs.{read_part}
use sunlight.Ctlog.Types.{TreeWithTimestamp}
use sunlight.Ctlog.Signing.{digitally_sign, note_signature}
use sunlight.Ctlog.Signing.Plain.{sign_digest, plain_verification}
use sunlight.Ctlog.Checkpoints.{
  find_signatures, grease_signatures, new_ed25519_signer, sign_tree_head, check_note,
  open_checkpoint,
}
use sunlight.Ctlog.Checkpoints.Opened.{IsOpened, open_checkpoint-IsOpened}
use sunlight.Ctlog.Checkpoints.RoundTrip.{IsHead, open-sign_tree_head}
use sunlight.Ctlog.Checkpoints.Plain.{
  plain_note, plain_names, plain_config, has_newline, sign_plain_note, open_plain_note,
}
use sunlight.Ctlog.Checkpoints.PlainHeads.{drawn, bytes_of, signs, distinct}
use sunlight.Rfc6979.Shift.{right_shift, shift_after}
use sunlight.Rfc6979.Hash.{hash_to_nat, take}
use sunlight.Rfc6979.Nonce.{draw, fill, sample, new_drbg, random_point}
use sunlight.Rfc6979.Signing.{
  encode_signature, finish_signature, add_asn1_int_bytes, sign_nistec, sign,
}
use sunlight.Rfc6979.Plain.{bits}

abbrev hash : Bytes
hash = replicate 32 7

abbrev head : TreeWithTimestamp
head = record { tree = record { n = 258; hash = hash }; time = 20 }

abbrev signed : Outcome LogError Bytes
signed =
    sign_tree_head plain plain_texts plain_verification plain_names plain_note plain_config head
      drawn

signed-ok : signed ≡ ok (bytes_of signed)
unfolding sign_tree_head note_signature digitally_sign sign_digest plain_verification sign
    sign_nistec finish_signature random_point sample draw fill take bits be_value hash_to_nat
    right_shift shift_after new_drbg encode_signature add_asn1_int_bytes be new_rfc6962_verifier
    is_valid_name contains_plus key_hash new_ed25519_signer grease_signatures has_newline
    format_checkpoint sign_plain_note
signed-ok = refl

abbrev checkpoint_258 : Checkpoint
checkpoint_258 = record { origin = 120 ∷ 46 ∷ []; n = pos 258; hash = hash; extension = [] }

fits : IsHead plain plain_texts plain_verification plain_names plain_note plain_config 258 hash 20
unfolding format_checkpoint
fits = (omega arith, omega arith, All-IsByte hash refl, refl, omega arith, refl)

open-sign_tree_head_example :
    open_checkpoint plain plain_texts plain_verification plain_names plain_note plain_config 25
      (bytes_of signed)
    ≡ ok (checkpoint_258, 20)
unfolding sign_tree_head note_signature digitally_sign sign_digest plain_verification sign
    sign_nistec finish_signature random_point sample draw fill take bits be_value hash_to_nat
    right_shift shift_after new_drbg encode_signature add_asn1_int_bytes be new_rfc6962_verifier
    is_valid_name contains_plus key_hash new_ed25519_signer grease_signatures has_newline
    format_checkpoint sign_plain_note
open-sign_tree_head_example =
    open-sign_tree_head plain plain_texts plain_verification plain_names plain_note plain_config []
      hash 258 20 signs fits drawn (bytes_of signed) 25 distinct (omega arith) (omega arith)
      signed-ok

opened :
    open_checkpoint plain plain_texts plain_verification plain_names plain_note plain_config 25
      (bytes_of signed)
    ≡ ok (checkpoint_258, 20)
unfolding sign_tree_head note_signature digitally_sign sign_digest plain_verification sign
    sign_nistec finish_signature random_point sample draw fill take bits be_value hash_to_nat
    right_shift shift_after new_drbg encode_signature add_asn1_int_bytes be new_rfc6962_verifier
    is_valid_name contains_plus key_hash new_ed25519_signer grease_signatures has_newline
    format_checkpoint sign_plain_note open_checkpoint check_note find_signatures signature_timestamp
    open_plain_note read_part take_exact read_be read_prefixed parse_checkpoint count_newlines ends
    cut_line split extension_loop
opened = refl

open_checkpoint-IsOpened_example :
    IsOpened plain plain_texts plain_verification plain_names plain_note plain_config 25
      (bytes_of signed)
      checkpoint_258
      20
open_checkpoint-IsOpened_example =
    open_checkpoint-IsOpened plain plain_texts plain_verification plain_names plain_note
      plain_config 25 (bytes_of signed) checkpoint_258 20 opened

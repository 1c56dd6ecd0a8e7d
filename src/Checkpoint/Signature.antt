-- ===== src/Checkpoint/Signature.antt =====
-- The signature of a tree head in a checkpoint (checkpoint.go): the verifier of NewRFC6962Verifier, and
-- RFC6962SignatureTimestamp.
use sunlight.Prelude.{
  ℕ, ◌-◌, ◌^◌, Bool, false, not, ltb, ◌==◌, if◌then◌else◌, Option, none, some, Outcome, ok, err,
  ◌>>=◌, or_err,
}
use sunlight.Prelude.Int.{to_uint64}
use sunlight.Errors.{LogError, malformed_tree_head_signature}
use sunlight.Cryptobyte.{Cryptobyte}
use sunlight.Cryptobyte.Wire.{Bytes}
use sunlight.Extensions.{is_empty}
use sunlight.Checkpoint.{Checkpoint, Texts, parse_checkpoint}

-- `ct.SignedTreeHead`, of version 1
pub record SignedTreeHead : Type 0 where
  pub tree_size : ℕ
  pub timestamp : ℕ
  pub root_hash : Bytes

-- A public key, by its type
pub data PublicKey : Type 0 where
  rsa ecdsa other : Bytes → PublicKey

-- crypto/sha256, the serialization of certificate-transparency-go, and the verification of crypto/rsa
-- and crypto/ecdsa
pub record Verification : Type 0 where
  pub sha256 : Bytes → Bytes
  pub serialize_sth : SignedTreeHead → Outcome LogError Bytes
  pub verify_pkcs1v15 : Bytes → Bytes → Bytes → Bool
  pub verify_asn1 : Bytes → Bytes → Bytes → Bool

-- What the parser of an RFC6962NoteSignature reads
pub record NoteSignature : Type 0 where
  pub timestamp : ℕ
  pub sig_alg : ℕ
  pub signature : Bytes

module _ {Builder : Type 0} (cb : Cryptobyte Builder) (tx : Texts) (vf : Verification) where
  abbrev pub if_read : {A B : Type 0} → Option A → (A → Option B) → Option B
  if_read none next = none
  if_read (some a) next = next a

  -- The reads of the verifier; `hashAlg` has to be 4, for SHA-256.
  unfoldable pub read_note_signature : Bytes → Option NoteSignature
  read_note_signature sig = if_read (cb.read_uint64 sig) λ a. if_read (cb.read_uint8 a.1) λ b.
      if not (b.0 == 4)
      then none
      else (if_read (cb.read_uint8 b.1) λ c. if_read (cb.read_uint16_length_prefixed c.1) λ d.
          if not (is_empty d.1)
          then none
          else some (record { timestamp = a.0; sig_alg = c.0; signature = d.0 }))

  abbrev pub check_key : PublicKey → Bytes → Bytes → NoteSignature → Bool
  check_key (rsa key) digest sig s =
      if not (s.sig_alg == 1) then false else vf.verify_pkcs1v15 key digest sig
  check_key (ecdsa key) digest sig s =
      if not (s.sig_alg == 3) then false else vf.verify_asn1 key digest s.signature
  check_key (other key) digest sig s = false

  abbrev pub or_false : Outcome LogError Bool → Outcome LogError Bool
  or_false (err e) = ok false
  or_false r = r

  abbrev pub check_signature :
      PublicKey → Bytes → Checkpoint → Option NoteSignature → Outcome LogError Bool
  check_signature key sig c none = ok false
  check_signature key sig c (some s) =
      vf.serialize_sth
        (record { tree_size = to_uint64 c.n; timestamp = s.timestamp; root_hash = c.hash })
      >>= λ sth. ok (check_key key (vf.sha256 sth) sig s)

  -- The `verify` function of the verifier that `NewRFC6962Verifier` makes for a key
  unfoldable pub verify : PublicKey → Bytes → Bytes → Outcome LogError Bool
  unfolding parse_checkpoint read_note_signature
  verify key msg sig = or_false (
      parse_checkpoint tx msg >>= λ c.
      if not (is_empty c.extension)
      then ok false
      else check_signature key sig c (read_note_signature sig))

  abbrev pub bounded : Option (ℕ × Bytes) → Outcome LogError ℕ
  bounded none = err malformed_tree_head_signature
  bounded (some (timestamp, rest)) =
      if ltb (2 ^ 63 - 1) timestamp then err malformed_tree_head_signature else ok timestamp

  -- `RFC6962SignatureTimestamp`, of a signature by its base64 text
  unfoldable pub signature_timestamp : Bytes → Outcome LogError ℕ
  signature_timestamp text = or_err (tx.decode text) malformed_tree_head_signature >>= λ sig.
      or_err (cb.skip sig 4) malformed_tree_head_signature >>= λ s. bounded (cb.read_uint64 s)

-- ===== src/Ctlog/Checkpoints/Notes.antt =====
-- Notes, as ctlog.go uses them through the package golang.org/x/mod/sumdb/note.
use sunlight.Prelude.{
  ℕ, ◌+◌, ◌≤◌, ◌≡◌, List, [], ◌∷◌, ◌++◌, Bool, true, Outcome, ok, length, All, map, some,
}
use mathlib.Core.List.{Perm, Memᴰ}
use sunlight.Errors.{LogError}
use sunlight.Cryptobyte.Wire.{Bytes, be}
use sunlight.Checkpoint.{Texts}
use sunlight.Checkpoint.Verifier.{Verifier}

-- A `note.Signer`, by the results of its methods
pub record Signer : Type 0 where
  pub name : Bytes
  pub hash : ℕ
  pub sign : Bytes → Outcome LogError Bytes

-- `note.Signature`
pub record NoteSig : Type 0 where
  pub name : Bytes
  pub hash : ℕ
  pub base64 : Bytes

-- `note.Note`
pub record Note : Type 0 where
  pub text : Bytes
  pub sigs : List NoteSig
  pub unverified_sigs : List NoteSig

-- A signature that a signer makes, beside the verifier of its key
pub record Signed : Type 0 where
  pub signer : Signer
  pub verifier : Verifier
  pub sig : Bytes

-- The signer makes the signature of a text, and the verifier has its key and accepts it.
abbrev pub IsAccepted : Bytes → Signed → Type 0
IsAccepted text s =
    (s.signer.name ≡ s.verifier.name)
    × (s.signer.hash ≡ s.verifier.hash)
    × (s.signer.sign text ≡ ok s.sig)
    × (s.verifier.verify text s.sig ≡ ok true)

-- No two verifiers have the same name and key hash, which a `VerifierList` reports as ambiguous.
abbrev pub AreDistinct : List Verifier → Type 0
AreDistinct [] = Unit
AreDistinct (v ∷ vs) =
    All (λ (u : Verifier). (v.name ≡ u.name) → ¬ (v.hash ≡ u.hash)) vs × AreDistinct vs

-- A signature of a text is verified: a known verifier has its name and key hash, and accepts what it
-- decodes to behind the hash.
abbrev pub IsVerified : Texts → List Verifier → Bytes → NoteSig → Type 0
IsVerified tx known text s =
    (v : Verifier) × Memᴰ v known
    × (v.name ≡ s.name)
    × (v.hash ≡ s.hash)
    × (sig : Bytes) × (tx.decode s.base64 ≡ some (be 4 s.hash ++ sig))
    × (v.verify text sig ≡ ok true)

-- What the code uses of the package, `VerifierList` included. `is_text` is what a note may have for its
-- text: UTF-8 without control characters but line ends. The laws are the documentation: a note that
-- was signed, without signatures of its own, opens with its text, and with the signatures of the
-- signers in their order, each behind the hash of its key, if the known verifiers are those of the
-- signers and accept these signatures, and message and number of signatures are not too large; each of the
-- signatures that an opened note has in `Sigs` is verified; and
-- a verifier of an Ed25519 key has its name, and accepts what that key signs. The functions of
-- crypto/ed25519 stand beside it, and `tx` has the standard base64 encoding.
pub record NotePackage (tx : Texts) : Type 0 where
  pub is_text : Bytes → Bool
  pub max_note_size : ℕ
  pub sign : Note → List Signer → Outcome LogError Bytes
  pub open_note : Bytes → List Verifier → Outcome LogError Note
  pub new_ed25519_verifier_key : Bytes → Bytes → Outcome LogError Bytes
  pub new_verifier : Bytes → Outcome LogError Verifier
  pub ed25519_public : Bytes → Bytes
  pub ed25519_sign : Bytes → Bytes → Bytes
  pub verify-ed25519_sign :
      (name key vk : Bytes) (v : Verifier)
      → new_ed25519_verifier_key name (ed25519_public key) ≡ ok vk
      → new_verifier vk ≡ ok v
      → (v.name ≡ name) × ((msg : Bytes) → v.verify msg (ed25519_sign key msg) ≡ ok true)
  pub open_note-IsVerified :
      (b : Bytes) (known : List Verifier) (n : Note)
      → open_note b known ≡ ok n
      → All (IsVerified tx known n.text) n.sigs
  pub open-sign :
      (n : Note) (signed : List Signed) (known : List Verifier) (msg : Bytes)
      → sign n (map (λ (s : Signed). s.signer) signed) ≡ ok msg
      → n.sigs ≡ []
      → is_text n.text ≡ true
      → length msg ≤ max_note_size
      → length n.unverified_sigs + length signed ≤ 100
      → All (IsAccepted n.text) signed
      → Perm (map (λ (s : Signed). s.verifier) signed) known
      → AreDistinct known
      → (m : Note) × (open_note msg known ≡ ok m)
        × (m.text ≡ n.text)
        × (m.sigs
            ≡ map
                (λ (s : Signed). record {
                  name = s.signer.name;
                  hash = s.signer.hash;
                  base64 = tx.encode (be 4 s.signer.hash ++ s.sig);
                })
                signed)

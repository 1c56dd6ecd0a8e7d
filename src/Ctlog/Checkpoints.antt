-- ===== src/Ctlog/Checkpoints.antt =====
-- The checkpoints of a log (ctlog.go): `signTreeHead`, with its signers and the grease signatures, and
-- `openCheckpoint`. The package golang.org/x/mod/sumdb/note is a parameter.
pub mod Notes
pub mod Opened
pub mod RoundTrip
pub mod Heads
pub mod Plain
pub mod PlainHeads
mod Tests
use sunlight.Prelude.{
  ℕ, ◌≡◌, List, [], ◌∷◌, ◌++◌, Bool, true, false, not, ◌&&◌, ltb, ◌==◌, if◌then◌else◌, Outcome, ok,
  err, panic, ◌>>=◌,
}
use sunlight.Prelude.Int.{ℤ, pos}
use sunlight.Prelude.Maps.{bytes_beq, codes}
use sunlight.Errors.{
  LogError, EcdsaError, verifier_not_constructed, verifier_key_not_constructed,
  ed25519_verifier_not_constructed, ed25519_signer_not_constructed, note_not_signed,
  checkpoint_not_verified, timestamp_not_extracted, missing_verifier_signature,
  checkpoint_not_parsed, checkpoint_in_future, wrong_origin, unexpected_extension,
}
use sunlight.Cryptobyte.{Cryptobyte}
use sunlight.Cryptobyte.Wire.{Bytes, be_value}
use sunlight.Extensions.{is_empty}
use sunlight.Ctlog.Action.{renamed}
use sunlight.Checkpoint.{Checkpoint, Texts, parse_checkpoint, format_checkpoint}
use sunlight.Checkpoint.Signature.{PublicKey, Verification, signature_timestamp}
use sunlight.Checkpoint.Verifier.{Verifier, Names, first_four, new_rfc6962_verifier}
use sunlight.Ctlog.Types.{Tree, TreeWithTimestamp}
use sunlight.Ctlog.Signing.{note_signature}
use Notes.{Signer, NoteSig, Note, NotePackage}

-- Of `Config`, what its checkpoints are made with: `key` is the public part of `Key`, and
-- `sign_digest` is `rfc6979.Sign` with it.
pub record Config : Type 0 where
  pub name : Bytes
  pub key : PublicKey
  pub sign_digest : Bytes → Outcome EcdsaError Bytes
  pub witness_key : Bytes

-- What is drawn at random for a checkpoint: the first grease signature, the label and the end of the
-- second one, and the two shuffles
pub record Draw : Type 0 where
  pub g1 : Bytes
  pub label : ℕ
  pub g2_rest : Bytes
  pub grease_swapped : Bool
  pub signers_swapped : Bool

-- `mathrand.Shuffle` of two elements
abbrev pub shuffled : {A : Type 0} → Bool → A → A → List A
shuffled swapped a b = if swapped then b ∷ a ∷ [] else a ∷ b ∷ []

module _ {Builder : Type 0} (cb : Cryptobyte Builder) (tx : Texts) (vf : Verification) (nm : Names)
    (np : NotePackage tx) (c : Config) where
  -- `greaseSignatures`
  unfoldable pub grease_signatures : Draw → List NoteSig
  unfolding be_value
  grease_signatures d =
      let g2 = first_four (vf.sha256 (codes "grease" ++ (10 ∷ d.label ∷ []))) ++ d.g2_rest in
      shuffled d.grease_swapped
        (record {
          name = codes "grease.invalid";
          hash = be_value 0 (first_four d.g1);
          base64 = tx.encode d.g1;
        })
        (record { name = c.name; hash = be_value 0 (first_four g2); base64 = tx.encode g2 })

  -- `injectedSigner`
  abbrev pub injected_signer : Verifier → Bytes → Signer
  injected_signer v sig = record { name = v.name; hash = v.hash; sign = λ msg. ok sig }

  -- `ed25519Signer`
  abbrev pub ed25519_signer : Verifier → Signer
  ed25519_signer v = record {
    name = v.name;
    hash = v.hash;
    sign = λ msg. ok (np.ed25519_sign c.witness_key msg);
  }

  -- The verifier of the witness key, whose two steps fail with their own errors
  abbrev pub ed25519_verifier : LogError → LogError → Outcome LogError Verifier
  ed25519_verifier no_key no_verifier =
      renamed no_key (np.new_ed25519_verifier_key c.name (np.ed25519_public c.witness_key))
      >>= λ vk. renamed no_verifier (np.new_verifier vk)

  -- `newEd25519Signer`
  unfoldable pub new_ed25519_signer : Outcome LogError Signer
  new_ed25519_signer =
      ed25519_verifier ed25519_signer_not_constructed ed25519_signer_not_constructed >>= λ v.
      ok (ed25519_signer v)

  abbrev pub verifier_of : Outcome LogError Verifier
  verifier_of = renamed verifier_not_constructed (new_rfc6962_verifier cb tx vf nm c.name c.key)

  -- The note of a tree head
  abbrev pub unsigned_note : TreeWithTimestamp → Draw → Note
  unsigned_note tree d = record {
    text =
        format_checkpoint tx
          (record { origin = c.name; n = pos tree.n; hash = tree.hash; extension = [] });
    sigs = [];
    unverified_sigs = grease_signatures d;
  }

  -- `signTreeHead`
  unfoldable pub sign_tree_head : TreeWithTimestamp → Draw → Outcome LogError Bytes
  unfolding note_signature new_rfc6962_verifier new_ed25519_signer grease_signatures
      format_checkpoint
  sign_tree_head tree d =
      note_signature cb vf c.sign_digest (pos tree.n) (pos tree.time) tree.hash >>= λ sig.
      verifier_of >>= λ v. new_ed25519_signer >>= λ ws.
      renamed note_not_signed
        (np.sign (unsigned_note tree d) (shuffled d.signers_swapped (injected_signer v sig) ws))

  -- What the loop over the signatures has found: the timestamp, and `v1Found` and `v2Found`
  pub record Found : Type 0 where
    pub timestamp : ℕ
    pub v1_found : Bool
    pub v2_found : Bool

  -- The loop over the verified signatures
  unfoldable pub find_signatures : ℕ → ℕ → List NoteSig → Found → Outcome LogError Found
  unfolding signature_timestamp
  find_signatures h1 h2 [] f = ok f
  find_signatures h1 h2 (s ∷ ss) f =
      let rest = find_signatures h1 h2 ss in
      if s.hash == h1
      then (renamed timestamp_not_extracted (signature_timestamp cb tx vf s.base64) >>= λ t.
          rest (record f { timestamp = t; v1_found = true }))
      else (if s.hash == h2 then rest (record f { v2_found = true }) else rest f)

  -- The checks behind the signatures, at the time `now`
  abbrev pub check_opened : ℕ → ℕ → Checkpoint → Outcome LogError (Checkpoint × ℕ)
  check_opened now timestamp k =
      if ltb now timestamp
      then err checkpoint_in_future
      else (if not (bytes_beq k.origin c.name)
          then err wrong_origin
          else (if not (is_empty k.extension) then err unexpected_extension else ok (k, timestamp)))

  -- From the opened note on
  unfoldable pub check_note : ℕ → Verifier → Verifier → Note → Outcome LogError (Checkpoint × ℕ)
  unfolding find_signatures parse_checkpoint
  check_note now v1 v2 n =
      find_signatures v1.hash v2.hash n.sigs
        (record { timestamp = 0; v1_found = false; v2_found = false })
      >>= λ f.
          if not (f.v1_found && f.v2_found)
          then err missing_verifier_signature
          else (renamed checkpoint_not_parsed (parse_checkpoint tx n.text) >>= λ k.
              check_opened now f.timestamp k)

  -- `openCheckpoint`, at the time `now`
  unfoldable pub open_checkpoint : ℕ → Bytes → Outcome LogError (Checkpoint × ℕ)
  unfolding check_note new_rfc6962_verifier
  open_checkpoint now b = verifier_of >>= λ v1.
      ed25519_verifier verifier_key_not_constructed ed25519_verifier_not_constructed >>= λ v2.
      renamed checkpoint_not_verified (np.open_note b (v1 ∷ v2 ∷ [])) >>= λ n.
      check_note now v1 v2 n

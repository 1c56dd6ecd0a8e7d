-- ===== src/Ctlog/Checkpoints/Heads.antt =====
-- `signTreeHead` and `openCheckpoint` (ctlog.go) as the sequencer and `LoadLog` use them.
use sunlight.Prelude.{
  ℕ, ◌^◌, ◌≤◌, ◌≡◌, refl, Bool, true, ◌&&◌, ltb, leb, leb→le, ◌==◌, if◌then◌else◌, length, Outcome,
  ok, err, ◌>>=◌, >>=-eq-ok, ok-injective, arith, inl, inr, Bool-cases,
}
use sunlight.Prelude.Int.{pos_part}
use sunlight.Errors.{LogError, note_not_signed}
use sunlight.Cryptobyte.{Cryptobyte}
use sunlight.Cryptobyte.Wire.{Bytes}
use sunlight.Cryptobyte.Plain.{are_bytes, All-IsByte}
use sunlight.Checkpoint.{Texts, max_checkpoint_size, format_checkpoint}
use sunlight.Checkpoint.Signature.{Verification}
use sunlight.Checkpoint.Verifier.{Names}
use sunlight.Ctlog.Types.{TreeWithTimestamp}
use sunlight.Ctlog.Sequencer.{CheckpointSigner}
use sunlight.Ctlog.Checkpoints.Notes.{NotePackage}
use sunlight.Ctlog.Checkpoints.{Config, Draw, sign_tree_head, open_checkpoint}
use sunlight.Ctlog.Checkpoints.RoundTrip.{
  HaveDistinctKeys, SignsWith, IsHead, checkpoint_for, open-sign_tree_head,
}

module _ {Builder : Type 0} (cb : Cryptobyte Builder) (tx : Texts) (vf : Verification) (nm : Names)
    (np : NotePackage tx) (c : Config) where
  -- What holds of each tree head in Go, whose sizes and times are int64 and whose hashes are arrays of
  -- 32 bytes, for a log whose name is of a size that leaves room in a checkpoint.
  abbrev pub in_types : TreeWithTimestamp → Bool
  in_types t =
      ltb t.n (2 ^ 63)
      && (ltb t.time (2 ^ 63)
          && (are_bytes t.hash
              && (length t.hash == 32
                  && leb
                      (length (format_checkpoint tx (checkpoint_for cb tx vf nm np c t.n t.hash)))
                      max_checkpoint_size)))

  -- The text of each such tree head is one that the package note accepts: so it is, if the name of
  -- the log has no control characters.
  abbrev pub HasTexts : Type 0
  HasTexts =
      (t : TreeWithTimestamp)
      → in_types t ≡ true
      → np.is_text (format_checkpoint tx (checkpoint_for cb tx vf nm np c t.n t.hash)) ≡ true

  module _ (draws : TreeWithTimestamp → Draw) where
    abbrev pub within : Bytes → Outcome LogError Bytes
    within b = if leb (length b) np.max_note_size then ok b else err note_not_signed

    -- `signTreeHead` with what is drawn for the head. What Go's types exclude, and a checkpoint that
    -- is larger than a note may be, is refused.
    unfoldable pub sign_head : TreeWithTimestamp → Outcome LogError Bytes
    unfolding sign_tree_head
    sign_head t =
        if in_types t
        then (sign_tree_head cb tx vf nm np c t (draws t) >>= λ b. within b)
        else err note_not_signed

    -- `openCheckpoint`, and the tree that its callers make of the checkpoint
    unfoldable pub open_head : ℕ → Bytes → Outcome LogError TreeWithTimestamp
    unfolding open_checkpoint
    open_head now b = open_checkpoint cb tx vf nm np c now b >>= λ (k, time).
        ok (record { tree = record { n = pos_part k.n; hash = k.hash }; time = time })

    in_types-IsHead :
        HasTexts
        → (t : TreeWithTimestamp) → in_types t ≡ true
        → IsHead cb tx vf nm np c t.n t.hash t.time
    in_types-IsHead texts t h = (
      ground arith,
      ground arith,
      All-IsByte t.hash (ground arith),
      ground arith,
      ground arith,
      texts t h,
    )

    module _ (key : Bytes) (signs : SignsWith cb tx vf nm np c key)
        (distinct : HaveDistinctKeys cb tx vf nm np c) (texts : HasTexts) where
      pub open-sign_head :
          (t : TreeWithTimestamp) (b : Bytes) (now : ℕ)
          → sign_head t ≡ ok b
          → t.time ≤ now
          → open_head now b ≡ ok t
      unfolding sign_head open_head
      open-sign_head t b now h past = elim (Bool-cases (in_types t)) [
        | inr out ↦ absurd (cc (rw (out) at h))
        | inl typed ↦
            let (b', made, small) =
              >>=-eq-ok (sign_tree_head cb tx vf nm np c t (draws t)) _ (rw (typed) at h) in
            elim (Bool-cases (leb (length b') np.max_note_size)) [
              | inr large ↦ absurd (cc (rw (large) at small))
              | inl fits ↦
                  let same : b' ≡ b = ok-injective {E = LogError} _ _ (rw (fits) at small) in
                  let opened =
                    open-sign_tree_head cb tx vf nm np c key t.hash t.n t.time signs
                      (in_types-IsHead texts t typed) (draws t) b' now distinct (leb→le _ _ fits)
                      past made in
                  rw (← same, opened) refl
            ]
      ]

      -- The code is what the sequencer and `LoadLog` ask for.
      abbrev pub code_signer : CheckpointSigner
      unfolding sign_head open_head
      code_signer = record {
        sign_tree_head = sign_head;
        open_checkpoint = open_head;
        open-sign = open-sign_head;
      }

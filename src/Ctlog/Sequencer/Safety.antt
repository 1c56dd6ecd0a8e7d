-- ===== src/Ctlog/Sequencer/Safety.antt =====
-- What the phases say of `sequencePool` (ctlog.go): crash safety, and that a log that goes on agrees
-- with its lock.
use sunlight.Prelude.{ℕ, ◌<◌, ◌≡◌, refl, ok, inl, inr, Bool-cases, leb, arith}
use sunlight.Prelude.Maps.{bytes_eq}
use sunlight.Errors.{tree_head_not_computed, staging_not_marshalled}
use sunlight.Cryptobyte.{Cryptobyte}
use sunlight.Cryptobyte.Wire.{Bytes}
use sunlight.Ctlog.Types.{Tlog}
use sunlight.Ctlog.Pool.{State, pool_at}
use sunlight.Ctlog.Batch.{Batch, make_batch, hash_reader}
use sunlight.Ctlog.Staging.{Archive}
use sunlight.Ctlog.Sequencer.{
  CheckpointSigner, tree_head, hash_and_publish, stage_and_publish, sequence_body,
}
use sunlight.Ctlog.Sequencer.Phases.{Result, Failed, lift_cases, renamed_cases, Phase, untouched}
use sunlight.Ctlog.Sequencer.Progress.{upload_bundle-Phase}
use sunlight.Ctlog.Sequencer.{stage_and_publish}

module _ {Builder : Type 0} (cb : Cryptobyte Builder) (sha256 : Bytes → Bytes) (tlog : Tlog)
    (archive : Archive) (signer : CheckpointSigner) (id : ℕ) (s : State) where
  abbrev InPhase : Result × State → Type 0
  InPhase x = Phase cb sha256 tlog archive signer id s x.0 x.1

  abbrev nothing_done : (r : Result) → Failed r → InPhase (r, s)
  nothing_done r f = untouched r s f refl refl refl

  stage_and_publish-Phase :
      (b : Batch) (h : Bytes)
      → s.log.tree.time < s.world.now
      → make_batch cb sha256 tlog s.log.edge_tiles s.log.tree.n s.world.now
          (pool_at s.log.pools id).pending_leaves
        ≡ ok b
      → tlog.tree_hash b.n (hash_reader tlog s.log.edge_tiles b.new_hashes) ≡ ok h
      → InPhase
          (stage_and_publish cb sha256 tlog archive signer id (tree_head b.n h s.world.now) b s)
  unfolding stage_and_publish
  stage_and_publish-Phase b h progress made hashed =
      renamed_cases InPhase _ s staging_not_marshalled _
        (λ staged marshalled. upload_bundle-Phase cb sha256 tlog archive signer id s (record {
          batch = b;
          hash = h;
          staged = staged;
          progress = progress;
          made = made;
          hashed = hashed;
          marshalled = marshalled;
        }))
        (λ e. nothing_done _ (inl (_, refl))) (nothing_done _ (inr refl))

  pub sequence_body-Phase : InPhase (sequence_body cb sha256 tlog archive signer id s)
  unfolding sequence_body hash_and_publish
  sequence_body-Phase = elim (Bool-cases (leb s.world.now s.log.tree.time)) [
    | inl h ↦ rw (h) (nothing_done _ (inl (_, refl)))
    | inr h ↦ rw (h) (
        lift_cases InPhase _ s _
          (λ b made.
            renamed_cases InPhase _ s tree_head_not_computed _
              (λ hash hashed. stage_and_publish-Phase b hash (ground arith) made hashed)
              (λ e. nothing_done _ (inl (_, refl))) (nothing_done _ (inr refl)))
          (λ e. nothing_done _ (inl (_, refl))) (nothing_done _ (inr refl)))
  ]

-- ===== src/Ctlog/Loading/Crashes.antt =====
-- The two halves of crash safety together (ctlog.go): what `LoadLog` makes of the state that a run of
-- `sequencePool` left behind, wherever it ended.
use sunlight.Prelude.{ℕ, ◌≤◌, ◌≡◌, refl, sym, ◌∙◌, ap, List, some, ok, inl, inr, ◌⊎◌, ok-injective}
use sunlight.Prelude.Maps.{Map, lookup, bytes_eq}
use sunlight.Cryptobyte.{Cryptobyte}
use sunlight.Cryptobyte.Wire.{Bytes}
use sunlight.Ctlog.World.{World, Object, Fault, object_content}
use sunlight.Ctlog.World.Reads.{IsSame}
use sunlight.Ctlog.Types.{Tlog, Tree, TreeWithTimestamp, Log, UploadAction}
use sunlight.Ctlog.Paths.{checkpoint_key, staging_path}
use sunlight.Ctlog.Pool.{State}
use sunlight.Ctlog.Staging.{Archive, marshal_staged_uploads, apply_staged_uploads}
use sunlight.Ctlog.Staging.Bundle.{store_all, upload_all_cases, apply-marshal_staged_uploads}
use sunlight.Ctlog.Sequencer.{CheckpointSigner, sequence_pool, opts_staging}
use sunlight.Ctlog.Sequencer.Crashes.{Candidates, head_of, IsSynced, LockedWithBundle}
use sunlight.Ctlog.Sequencer.Guarantees.{sequence_pool-lock}
use sunlight.Ctlog.Loading.{load_log}
use sunlight.Ctlog.Loading.Recovery.{CaughtUp, level, applied, IsLoaded, load_log-IsLoaded}

-- The world that a new process finds, at a later time, with faults of its own.
abbrev pub restarted : ℕ → List Fault → World → World
restarted now faults w = record w { now = now; faults = faults }

-- A bundle of `marshalStagedUploads` that was applied without error has stored all its uploads.
applied-store_all :
    (archive : Archive) (us : List UploadAction) (staged : Bytes) (w : World) {x : Unit {0}}
    {w' : World}
    → marshal_staged_uploads archive us ≡ ok staged
    → apply_staged_uploads archive staged w ≡ (ok x, w')
    → w'.objects ≡ store_all us w.objects
applied-store_all archive us staged w {x} {w'} marshalled h =
    upload_all_cases (λ y. y ≡ (ok x, w') → w'.objects ≡ store_all us w.objects) us w
      (λ v l o k. ap (λ y. y.1.objects) (sym k) ∙ o) (λ e v l p k. absurd (cc (ap (λ y. y.0) k)))
      (λ v l p k. absurd (cc (ap (λ y. y.0) k)))
      (sym (apply-marshal_staged_uploads archive us staged w marshalled) ∙ h)

some-injective : (a b : Bytes) → some a ≡ some b → a ≡ b
some-injective a b h = cc

module _ {Builder : Type 0} (cb : Cryptobyte Builder) (sha256 : Bytes → Bytes) (tlog : Tlog)
    (archive : Archive) (signer : CheckpointSigner) (id : ℕ) (s : State) (now pool_size : ℕ)
    (faults : List Fault) where
  abbrev left : World
  left = (sequence_pool cb sha256 tlog archive signer id s).1.world

  abbrev Candidate : Type 0
  Candidate = Candidates cb sha256 tlog archive signer id s

  abbrev head : Candidate → TreeWithTimestamp
  head c = head_of cb sha256 tlog archive signer id s c

  -- The published checkpoint, as it was found, opens to a tree.
  abbrev pub IsPublished : Tree → Type 0
  IsPublished tree =
      (sth : Bytes) × (t : TreeWithTimestamp) × (object_content (lookup checkpoint_key left.objects)
        ≡ ok sth)
      × (signer.open_checkpoint now sth ≡ ok t)
      × (t.n ≡ tree.n)
      × (t.hash ≡ tree.hash)

  -- The tree is the one from before the run, or the run's: published, or with all its tiles stored.
  abbrev pub IsRecovered : TreeWithTimestamp → Map Bytes Object → Type 0
  IsRecovered tree objects =
      (tree ≡ s.log.tree)
      ⊎ ((c : Candidate) × (tree ≡ head c)
          × (IsPublished (head c).tree ⊎ (objects ≡ store_all c.batch.tile_uploads left.objects)))

  -- Two openings of one checkpoint agree.
  same_opening :
      (t t' : TreeWithTimestamp) (b b' : Bytes)
      → b ≡ b'
      → signer.sign_tree_head t ≡ ok b
      → t.time ≤ now
      → signer.open_checkpoint now b' ≡ ok t'
      → t' ≡ t
  same_opening t t' b b' same signed late opened = sym (
      ok-injective _ _ (
        sym (signer.open-sign t b now signed late)
        ∙ (ap (signer.open_checkpoint now) same ∙ opened)))

  bundle_applied :
      (c : Candidate) (published locked : Tree) (w₀ w₁ : World)
      → locked ≡ (head c).tree
      → IsSame (restarted now faults left) w₀
      → lookup (staging_path (head c).tree) left.objects
        ≡ some (record { content = c.staged; options = opts_staging })
      → CaughtUp archive published locked w₀ w₁
      → ((published.n ≡ (head c).n) × (published.hash ≡ (head c).hash))
        ⊎ (w₁.objects ≡ store_all c.batch.tile_uploads left.objects)
  bundle_applied c published locked w₀ w₁ tree_is same found (level n hash o) =
      inl (n ∙ ap (λ t. t.n) tree_is, hash ∙ ap (λ t. t.hash) tree_is)
  bundle_applied c published locked w₀ w₁ tree_is same found
        (applied older staged v x read same' done) =
      let content : object_content (lookup (staging_path locked) w₀.objects) ≡ ok c.staged =
        rw (tree_is, same.objects, found) refl in
      let which : staged ≡ c.staged = ok-injective _ _ (sym read ∙ content) in
      inr (
        applied-store_all archive c.batch.tile_uploads c.staged v c.marshalled (rw (which) at done)
        ∙ ap (store_all c.batch.tile_uploads) (same'.objects ∙ same.objects))

  loaded_old :
      (log : Log) (w' : World)
      → IsSynced cb sha256 tlog archive signer id s s
      → s.log.tree.time ≤ now
      → IsLoaded archive signer (restarted now faults left) log w'
      → left.lock ≡ s.world.lock
      → (signer.sign_tree_head log.tree ≡ ok log.lock_checkpoint) × (log.tree ≡ s.log.tree)
  loaded_old log w' (signed, locked) late l kept =
      let same : s.log.lock_checkpoint ≡ log.lock_checkpoint =
        some-injective _ _ (sym locked ∙ (sym kept ∙ l.held)) in
      let tree = same_opening s.log.tree log.tree _ _ same signed late l.opened in
      (rw (tree) (signed ∙ ap ok same), tree)

  loaded_new :
      (log : Log) (w' : World)
      → s.world.now ≤ now
      → IsLoaded archive signer (restarted now faults left) log w'
      → LockedWithBundle cb sha256 tlog archive signer id s left.lock left.objects
      → (signer.sign_tree_head log.tree ≡ ok log.lock_checkpoint) × IsRecovered log.tree w'.objects
  loaded_new log w' late l (c, checkpoint, signed, _, locked, found) =
      let same : checkpoint ≡ log.lock_checkpoint = some-injective _ _ (sym locked ∙ l.held) in
      let tree =
        same_opening (head c) log.tree checkpoint log.lock_checkpoint same signed late l.opened in
      let caught =
        bundle_applied c l.published.tree log.tree.tree l.w₀ l.w₁ (ap (λ t. t.tree) tree)
          l.caught_from found l.caught_up in
      (
        rw (tree) (signed ∙ ap ok same),
        inr (
          c,
          tree,
          elim caught [
            | inl (n, hash) ↦ inl (l.sth, l.published, l.found, l.published_opened, n, hash)
            | inr stored ↦ inr (l.caught_to.objects ∙ stored)
          ],
        ),
      )

  -- Where a signed tree head opens again, and the clock has not gone back:
  -- after a run from a log that agreed with its lock, whatever failed in the run and wherever the
  -- process ended in it, a log that is loaded at the time of the run and of the old tree or later,
  -- whatever fails in that, agrees with its lock: the lock holds its checkpoint, which is signed for
  -- its tree. The tree is the one from before the run, or the run's; and then that tree is already
  -- published, or the storage holds every upload of the run's batch over what the run left.
  pub load_log-sequence_pool :
      (log : Log) (w' : World)
      → IsSynced cb sha256 tlog archive signer id s s
      → s.log.tree.time ≤ now
      → s.world.now ≤ now
      → load_log cb tlog archive signer pool_size (restarted now faults left) ≡ (ok log, w')
      → (signer.sign_tree_head log.tree ≡ ok log.lock_checkpoint)
        × (w'.lock ≡ some log.lock_checkpoint)
        × IsRecovered log.tree w'.objects
  load_log-sequence_pool log w' synced late late' h =
      let l =
        load_log-IsLoaded cb tlog archive signer pool_size (restarted now faults left) log w' h in
      elim (sequence_pool-lock cb sha256 tlog archive signer id s) [
        | inl kept ↦
            let (signed, tree) = loaded_old log w' synced late l kept in
            (signed, l.kept ∙ l.held, inl tree)
        | inr locked ↦
            let (signed, recovered) = loaded_new log w' late' l locked in
            (signed, l.kept ∙ l.held, recovered)
      ]

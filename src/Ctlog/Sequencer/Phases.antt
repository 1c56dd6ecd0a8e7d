-- ===== src/Ctlog/Sequencer/Phases.antt =====
-- How far a run of `sequencePool` (ctlog.go) gets, whatever fails in it and wherever the process
-- ends: the phases of what is stored, locked and known to the log.
use sunlight.Prelude.{ℕ, ◌<◌, ◌≡◌, refl, some, Outcome, ok, err, panic, ◌⊎◌}
use sunlight.Prelude.Maps.{Map, bytes_eq}
use sunlight.Errors.{LogError, checkpoint_not_replaced, tile_not_uploaded}
use sunlight.Cryptobyte.{Cryptobyte}
use sunlight.Cryptobyte.Wire.{Bytes}
use sunlight.Ctlog.Action.{Act, renamed, continue}
use sunlight.Ctlog.World.{Object}
use sunlight.Ctlog.World.Frames.{put}
use sunlight.Ctlog.Types.{Tlog, TreeWithTimestamp}
use sunlight.Ctlog.Paths.{staging_path, checkpoint_key}
use sunlight.Ctlog.Pool.{State, pool_at}
use sunlight.Ctlog.Batch.{Batch, make_batch, hash_reader}
use sunlight.Ctlog.Staging.{Archive, marshal_staged_uploads}
use sunlight.Ctlog.Staging.Bundle.{store_all, Partly}
use sunlight.Ctlog.Sequencer.{
  CheckpointSigner, opts_staging, opts_checkpoint, tree_head, commit_batch,
}

abbrev pub Result : Type 0
Result = Outcome LogError (Unit {0})

-- The log is what it was.
abbrev pub Kept : State → State → Type 0
Kept s s' = s'.log ≡ s.log

-- An error, or the end of the process.
abbrev pub Failed : Result → Type 0
Failed r = ((e : LogError) × (r ≡ err e)) ⊎ (r ≡ panic)

-- An error that ends the sequencer, or the end of the process.
abbrev pub Fatal : LogError → Result → Type 0
Fatal e r = (r ≡ err e) ⊎ (r ≡ panic)

module _ (Q : Result × State → Type 0) {A : Type 0} (k : A → Act State (Unit {0})) (s : State) where
  pub lift_cases :
      (r : Outcome LogError A)
      → ((a : A) → r ≡ ok a → Q (k a s))
      → ((e : LogError) → Q (err e, s))
      → Q (panic, s)
      → Q (continue (r, s) k)
  lift_cases (ok a) good bad dead = good a refl
  lift_cases (err e) good bad dead = bad e
  lift_cases panic good bad dead = dead

  pub renamed_cases :
      (e : LogError) (r : Outcome LogError A)
      → ((a : A) → r ≡ ok a → Q (k a s))
      → ((e' : LogError) → Q (err e', s))
      → Q (panic, s)
      → Q (continue (renamed e r, s) k)
  renamed_cases e (ok a) good bad dead = good a refl
  renamed_cases e (err e') good bad dead = bad e
  renamed_cases e panic good bad dead = dead

module _ {Builder : Type 0} (cb : Cryptobyte Builder) (sha256 : Bytes → Bytes) (tlog : Tlog)
    (archive : Archive) (signer : CheckpointSigner) where
  -- What a run computes from the log and the clock, before anything is stored.
  pub record Candidate (id : ℕ) (s : State) : Type 0 where
    pub batch : Batch
    pub hash : Bytes
    pub staged : Bytes
    pub progress : s.log.tree.time < s.world.now
    pub made :
        make_batch cb sha256 tlog s.log.edge_tiles s.log.tree.n s.world.now
          (pool_at s.log.pools id).pending_leaves
        ≡ ok batch
    pub hashed :
        tlog.tree_hash batch.n (hash_reader tlog s.log.edge_tiles batch.new_hashes) ≡ ok hash
    pub marshalled : marshal_staged_uploads archive batch.tile_uploads ≡ ok staged

  module _ {id : ℕ} {s : State} where
    abbrev pub head : Candidate id s → TreeWithTimestamp
    head c = tree_head c.batch.n c.hash s.world.now

    -- The objects with the bundle of a candidate staged.
    abbrev pub bundled : Candidate id s → Map Bytes Object
    bundled c = put (staging_path (head c).tree) c.staged opts_staging s.world.objects

    -- The objects with all of its tiles.
    abbrev pub tiled : Candidate id s → Map Bytes Object
    tiled c = store_all c.batch.tile_uploads (bundled c)

    -- The lock was replaced by compare-and-swap from the log's checkpoint.
    abbrev pub Locked : Candidate id s → Bytes → State → Type 0
    Locked c checkpoint s' =
        (signer.sign_tree_head (head c) ≡ ok checkpoint)
        × (s.world.lock ≡ some s.log.lock_checkpoint)
        × (s'.world.lock ≡ some checkpoint)

    -- The log has taken the candidate over.
    abbrev pub Committed : Candidate id s → Bytes → State → Type 0
    Committed c checkpoint s' = s'.log ≡ (commit_batch id (head c) checkpoint c.batch s).log

  pub data Phase (id : ℕ) (s : State) : Result → State → Type 0 where
    untouched :
        (r : Result) (s' : State)
        → Failed r
        → Kept s s'
        → s'.world.lock ≡ s.world.lock
        → s'.world.objects ≡ s.world.objects
        → Phase id s r s'
    staged :
        (r : Result) (s' : State) (c : Candidate id s)
        → Failed r
        → Kept s s'
        → s'.world.lock ≡ s.world.lock
        → s'.world.objects ≡ bundled c
        → Phase id s r s'
    lost :
        (r : Result) (s' : State) (c : Candidate id s) (checkpoint : Bytes)
        → Fatal checkpoint_not_replaced r
        → Kept s s'
        → Locked c checkpoint s'
        → s'.world.objects ≡ bundled c
        → Phase id s r s'
    applying :
        (r : Result) (s' : State) (c : Candidate id s) (checkpoint : Bytes)
        → Fatal tile_not_uploaded r
        → Committed c checkpoint s'
        → Locked c checkpoint s'
        → Partly c.batch.tile_uploads (bundled c) s'.world.objects
        → Phase id s r s'
    applied :
        (r : Result) (s' : State) (c : Candidate id s) (checkpoint : Bytes)
        → Failed r
        → Committed c checkpoint s'
        → Locked c checkpoint s'
        → s'.world.objects ≡ tiled c
        → Phase id s r s'
    published :
        (r : Result) (s' : State) (c : Candidate id s) (checkpoint : Bytes)
        → Committed c checkpoint s'
        → Locked c checkpoint s'
        → s'.world.objects ≡ put checkpoint_key checkpoint opts_checkpoint (tiled c)
        → Phase id s r s'

-- ===== src/Ctlog/Sequencer/Guarantees.antt =====
-- What holds after every run of `sequencePool` (ctlog.go), for each script of faults: of the lock and
-- the staged bundle, of the published checkpoint, and of the log that goes on.
use sunlight.Prelude.{ℕ, ◌+◌, ◌<◌, ◌≡◌, refl, ok, ◌⊎◌, length}
use sunlight.Prelude.Maps.{lookup, bytes_eq}
use sunlight.Errors.{checkpoint_not_replaced, tile_not_uploaded}
use sunlight.Cryptobyte.{Cryptobyte}
use sunlight.Cryptobyte.Wire.{Bytes}
use sunlight.Ctlog.Types.{Tlog}
use sunlight.Ctlog.Paths.{checkpoint_key}
use sunlight.Ctlog.Pool.{State, pool_at}
use sunlight.Ctlog.Staging.{Archive}
use sunlight.Ctlog.Sequencer.{CheckpointSigner, sequence_body, sequence_pool}
use sunlight.Ctlog.Sequencer.Phases.{Result, Phase}
use sunlight.Ctlog.Sequencer.Safety.{sequence_body-Phase}
use sunlight.Ctlog.Sequencer.Crashes.{
  finish-world, finish-tree, finish-lock_checkpoint, finish-ok, LockedWithBundle,
  PublishedWithTiles, IsSynced, TilesStored, Phase-bundle, Phase-published, Phase-IsSynced,
  Phase-tiles, Phase-grows, Phase-signed,
}

module _ {Builder : Type 0} (cb : Cryptobyte Builder) (sha256 : Bytes → Bytes) (tlog : Tlog)
    (archive : Archive) (signer : CheckpointSigner) (id : ℕ) (s : State) where
  abbrev run : Result × State
  run = sequence_pool cb sha256 tlog archive signer id s

  abbrev body : Result × State
  body = sequence_body cb sha256 tlog archive signer id s

  phase : Phase cb sha256 tlog archive signer id s body.0 body.1
  phase = sequence_body-Phase cb sha256 tlog archive signer id s

  -- Whatever calls fail, and wherever the process ends, a run leaves the lock alone, or it has put
  -- the signed head of the new tree there, in place of the checkpoint that the log knew, and then
  -- the bundle of all uploads for that tree is in the object storage, under its staging path.
  pub sequence_pool-lock :
      (run.1.world.lock ≡ s.world.lock)
      ⊎ LockedWithBundle cb sha256 tlog archive signer id s run.1.world.lock run.1.world.objects
  unfolding sequence_pool
  sequence_pool-lock =
      rw (finish-world id body.0 body.1)
        (Phase-bundle cb sha256 tlog archive signer id s body.1 body.0 phase)

  -- Whatever calls fail, and wherever the process ends, a run leaves the published checkpoint alone,
  -- or the published checkpoint is a signed head that the lock holds, and the object storage is what
  -- it was with the bundle, every upload of the batch, and that checkpoint.
  pub sequence_pool-published :
      (lookup checkpoint_key run.1.world.objects ≡ lookup checkpoint_key s.world.objects)
      ⊎ PublishedWithTiles cb sha256 tlog archive signer id s run.1.world
  unfolding sequence_pool
  sequence_pool-published =
      rw (finish-world id body.0 body.1)
        (Phase-published cb sha256 tlog archive signer id s body.1 body.0 phase)

  -- Of a log whose checkpoint is what it signed for its tree, and what the lock holds, this still
  -- holds after a run behind which the sequencer goes on.
  pub sequence_pool-IsSynced :
      IsSynced cb sha256 tlog archive signer id s s
      → run.0 ≡ ok tt
      → IsSynced cb sha256 tlog archive signer id s run.1
  unfolding sequence_pool
  sequence_pool-IsSynced synced goes_on =
      let (sign, lock) =
        Phase-IsSynced cb sha256 tlog archive signer id s body.1 body.0 phase
          (finish-ok id body.0 body.1 checkpoint_not_replaced refl goes_on) synced in
      (
        rw (finish-tree id body.0 body.1, finish-lock_checkpoint id body.0 body.1) sign,
        rw (finish-world id body.0 body.1, finish-lock_checkpoint id body.0 body.1) lock,
      )

  -- The log has the tree and the checkpoint that it had, or it agrees with the lock on a tree of the
  -- time of the run.
  pub sequence_pool-signed :
      ((run.1.log.tree ≡ s.log.tree) × (run.1.log.lock_checkpoint ≡ s.log.lock_checkpoint))
      ⊎ (IsSynced cb sha256 tlog archive signer id s run.1 × (run.1.log.tree.time ≡ s.world.now))
  unfolding sequence_pool
  sequence_pool-signed =
      rw
        (
          finish-world id body.0 body.1,
          finish-tree id body.0 body.1,
          finish-lock_checkpoint id body.0 body.1,
        )
        (Phase-signed cb sha256 tlog archive signer id s body.1 body.0 phase)

  -- Behind a run after which the sequencer goes on, the log has the tree that it had, or every upload
  -- of its batch is in the object storage.
  sequence_pool-tiles :
      run.0 ≡ ok tt
      → (run.1.log.tree ≡ s.log.tree)
        ⊎ TilesStored cb sha256 tlog archive signer id s run.1.log.tree run.1.world.objects
  unfolding sequence_pool
  sequence_pool-tiles goes_on =
      rw (finish-tree id body.0 body.1, finish-world id body.0 body.1)
        (Phase-tiles cb sha256 tlog archive signer id s body.1 body.0 phase
          (finish-ok id body.0 body.1 tile_not_uploaded refl goes_on))

  -- Every run leaves the log's tree alone, or gives it a later timestamp and one more leaf for each
  -- leaf of the pool.
  sequence_pool-grows :
      (run.1.log.tree ≡ s.log.tree)
      ⊎ ((s.log.tree.time < run.1.log.tree.time)
          × (run.1.log.tree.n ≡ s.log.tree.n + length (pool_at s.log.pools id).pending_leaves))
  unfolding sequence_pool
  sequence_pool-grows =
      rw (finish-tree id body.0 body.1)
        (Phase-grows cb sha256 tlog archive signer id s body.1 body.0 phase)

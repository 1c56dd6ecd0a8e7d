-- ===== src/Ctlog/Sequencer.antt =====
-- The sequencer (ctlog.go): `sequencePool`, `sequence` and `RunSequencer`.
pub mod Phases
pub mod Progress
pub mod Safety
pub mod Keys
pub mod Waiters
pub mod Guarantees
pub mod Crashes
use sunlight.Prelude.{
  ◌≤◌, ℕ, ◌+◌, ◌≡◌, List, [], ◌∷◌, Option, none, some, Bool, true, false, Outcome, ok, err, panic,
  leb, if◌then◌else◌,
}
use sunlight.Prelude.Maps.{Map, insert, nat_eq, codes}
use sunlight.Errors.{
  LogError, time_did_not_progress, checkpoint_not_replaced, tile_not_uploaded,
  tree_head_not_computed, staging_not_marshalled, staging_not_uploaded, checkpoint_not_signed,
  checkpoint_not_uploaded, stopped,
}
use sunlight.Cryptobyte.{Cryptobyte}
use sunlight.Cryptobyte.Wire.{Bytes}
use sunlight.Ctlog.Action.{Act, pure, lift, renamed, or_else, continue, ◌>>=◌, ◌>>◌}
use sunlight.Ctlog.World.{UploadOptions, upload, lock_replace}
use sunlight.Ctlog.Types.{Tlog, Tree, TreeWithTimestamp, Pool, new_pool, Log}
use sunlight.Ctlog.Paths.{staging_path, checkpoint_key}
use sunlight.Ctlog.Entries.{cache_put}
use sunlight.Ctlog.Pool.{State, on_world, on_error, pool_at}
use sunlight.Ctlog.Batch.{Batch, make_batch, hash_reader}
use sunlight.Ctlog.Staging.{Archive, marshal_staged_uploads, apply_staged_uploads}

abbrev pub opts_staging : UploadOptions
opts_staging = record { content_type = []; compress = true; immutable = false }

abbrev pub opts_checkpoint : UploadOptions
opts_checkpoint = record {
  content_type = codes "text/plain; charset=utf-8";
  compress = false;
  immutable = false;
}

-- Signed tree heads, as the sequencer and the loading of a log use them: a head that was signed
-- is opened again, at its time or later. `signTreeHead` and `openCheckpoint` of Ctlog/Checkpoints are
-- such a pair: `code_signer` of Ctlog/Checkpoints/Heads is made of them.
pub record CheckpointSigner : Type 0 where
  pub sign_tree_head : TreeWithTimestamp → Outcome LogError Bytes
  pub open_checkpoint : ℕ → Bytes → Outcome LogError TreeWithTimestamp
  pub open-sign :
      (t : TreeWithTimestamp) (b : Bytes) (now : ℕ)
      → sign_tree_head t ≡ ok b
      → t.time ≤ now
      → open_checkpoint now b ≡ ok t

-- `errors.Is(err, errFatal)`
unfoldable pub is_fatal : LogError → Bool
is_fatal time_did_not_progress = true
is_fatal checkpoint_not_replaced = true
is_fatal tile_not_uploaded = true
is_fatal e = false

-- What `hashTreeHead` returns.
abbrev pub tree_head : ℕ → Bytes → ℕ → TreeWithTimestamp
tree_head n hash time = record { tree = record { n = n; hash = hash }; time = time }

-- "At this point the pool is fully serialized."
unfoldable pub commit_batch : ℕ → TreeWithTimestamp → Bytes → Batch → State → State
unfolding insert pool_at
commit_batch id head new_lock b s =
    let p = pool_at s.log.pools id in
    let p' = record p { timestamp = head.time; first_leaf_index = s.log.tree.n } in
    record s {
      log = record s.log {
        tree = head;
        lock_checkpoint = new_lock;
        edge_tiles = b.edge_tiles;
        pools = insert id p' s.log.pools;
      };
    }

-- The deferred function of `sequencePool`, on a pool.
abbrev pub close_pool : Option LogError → Pool → Pool
close_pool none p = record p { done = true }
close_pool (some e) p = record p { error = some e; done = true }

unfoldable pub close_pool_at : ℕ → Option LogError → State → State
unfolding insert pool_at
close_pool_at id e s =
    let p = close_pool e (pool_at s.log.pools id) in
    record s { log = record s.log { pools = insert id p s.log.pools } }

unfoldable pub finish :
    ℕ → Outcome LogError (Unit {0}) × State → Outcome LogError (Unit {0}) × State
unfolding close_pool_at is_fatal
finish id (ok _, s) = (ok tt, close_pool_at id none s)
finish id (err e, s) = (if is_fatal e then err e else ok tt, close_pool_at id (some e) s)
finish id (panic, s) = (panic, s)

module _ {Builder : Type 0} (cb : Cryptobyte Builder) (sha256 : Bytes → Bytes) (tlog : Tlog)
    (archive : Archive) (signer : CheckpointSigner) where
  -- A failure of `cachePut` is logged only.
  unfoldable pub record_entries : Batch → Act State (Unit {0})
  unfolding cache_put
  record_entries b =
      on_error (on_world (cache_put cb sha256 b.sequenced_leaves)) pure (λ _. pure tt)

  unfoldable pub upload_checkpoint : Batch → Bytes → Act State (Unit {0})
  unfolding record_entries upload
  upload_checkpoint b checkpoint =
      or_else checkpoint_not_uploaded (on_world (upload checkpoint_key checkpoint opts_checkpoint))
      >>= λ _. record_entries b

  unfoldable pub apply_batch : Batch → Bytes → Bytes → Act State (Unit {0})
  unfolding upload_checkpoint apply_staged_uploads
  apply_batch b staged checkpoint =
      or_else tile_not_uploaded (on_world (apply_staged_uploads archive staged)) >>= λ _.
      upload_checkpoint b checkpoint

  unfoldable pub commit_and_apply :
      ℕ → TreeWithTimestamp → Batch → Bytes → Bytes → Bytes → Act State (Unit {0})
  unfolding apply_batch commit_batch
  commit_and_apply id head b staged checkpoint new_lock s =
      apply_batch b staged checkpoint (commit_batch id head new_lock b s)

  -- From the replacement of the lock to the end of `sequencePool`.
  unfoldable pub publish : ℕ → TreeWithTimestamp → Batch → Bytes → Bytes → Act State (Unit {0})
  unfolding commit_and_apply lock_replace
  publish id head b staged checkpoint s =
      continue
        (or_else checkpoint_not_replaced (on_world (lock_replace s.log.lock_checkpoint checkpoint))
          s)
        (commit_and_apply id head b staged checkpoint)

  -- The checkpoint is signed, and replaces that of the lock.
  unfoldable pub sign_and_publish : ℕ → TreeWithTimestamp → Batch → Bytes → Act State (Unit {0})
  unfolding publish
  sign_and_publish id head b staged s =
      continue (renamed checkpoint_not_signed (signer.sign_tree_head head), s)
        (publish id head b staged)

  -- The bundle of the uploads is staged first.
  unfoldable pub upload_bundle : ℕ → TreeWithTimestamp → Batch → Bytes → Act State (Unit {0})
  unfolding sign_and_publish
  upload_bundle id head b staged =
      or_else staging_not_uploaded (on_world (upload (staging_path head.tree) staged opts_staging))
      >>= λ _. sign_and_publish id head b staged

  unfoldable pub stage_and_publish : ℕ → TreeWithTimestamp → Batch → Act State (Unit {0})
  unfolding upload_bundle marshal_staged_uploads
  stage_and_publish id head b s =
      continue (renamed staging_not_marshalled (marshal_staged_uploads archive b.tile_uploads), s)
        (upload_bundle id head b)

  -- The hash of the new tree, and what follows.
  unfoldable pub hash_and_publish : ℕ → Batch → Act State (Unit {0})
  unfolding stage_and_publish hash_reader
  hash_and_publish id b s =
      let reader = hash_reader tlog s.log.edge_tiles b.new_hashes in
      continue (renamed tree_head_not_computed (tlog.tree_hash b.n reader), s)
        (λ hash. stage_and_publish id (tree_head b.n hash s.world.now) b)

  -- The body of `sequencePool`, without its deferred functions. Its state has the time at which it
  -- began, which is the timestamp of all that it makes.
  unfoldable pub sequence_body : ℕ → Act State (Unit {0})
  unfolding hash_and_publish make_batch pool_at
  sequence_body id s =
      let leaves = (pool_at s.log.pools id).pending_leaves in
      let b = make_batch cb sha256 tlog s.log.edge_tiles s.log.tree.n s.world.now leaves in
      if leb s.world.now s.log.tree.time
      then (err time_did_not_progress, s)
      else continue (b, s) (hash_and_publish id)

  unfoldable pub sequence_pool : ℕ → Act State (Unit {0})
  unfolding sequence_body finish
  sequence_pool id s = finish id (sequence_body id s)

  -- The rotation at the start of `sequence`; a new pool gets the next number.
  unfoldable pub rotate : State → State
  unfolding insert pool_at
  rotate s =
      let id = s.log.current_pool in
      record s {
        log = record s.log {
          current_pool = id + 1;
          pools = insert (id + 1) new_pool s.log.pools;
          in_sequencing = (pool_at s.log.pools id).by_hash;
        };
      }

  -- `l.inSequencing = nil`
  abbrev pub end_sequencing :
      Outcome LogError (Unit {0}) × State → Outcome LogError (Unit {0}) × State
  end_sequencing (panic, s) = (panic, s)
  end_sequencing (r, s) = (r, record s { log = record s.log { in_sequencing = [] } })

  unfoldable pub sequence : Act State (Unit {0})
  unfolding sequence_pool rotate
  sequence s = end_sequencing (sequence_pool s.log.current_pool (rotate s))

  -- The loop of `RunSequencer`: before each tick other goroutines act on the state, and when no
  -- tick is left the context is done.
  unfoldable pub sequencer_loop : List (State → State) → Act State (Unit {0})
  unfolding sequence
  sequencer_loop [] s = (err stopped, s)
  sequencer_loop (others ∷ ticks) s = (sequence >>= λ _. sequencer_loop ticks) (others s)

  -- Its deferred function: the current pool is closed with the error.
  unfoldable pub stop_pool :
      Outcome LogError (Unit {0}) × State → Outcome LogError (Unit {0}) × State
  unfolding close_pool_at
  stop_pool (ok _, s) = (ok tt, close_pool_at s.log.current_pool none s)
  stop_pool (err e, s) = (err e, close_pool_at s.log.current_pool (some e) s)
  stop_pool (panic, s) = (panic, s)

  unfoldable pub run_sequencer : List (State → State) → Act State (Unit {0})
  unfolding sequencer_loop stop_pool
  run_sequencer ticks s = stop_pool (sequencer_loop ticks s)

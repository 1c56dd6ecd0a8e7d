-- ===== src/Ctlog/Creation.antt =====
-- The creation of a log (ctlog.go): `CreateLog`. The identifier of the log is that of its lock.
pub mod Existing
use sunlight.Prelude.{Outcome, ok, err, panic}
use sunlight.Errors.{
  LogError, cache_failed, tree_head_not_computed, checkpoint_not_signed, lock_failed,
  checkpoint_not_uploaded, log_exists, checkpoint_present,
}
use sunlight.Cryptobyte.Wire.{Bytes}
use sunlight.Ctlog.Action.{Act, continue, renamed, or_else, ◌>>=◌}
use sunlight.Ctlog.World.{World, call, upload, fetch, lock_fetch, lock_create}
use sunlight.Ctlog.Types.{Tlog, HashReader, TreeWithTimestamp}
use sunlight.Ctlog.Paths.{checkpoint_key}
use sunlight.Ctlog.Sequencer.{CheckpointSigner, tree_head, opts_checkpoint}

-- `if _, err := ...; err == nil { return e }`: what was fetched must not be there, and any error of
-- the fetch passes for that.
abbrev pub unless_fetched :
    Outcome LogError Bytes × World
    → LogError
    → Act World (Unit {0})
    → Outcome LogError (Unit {0}) × World
unless_fetched (ok _, w) e k = (err e, w)
unless_fetched (err _, w) e k = k w
unless_fetched (panic, w) e k = (panic, w)

-- The nil reader of hashes
abbrev pub nil_reader : HashReader
nil_reader ids = panic

module _ (tlog : Tlog) (signer : CheckpointSigner) where
  -- The end: the checkpoint of the empty tree is locked, and published.
  unfoldable pub lock_and_publish : Bytes → Act World (Unit {0})
  unfolding lock_create upload
  lock_and_publish checkpoint = or_else lock_failed (lock_create checkpoint) >>= λ _.
      or_else checkpoint_not_uploaded (upload checkpoint_key checkpoint opts_checkpoint)

  unfoldable pub sign_and_lock : TreeWithTimestamp → Act World (Unit {0})
  unfolding lock_and_publish
  sign_and_lock head w =
      continue (renamed checkpoint_not_signed (signer.sign_tree_head head), w) lock_and_publish

  -- From the empty tree on.
  unfoldable pub create_empty : Act World (Unit {0})
  unfolding sign_and_lock
  create_empty w =
      continue (renamed tree_head_not_computed (tlog.tree_hash 0 nil_reader), w)
        λ hash v. sign_and_lock (tree_head 0 hash w.now) v

  -- The cache database is opened and closed, which is a call that may fail.
  unfoldable pub open_cache_and_create : Act World (Unit {0})
  unfolding create_empty call
  open_cache_and_create = call (λ v. v) cache_failed >>= λ _. create_empty

  unfoldable pub create_unpublished : Act World (Unit {0})
  unfolding open_cache_and_create fetch
  create_unpublished w =
      unless_fetched (fetch checkpoint_key w) checkpoint_present open_cache_and_create

  -- `CreateLog`
  unfoldable pub create_log : Act World (Unit {0})
  unfolding create_unpublished lock_fetch
  create_log w = unless_fetched (lock_fetch w) log_exists create_unpublished

-- ===== src/Ctlog/Loading.antt =====
-- The loading of a log (ctlog.go): `LoadLog` and its `tileReader`.
pub mod Recovery
pub mod Crashes
pub mod DataTile
mod Tests
use sunlight.Prelude.{
  ℕ, zero, suc, ◌+◌, ◌-◌, ◌*◌, List, [], ◌∷◌, Bool, not, ◌&&◌, Option, none, some, Outcome, ok, err,
  panic, ltb, ◌==◌, if◌then◌else◌, ◌>>=◌,
}
use sunlight.Prelude.Int.{ℤ, pos}
use sunlight.Prelude.Maps.{Map, lookup, insert, int_eq, bytes_beq}
use sunlight.Errors.{
  LogError, lock_not_fetched, checkpoint_not_opened, published_not_fetched, published_not_opened,
  hash_mismatch, published_is_newer, staged_not_fetched, staged_not_applied, cache_failed,
  cache_not_opened, edge_not_fetched, data_tile_not_fetched, invalid_edge_data_tile,
  leaf_hash_not_extracted, leaf_hash_mismatch,
}
use sunlight.Cryptobyte.{Cryptobyte}
use sunlight.Cryptobyte.Wire.{Bytes}
use sunlight.Tile.{LogEntry, read_tile_leaf, merkle_tree_leaf}
use sunlight.Ctlog.Action.{Act, pure, continue, wrap, or_else, renamed, of_codec}
use sunlight.Ctlog.World.{World, call, fetch, lock_fetch}
use sunlight.Ctlog.Types.{Tlog, TlogTile, Tree, TreeWithTimestamp, TileWithBytes, Log, new_pool}
use sunlight.Ctlog.Paths.{tile_path, tile_width, staging_path, checkpoint_key}
use sunlight.Ctlog.Batch.{data_level, extend_edge, tile_or_none}
use sunlight.Ctlog.Staging.{Archive, apply_staged_uploads}
use sunlight.Ctlog.Sequencer.{CheckpointSigner}

module _ (tlog : Tlog) where
  -- `tileReader.ReadTiles`
  unfoldable pub read_tiles : List TlogTile → Act World (List Bytes)
  unfolding tile_path fetch
  read_tiles [] w = (ok [], w)
  read_tiles (t ∷ ts) w =
      let rest = read_tiles ts in
      continue (tile_path tlog t, w)
        λ key v. continue (fetch key v) λ b u. continue (rest u) λ bs. pure (b ∷ bs)

-- `saveTiles`; ReadTiles has given the bytes of each tile.
unfoldable pub save_tiles : List TlogTile → List Bytes → Map ℤ TileWithBytes → Map ℤ TileWithBytes
unfolding extend_edge
save_tiles (t ∷ ts) (b ∷ bs) edges = save_tiles ts bs (extend_edge t b edges)
save_tiles _ _ edges = edges

-- `edgeTiles[0]`, and the data tile beside it
unfoldable pub level0_of : Map ℤ TileWithBytes → TileWithBytes
unfolding lookup
level0_of edges = tile_or_none (lookup (pos 0) edges)

abbrev pub data_tile_at : Map ℤ TileWithBytes → TlogTile
data_tile_at edges = record (level0_of edges).tile { l = data_level }

module _ {Builder : Type 0} (cb : Cryptobyte Builder) (tlog : Tlog) where
  -- The loop that verifies the data tile: `rounds` entries from the index `i` on.
  unfoldable pub check_entries : TileWithBytes → ℕ → ℕ → Bytes → Outcome LogError (Unit {0})
  check_entries level0 zero i b = ok tt
  check_entries level0 (suc rounds) i b = do
    (e, rest) ← renamed invalid_edge_data_tile (of_codec (read_tile_leaf cb b))
    input ← of_codec (merkle_tree_leaf cb e)
    exp ←
        renamed leaf_hash_not_extracted
          (tlog.hash_from_tile level0.tile level0.b (tlog.stored_hash_index 0 i))
    let others = check_entries level0 rounds (i + 1) rest
    if bytes_beq (tlog.record_hash input) exp then others else err leaf_hash_mismatch

  -- The right-most data tile is fetched, and verified against the tile of level 0.
  unfoldable pub load_data_tile : Map ℤ TileWithBytes → Act World (Map ℤ TileWithBytes)
  unfolding check_entries tile_path fetch level0_of insert
  load_data_tile edges w =
      let tile = data_tile_at edges in
      continue (tile_path tlog tile, w)
        λ key v. continue (wrap data_tile_not_fetched (fetch key v)) λ b u.
          continue (check_entries (level0_of edges) tile.w (tile_width * tile.n) b, u)
            λ _. pure (insert data_level (record { tile = tile; b = b }) edges)

  -- The hash of the last leaf is read, for the tiles that this takes.
  abbrev pub edge_ids : Tree → List ℕ
  edge_ids tree = tlog.stored_hash_index 0 (tree.n - 1) ∷ []

  -- The tiles on the right edge of a tree.
  unfoldable pub load_edge : Tree → Act World (Map ℤ TileWithBytes)
  unfolding read_tiles save_tiles load_data_tile
  load_edge tree w =
      let tiles = tlog.edge_plan tree (edge_ids tree) in
      if tree.n == 0
      then (ok [], w)
      else (continue (wrap edge_not_fetched (read_tiles tlog tiles w)) λ bs v.
          continue (renamed edge_not_fetched (tlog.edge_check tree (edge_ids tree) tiles bs), v)
            λ _. load_data_tile (save_tiles tiles bs []))

module _ (archive : Archive) where
  -- The bundle of the tree of the lock is fetched, and applied.
  unfoldable pub apply_bundle : Tree → Act World (Unit {0})
  unfolding staging_path apply_staged_uploads fetch
  apply_bundle tree w =
      continue (wrap staged_not_fetched (fetch (staging_path tree) w))
        λ staged. or_else staged_not_applied (apply_staged_uploads archive staged)

  -- The switch that compares the published tree with that of the lock.
  unfoldable pub catch_up : Tree → Tree → Act World (Unit {0})
  unfolding apply_bundle
  catch_up published locked w =
      if (published.n == locked.n) && not (bytes_beq published.hash locked.hash)
      then (err hash_mismatch, w)
      else if ltb locked.n published.n
      then (err published_is_newer, w)
      else if ltb published.n locked.n
      then apply_bundle locked w
      else (ok tt, w)

module _ {Builder : Type 0} (cb : Cryptobyte Builder) (tlog : Tlog) (archive : Archive)
    (signer : CheckpointSigner) (pool_size : ℕ) where
  -- The log of a head that was loaded.
  abbrev pub loaded : TreeWithTimestamp → Bytes → Map ℤ TileWithBytes → Log
  loaded head lock edges = record {
    pool_size = pool_size;
    tree = head;
    lock_checkpoint = lock;
    edge_tiles = edges;
    pools = (0, new_pool) ∷ [];
    current_pool = 0;
    in_sequencing = [];
    issuers = [];
  }

  -- From the cache database on.
  unfoldable pub load_rest : TreeWithTimestamp → Bytes → Act World Log
  unfolding load_edge call
  load_rest head lock w =
      continue (wrap cache_not_opened (call (λ v. v) cache_failed w))
        λ _ v. continue (load_edge cb tlog head.tree v) λ edges. pure (loaded head lock edges)

  -- The published checkpoint, against that of the lock.
  unfoldable pub load_published : TreeWithTimestamp → Bytes → Act World Log
  unfolding load_rest catch_up fetch
  load_published head lock w =
      continue (wrap published_not_fetched (fetch checkpoint_key w)) λ sth v.
        continue (renamed published_not_opened (signer.open_checkpoint v.now sth), v)
          λ published u.
            continue (catch_up archive published.tree head.tree u) λ _. load_rest head lock

  -- `LoadLog`
  unfoldable pub load_log : Act World Log
  unfolding load_published lock_fetch
  load_log w = continue (wrap lock_not_fetched (lock_fetch w)) λ lock v.
      continue (renamed checkpoint_not_opened (signer.open_checkpoint v.now lock), v)
        λ head. load_published head lock

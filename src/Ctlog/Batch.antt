-- ===== src/Ctlog/Batch.antt =====
-- The first half of `sequencePool` (ctlog.go): the leaves of a pool become entries, data tiles and
-- tree tiles to upload. Nothing that outlives the call is changed here.
pub mod Entries
pub mod Contents
pub mod TreeTiles
use sunlight.Prelude.{
  ℕ, zero, suc, ◌+◌, ◌-◌, ◌/◌, ◌%◌, ◌<◌, List, [], ◌∷◌, ◌++◌, Option, none, some, Bool, true, false,
  not, ◌&&◌, ◌||◌, Outcome, ok, err, panic, ltb, ◌==◌, if◌then◌else◌, ◌>>=◌,
}
use sunlight.Prelude.Int.{ℤ, pos, negsuc}
use sunlight.Prelude.Maps.{Map, lookup, insert, nat_eq, int_eq, codes}
use sunlight.Errors.{LogError, hashes_not_computed, tile_not_generated, tlog_failed}
use sunlight.Cryptobyte.{Cryptobyte}
use sunlight.Cryptobyte.Wire.{Bytes}
use sunlight.Tile.{LogEntry, append_tile_leaf, merkle_tree_leaf}
use sunlight.Ctlog.Action.{of_codec, renamed}
use sunlight.Ctlog.World.{UploadOptions}
use sunlight.Ctlog.Types.{
  Hash, TlogTile, HashReader, Tlog, TileWithBytes, UploadAction, PendingLogEntry,
}
use sunlight.Ctlog.Paths.{tile_height, tile_width, tile_path}
use sunlight.Ctlog.Entries.{as_log_entry}

abbrev pub opts_hash_tile : UploadOptions
opts_hash_tile = record { content_type = []; compress = false; immutable = true }

abbrev pub opts_data_tile : UploadOptions
opts_data_tile = record { content_type = []; compress = true; immutable = true }

-- The level of data tiles, -1.
abbrev pub data_level : ℤ
data_level = negsuc 0

abbrev pub no_tile : TileWithBytes
no_tile = record { tile = record { h = 0; l = pos 0; n = 0; w = 0 }; b = [] }

abbrev pub tile_or_none : Option TileWithBytes → TileWithBytes
tile_or_none none = no_tile
tile_or_none (some t) = t

-- The local variables of `sequencePool`.
pub record Batch : Type 0 where
  pub n : ℕ
  pub data_tile : Bytes
  pub edge_tiles : Map ℤ TileWithBytes
  pub tile_uploads : List UploadAction
  pub new_hashes : Map ℕ Hash
  pub sequenced_leaves : List LogEntry

-- The current partial data tile, if any.
unfoldable pub partial_data_tile : Option TileWithBytes → Bytes
partial_data_tile none = []
partial_data_tile (some t) = if ltb t.tile.w tile_width then t.b else []

unfoldable pub start_batch : ℕ → Map ℤ TileWithBytes → Batch
unfolding partial_data_tile lookup
start_batch n edge_tiles = record {
  n = n;
  data_tile = partial_data_tile (lookup data_level edge_tiles);
  edge_tiles = edge_tiles;
  tile_uploads = [];
  new_hashes = [];
  sequenced_leaves = [];
}

-- `edgeTiles[tile.L]` is replaced by a tile that is further right, or wider.
abbrev pub is_further : Option TileWithBytes → TlogTile → Bool
is_further none tile = true
is_further (some t₀) tile = ltb t₀.tile.n tile.n || (t₀.tile.n == tile.n && ltb t₀.tile.w tile.w)

unfoldable pub extend_edge : TlogTile → Bytes → Map ℤ TileWithBytes → Map ℤ TileWithBytes
unfolding lookup insert
extend_edge tile b edge_tiles =
    if is_further (lookup tile.l edge_tiles) tile
    then insert tile.l (record { tile = tile; b = b }) edge_tiles
    else edge_tiles

-- `newHashes[id]` for the hashes from `id` on
unfoldable pub put_hashes : ℕ → List Hash → Map ℕ Hash → Map ℕ Hash
unfolding insert
put_hashes id [] m = m
put_hashes id (h ∷ hs) m = put_hashes (id + 1) hs (insert id h m)

module _ (tlog : Tlog) where
  -- `hashReader`, one index at a time.
  unfoldable pub read_hash : Map ℤ TileWithBytes → Map ℕ Hash → ℕ → Outcome LogError Hash
  unfolding lookup
  read_hash edge_tiles overlay id = elim (lookup id overlay) [
    | some h ↦ ok h
    | none ↦
        let t = tile_or_none (lookup (tlog.tile_for_index tile_height id).l edge_tiles) in
        tlog.hash_from_tile t.tile t.b id
  ]

  unfoldable pub hash_reader : Map ℤ TileWithBytes → Map ℕ Hash → HashReader
  unfolding read_hash
  hash_reader edge_tiles overlay [] = ok []
  hash_reader edge_tiles overlay (id ∷ ids) = do
    h ← read_hash edge_tiles overlay id
    hs ← hash_reader edge_tiles overlay ids
    ok (h ∷ hs)

  -- The data tile that holds the last of `n` leaves.
  unfoldable pub data_tile_of : ℕ → TlogTile
  data_tile_of n = record (tlog.tile_for_index tile_height (tlog.stored_hash_index 0 (n - 1))) {
    l = data_level;
  }

  -- The data tile becomes the edge, and is staged for upload.
  unfoldable pub stage_data_tile : Batch → Outcome LogError Batch
  unfolding data_tile_of tile_path insert
  stage_data_tile b = do
    let tile = data_tile_of b.n
    key ← tile_path tlog tile
    let action : UploadAction = record {
      key = key;
      content = b.data_tile;
      options = opts_data_tile;
    }
    ok (record b {
      edge_tiles = insert data_level (record { tile = tile; b = b.data_tile }) b.edge_tiles;
      tile_uploads = b.tile_uploads ++ action ∷ [];
    })

  -- A full data tile is staged, and the next one is begun.
  unfoldable pub flush_data_tile : Batch → Outcome LogError Batch
  unfolding stage_data_tile
  flush_data_tile b = do b' ← stage_data_tile b; ok (record b' { data_tile = [] })

  -- The leftover partial data tile, if any.
  unfoldable pub stage_partial : ℕ → Batch → Outcome LogError Batch
  unfolding stage_data_tile
  stage_partial old b =
      if not (b.n == old) && not (b.n % tile_width == 0) then stage_data_tile b else ok b

  unfoldable pub stage_tree_tiles : HashReader → List TlogTile → Batch → Outcome LogError Batch
  unfolding extend_edge tile_path
  stage_tree_tiles reader [] b = ok b
  stage_tree_tiles reader (tile ∷ tiles) b = do
    content ← renamed tile_not_generated (tlog.read_tile_data tile reader)
    key ← tile_path tlog tile
    let action : UploadAction = record { key = key; content = content; options = opts_hash_tile }
    stage_tree_tiles reader tiles (record b {
      edge_tiles = extend_edge tile content b.edge_tiles;
      tile_uploads = b.tile_uploads ++ action ∷ [];
    })

module _ {Builder : Type 0} (cb : Cryptobyte Builder) (sha256 : Bytes → Bytes) (tlog : Tlog) where
  -- One leaf of the pool; `edge` is `l.edgeTiles`, which the hash reader goes on reading.
  unfoldable pub sequence_leaf :
      Map ℤ TileWithBytes → ℕ → PendingLogEntry → Batch → Outcome LogError Batch
  unfolding as_log_entry hash_reader put_hashes
  sequence_leaf edge timestamp pending b = do
    let leaf = as_log_entry sha256 pending b.n timestamp
    data_tile ← of_codec (append_tile_leaf cb b.data_tile leaf)
    input ← of_codec (merkle_tree_leaf cb leaf)
    hashes ←
        renamed hashes_not_computed
          (tlog.stored_hashes b.n input (hash_reader tlog edge b.new_hashes))
    let b' = record b {
      n = b.n + 1;
      data_tile = data_tile;
      new_hashes = put_hashes (tlog.stored_hash_index 0 b.n) hashes b.new_hashes;
      sequenced_leaves = b.sequenced_leaves ++ leaf ∷ [];
    }
    if (b.n + 1) % tile_width == 0 then flush_data_tile tlog b' else ok b'

  unfoldable pub sequence_leaves :
      Map ℤ TileWithBytes → ℕ → List PendingLogEntry → Batch → Outcome LogError Batch
  unfolding sequence_leaf flush_data_tile
  sequence_leaves edge timestamp [] b = ok b
  sequence_leaves edge timestamp (p ∷ ps) b =
      sequence_leaf edge timestamp p b >>= sequence_leaves edge timestamp ps

  -- The whole first half, from the log's size and edge.
  unfoldable pub make_batch :
      Map ℤ TileWithBytes → ℕ → ℕ → List PendingLogEntry → Outcome LogError Batch
  unfolding start_batch sequence_leaves stage_partial stage_tree_tiles
  make_batch edge old timestamp leaves = do
    b ← sequence_leaves edge timestamp leaves (start_batch old edge)
    b ← stage_partial tlog old b
    stage_tree_tiles tlog (hash_reader tlog edge b.new_hashes) (tlog.new_tiles tile_height old b.n)
        b

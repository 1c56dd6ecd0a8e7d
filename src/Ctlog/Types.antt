-- ===== src/Ctlog/Types.antt =====
-- The state of a log (ctlog.go), and the packages that it is built on as parameters.
use sunlight.Prelude.{ℕ, ◌+◌, ◌/◌, ◌%◌, ◌≡◌, List, [], Option, none, Bool, false, Outcome}
use sunlight.Prelude.Int.{ℤ, pos}
use sunlight.Prelude.Maps.{Map}
use sunlight.Errors.{LogError}
use sunlight.Cryptobyte.Wire.{Bytes}
use sunlight.Tile.{LogEntry}
use sunlight.Ctlog.World.{UploadOptions}

abbrev pub Hash : Type 0
Hash = Bytes

-- `tlog.Tile`: the tile at level `l`, `n` from the left, `w` hashes wide, of height `h`.
pub record TlogTile : Type 0 where
  pub h : ℕ
  pub l : ℤ
  pub n : ℕ
  pub w : ℕ

-- `tlog.HashReader`: the hashes at the given storage indexes.
abbrev pub HashReader : Type 0
HashReader = List ℕ → Outcome LogError (List Hash)

-- `tlog.Tree`, and `treeWithTimestamp`; sizes and times of a log are never negative
pub record Tree : Type 0 where
  pub n : ℕ
  pub hash : Hash

-- What the code uses of golang.org/x/mod/sumdb/tlog. The law is the documentation of
-- `TileForIndex`: the tile of least width that stores the hash of a leaf.
pub record Tlog : Type 0 where
  pub stored_hash_index : ℕ → ℕ → ℕ
  pub stored_hashes : ℕ → Bytes → HashReader → Outcome LogError (List Hash)
  pub tile_for_index : ℕ → ℕ → TlogTile
  pub new_tiles : ℕ → ℕ → ℕ → List TlogTile
  pub read_tile_data : TlogTile → HashReader → Outcome LogError Bytes
  pub hash_from_tile : TlogTile → Bytes → ℕ → Outcome LogError Hash
  pub tree_hash : ℕ → HashReader → Outcome LogError Hash
  -- `TileHashReader`, whose `ReadHashes` reads the tiles of its plan, authenticates them against
  -- the tree, and saves them.
  pub edge_plan : Tree → List ℕ → List TlogTile
  pub edge_check : Tree → List ℕ → List TlogTile → List Bytes → Outcome LogError (List Hash)
  pub record_hash : Bytes → Hash
  pub path : TlogTile → Bytes
  pub tile_for_index-stored_hash_index :
      (n : ℕ)
      → tile_for_index 8 (stored_hash_index 0 n)
        ≡ record { h = 8; l = pos 0; n = n / 256; w = n % 256 + 1 }

pub record TreeWithTimestamp : Type 0 where
  pub tree : Tree
  pub open tree use *
  pub time : ℕ

pub record TileWithBytes : Type 0 where
  pub tile : TlogTile
  pub b : Bytes

pub record UploadAction : Type 0 where
  pub key : Bytes
  pub content : Bytes
  pub options : UploadOptions

pub record PendingLogEntry : Type 0 where
  pub certificate : Bytes
  pub is_precert : Bool
  pub issuer_key_hash : Bytes
  pub issuers : List Bytes
  pub pre_certificate : Bytes

-- A `waitEntryFunc`, by what its closure holds: a known answer, or the position of a leaf in the
-- pool of that number.
pub data WaitEntry : Type 0 where
  fails : LogError → WaitEntry
  cached : LogEntry → WaitEntry
  waits : ℕ → ℕ → PendingLogEntry → WaitEntry

-- `done` is whether the channel is closed.
pub record Pool : Type 0 where
  pub pending_leaves : List PendingLogEntry
  pub by_hash : Map Bytes WaitEntry
  pub done : Bool
  pub error : Option LogError
  pub first_leaf_index : ℕ
  pub timestamp : ℕ

-- `newPool`
abbrev pub new_pool : Pool
new_pool = record {
  pending_leaves = [];
  by_hash = [];
  done = false;
  error = none;
  first_leaf_index = 0;
  timestamp = 0;
}

-- `Log`, with the pool size of its configuration. A pool is shared by the log and by the functions
-- that wait for it, so pools live in a store: `current_pool` is the one under that number.
pub record Log : Type 0 where
  pub pool_size : ℕ
  pub tree : TreeWithTimestamp
  pub lock_checkpoint : Bytes
  pub edge_tiles : Map ℤ TileWithBytes
  pub pools : Map ℕ Pool
  pub current_pool : ℕ
  pub in_sequencing : Map Bytes WaitEntry
  pub issuers : Map Bytes Bool

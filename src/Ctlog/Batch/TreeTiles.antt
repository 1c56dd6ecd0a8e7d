-- ===== src/Ctlog/Batch/TreeTiles.antt =====
-- The tiles of the new tree that a batch uploads (ctlog.go, `sequencePool`).
use sunlight.Prelude.{◌≡◌, List, All, ok}
use mathlib.Core.List.{Memᴰ}
use mathlib.Core.List.Memᴰ
use sunlight.Cryptobyte.{Cryptobyte}
use sunlight.Cryptobyte.Wire.{Bytes}
use sunlight.Ctlog.Types.{Tlog, TlogTile, HashReader, UploadAction}
use sunlight.Ctlog.Paths.{tile_path}
use sunlight.Ctlog.Batch.{Batch, opts_hash_tile}

module _ (tlog : Tlog) where
  -- The tile is uploaded: its hashes, as read by `reader`, under its path.
  pub record IsUploaded (reader : HashReader) (uploads : List UploadAction) (tile : TlogTile)
      : Type 0 where
    pub content : Bytes
    pub key : Bytes
    pub generated : tlog.read_tile_data tile reader ≡ ok content
    pub path : tile_path tlog tile ≡ ok key
    pub uploaded : Memᴰ (record { key = key; content = content; options = opts_hash_tile }) uploads

  -- What the loop over the tiles keeps, and what it adds
  record Staged (reader : HashReader) (tiles : List TlogTile) (b b' : Batch) : Type 0 where
    size : b'.n ≡ b.n
    hashes : b'.new_hashes ≡ b.new_hashes
    kept : (u : UploadAction) → Memᴰ u b.tile_uploads → Memᴰ u b'.tile_uploads
    all : All (IsUploaded reader b'.tile_uploads) tiles

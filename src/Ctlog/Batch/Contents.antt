-- ===== src/Ctlog/Batch/Contents.antt =====
-- The bytes of the data tiles that the first half of `sequencePool` (ctlog.go) stages.
use sunlight.Prelude.{◌%◌, ◌≡◌, List, [], ◌∷◌, ◌++◌}
use sunlight.Prelude.Maps.{int_eq}
use sunlight.Cryptobyte.{Cryptobyte}
use sunlight.Cryptobyte.Wire.{Bytes}
use sunlight.Tile.{LogEntry}
use sunlight.Tile.Layout.{leaf_bytes}
use sunlight.Ctlog.Types.{UploadAction}
use sunlight.Ctlog.Paths.{tile_width}
use sunlight.Ctlog.Batch.{Batch}

-- What uploads hold, one after the other.
abbrev pub contents : List UploadAction → Bytes
contents [] = []
contents (u ∷ us) = u.content ++ contents us

-- The bytes of entries in data tiles.
abbrev pub entries_bytes : List LogEntry → Bytes
entries_bytes [] = []
entries_bytes (e ∷ es) = leaf_bytes e ++ entries_bytes es

-- All that was staged, and the data tile that is being filled.
abbrev data_of : Batch → Bytes
data_of b = contents b.tile_uploads ++ b.data_tile

-- A data tile that would be full has been flushed.
abbrev IsAligned : Batch → Type 0
IsAligned b = b.n % tile_width ≡ 0 → b.data_tile ≡ []

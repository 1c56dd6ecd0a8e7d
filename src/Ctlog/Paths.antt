-- ===== src/Ctlog/Paths.antt =====
-- The keys of the objects that the log stores: tiles (tile.go), issuers and staging bundles.
use sunlight.Prelude.{
  ℕ, zero, suc, ◌+◌, ◌/◌, ◌%◌, [], ◌∷◌, ◌++◌, Option, none, some, Outcome, ok, panic, ltb, ◌==◌,
  if◌then◌else◌,
}
use sunlight.Prelude.Maps.{codes}
use sunlight.Errors.{LogError}
use sunlight.Cryptobyte.Wire.{Bytes}
use sunlight.Ctlog.Types.{Tlog, TlogTile, Tree}

-- `TileHeight` and `TileWidth`
abbrev pub tile_height : ℕ
tile_height = 8

abbrev pub tile_width : ℕ
tile_width = 256

-- `strings.TrimPrefix`
unfoldable pub cut_prefix : Bytes → Bytes → Option Bytes
cut_prefix [] s = some s
cut_prefix (x ∷ p) [] = none
cut_prefix (x ∷ p) (y ∷ s) = let rest = cut_prefix p s in if x == y then rest else none

abbrev trimmed : Bytes → Option Bytes → Bytes
trimmed s none = s
trimmed s (some r) = r

unfoldable pub trim_prefix : Bytes → Bytes → Bytes
unfolding cut_prefix
trim_prefix s p = trimmed s (cut_prefix p s)

-- `TilePath`
unfoldable pub tile_path : Tlog → TlogTile → Outcome LogError Bytes
unfolding trim_prefix
tile_path tlog t =
    if t.h == tile_height
    then ok (codes "tile/" ++ trim_prefix (tlog.path t) (codes "tile/8/"))
    else panic

-- `%x` of a byte string
abbrev pub hex_digit : ℕ → ℕ
hex_digit d = if ltb d 10 then d + 48 else d + 87

unfoldable pub hex : Bytes → Bytes
hex [] = []
hex (x ∷ s) = hex_digit (x / 16) ∷ hex_digit (x % 16) ∷ hex s

unfoldable pub issuer_path : Bytes → Bytes
unfolding hex
issuer_path fingerprint = codes "issuer/" ++ hex fingerprint

-- `%03d` of a number below 1000
abbrev pub pad3 : ℕ → Bytes
pad3 n = (n / 100 % 10 + 48) ∷ (n / 10 % 10 + 48) ∷ (n % 10 + 48) ∷ []

-- The loop of `stagingPath`, with fuel for its rounds: each divides the size by 1000.
unfoldable pub size_chunks : ℕ → ℕ → Bytes → Bytes
size_chunks zero n s = s
size_chunks (suc fuel) n s =
    let m = n / 1000 in
    let rest = size_chunks fuel m (codes "x" ++ (pad3 (m % 1000) ++ (codes "/" ++ s))) in
    if ltb n 1000 then s else rest

unfoldable pub staging_path : Tree → Bytes
unfolding size_chunks hex
staging_path tree =
    codes "staging/"
    ++ (size_chunks tree.n tree.n (pad3 (tree.n % 1000)) ++ (codes "/" ++ hex tree.hash))

abbrev pub checkpoint_key : Bytes
checkpoint_key = codes "checkpoint"

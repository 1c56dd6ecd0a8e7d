-- ===== src/Tile/Tests.antt =====
-- Entries of data tiles (tile.go) on concrete input.
use sunlight.Prelude.{◌≡◌, refl, [], ◌∷◌, ◌++◌, ok, arith, true, replicate}
use sunlight.Prelude.Int.{pos}
use sunlight.Cryptobyte.Wire.{Bytes, be}
use sunlight.Cryptobyte.Plain.{plain, All-IsByte}
use sunlight.Tile.{LogEntry, append_tile_leaf, merkle_tree_leaf, read_tile_leaf}
use sunlight.Tile.Layout.{leaf_bytes, merkle_bytes, append_tile_leaf_eq, merkle_tree_leaf_eq}
use sunlight.Tile.RoundTrip.{IsEntry, normal, read-leaf_bytes_entry, read-append_tile_leaf}
use sunlight.Tile.Canonical.{append-read_tile_leaf}

-- A precertificate, with an issuer.
abbrev precert : LogEntry
precert = record {
  certificate = 1 ∷ 2 ∷ 3 ∷ [];
  is_precert = true;
  issuer_key_hash = replicate 32 7;
  chain_fingerprints = replicate 32 9 ∷ [];
  pre_certificate = 4 ∷ 5 ∷ [];
  leaf_index = pos 300;
  timestamp = pos 1000;
}

precert-IsEntry : IsEntry precert
precert-IsEntry = record {
  time = 1000;
  timestamp = refl;
  time_fits = omega arith;
  hash = refl;
  fingerprints = (refl, tt);
}

append_tile_leaf_eq_example : append_tile_leaf plain (8 ∷ []) precert ≡ ok (8 ∷ leaf_bytes precert)
append_tile_leaf_eq_example = append_tile_leaf_eq plain (8 ∷ []) precert

merkle_tree_leaf_eq_example : merkle_tree_leaf plain precert ≡ ok (merkle_bytes precert)
merkle_tree_leaf_eq_example = merkle_tree_leaf_eq plain precert

read-append_tile_leaf_example :
    (p : Bytes) × (8 ∷ leaf_bytes precert ≡ 8 ∷ p)
    × (read_tile_leaf plain (p ++ 6 ∷ []) ≡ ok (normal precert, 6 ∷ []))
read-append_tile_leaf_example =
    read-append_tile_leaf plain (8 ∷ []) (6 ∷ []) (8 ∷ leaf_bytes precert) precert precert-IsEntry
      (append_tile_leaf_eq plain (8 ∷ []) precert)

append-read_tile_leaf_example :
    IsEntry precert
    × (normal precert ≡ precert)
    × (p : Bytes) × (append_tile_leaf plain (8 ∷ []) precert ≡ ok (8 ∷ p))
    × (leaf_bytes precert ++ 6 ∷ [] ≡ p ++ 6 ∷ [])
unfolding be
append-read_tile_leaf_example =
    append-read_tile_leaf plain (8 ∷ []) (leaf_bytes precert ++ 6 ∷ []) (6 ∷ []) precert
      (All-IsByte (leaf_bytes precert ++ 6 ∷ []) refl)
      (read-leaf_bytes_entry plain (6 ∷ []) precert precert-IsEntry refl)

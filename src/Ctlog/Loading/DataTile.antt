-- ===== src/Ctlog/Loading/DataTile.antt =====
-- The verification of the right-most data tile (ctlog.go, `LoadLog`): what the tile is seen to hold.
use sunlight.Prelude.{
  ℕ, zero, suc, ◌+◌, ◌≡◌, sym, ◌∙◌, ap, inl, inr, [], ◌++◌, ok, >>=-eq-ok, if-eq-ok, All,
  All-append_right,
}
use sunlight.Prelude.Maps.{bytes_beq, bytes_beq_iff}
use sunlight.Errors.{invalid_edge_data_tile, leaf_hash_not_extracted}
use sunlight.Cryptobyte.{Cryptobyte}
use sunlight.Cryptobyte.Wire.{Bytes, IsByte}
use sunlight.Tile.{LogEntry, append_tile_leaf, read_tile_leaf, merkle_tree_leaf}
use sunlight.Tile.Canonical.{append-read_tile_leaf}
use sunlight.Ctlog.Action.{of_codec, of_codec-eq-ok, renamed}
use sunlight.Ctlog.Types.{Tlog, TileWithBytes}
use sunlight.Ctlog.Batch.Entries.{renamed-eq-ok}
use sunlight.Ctlog.Loading.{check_entries}

module _ {Builder : Type 0} (cb : Cryptobyte Builder) (tlog : Tlog) where
  -- The bytes begin with so many entries, from an index on, each as `AppendTileLeaf` writes it, and the
  -- tile of level 0 has the hash of the leaf of each at its index.
  abbrev pub HoldsEntries : TileWithBytes → ℕ → ℕ → Bytes → Type 0
  HoldsEntries level0 zero i b = Unit {0}
  HoldsEntries level0 (suc rounds) i b =
      (e : LogEntry) × (p : Bytes) × (rest : Bytes) × (input : Bytes) × (append_tile_leaf cb [] e
        ≡ ok p)
      × (b ≡ p ++ rest)
      × (merkle_tree_leaf cb e ≡ ok input)
      × (tlog.hash_from_tile level0.tile level0.b (tlog.stored_hash_index 0 i)
          ≡ ok (tlog.record_hash input))
      × HoldsEntries level0 rounds (i + 1) rest

  -- A data tile passes the verification only if it holds the entries of the tree: their number of
  -- leaves, each with the hash that the tile of level 0, which is verified against the tree, has at its
  -- index, and in the one form that they have in a data tile.
  pub check_entries-HoldsEntries :
      (level0 : TileWithBytes) (rounds i : ℕ) (b : Bytes) {x : Unit {0}}
      → All IsByte b
      → check_entries cb tlog level0 rounds i b ≡ ok x
      → HoldsEntries level0 rounds i b
  unfolding check_entries
  check_entries-HoldsEntries level0 zero i b bytes h = tt
  check_entries-HoldsEntries level0 (suc rounds) i b bytes h =
      let ((e, rest), read, h₁) =
        >>=-eq-ok (renamed invalid_edge_data_tile (of_codec (read_tile_leaf cb b))) _ h in
      let (input, leaf, h₂) = >>=-eq-ok (of_codec (merkle_tree_leaf cb e)) _ h₁ in
      let (exp, extracted, h₃) =
        >>=-eq-ok
          (renamed leaf_hash_not_extracted
            (tlog.hash_from_tile level0.tile level0.b (tlog.stored_hash_index 0 i)))
          _ h₂ in
      let (_, _, p, written, b_is) =
        append-read_tile_leaf cb [] b rest e bytes (of_codec-eq-ok _ (renamed-eq-ok _ _ read)) in
      elim (if-eq-ok (bytes_beq (tlog.record_hash input) exp) _ _ h₃) [
        | inl (same, others) ↦ (
          e,
          p,
          rest,
          input,
          written,
          b_is,
          of_codec-eq-ok _ leaf,
          renamed-eq-ok _ _ extracted
              ∙ ap ok (sym ((bytes_beq_iff (tlog.record_hash input) exp).0 same)),
          check_entries-HoldsEntries level0 rounds (i + 1) rest
              (All-append_right IsByte p rest (rw (b_is) at bytes)) others,
        )
        | inr (_, failed) ↦ absurd (cc failed)
      ]

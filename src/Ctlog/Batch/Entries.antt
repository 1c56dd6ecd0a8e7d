-- ===== src/Ctlog/Batch/Entries.antt =====
-- What the first half of `sequencePool` (ctlog.go) makes of the leaves of a pool: their entries, the
-- size of the new tree, and the keys of the tiles.
use sunlight.Prelude.{
  ℕ, ◌+◌, ◌%◌, ◌≡◌, refl, sym, ◌∙◌, List, [], ◌∷◌, ◌++◌, not, ◌&&◌, Outcome, ok, err, panic, length,
  All, All-append, append-nil, append_assoc, if-eq-ok_left, arith, inl, inr, ◌==◌, >>=-eq-ok,
  ok-injective, if-eq-ok,
}
use sunlight.Prelude.Int.{ℤ}
use sunlight.Prelude.Maps.{Map, codes}
use sunlight.Errors.{LogError, hashes_not_computed, tile_not_generated}
use sunlight.Cryptobyte.{Cryptobyte}
use sunlight.Cryptobyte.Wire.{Bytes}
use sunlight.Tile.{LogEntry, append_tile_leaf, merkle_tree_leaf}
use sunlight.Ctlog.Action.{of_codec, renamed}
use sunlight.Ctlog.Types.{Tlog, TlogTile, HashReader, TileWithBytes, UploadAction, PendingLogEntry}
use sunlight.Ctlog.Paths.{tile_path, tile_width, tile_height}
use sunlight.Ctlog.Entries.{as_log_entry}
use sunlight.Ctlog.Batch.{
  Batch, start_batch, stage_data_tile, flush_data_tile, stage_partial, stage_tree_tiles,
  sequence_leaf, sequence_leaves, make_batch, hash_reader, data_tile_of,
}

-- The entries of leaves from an index on, at one timestamp.
unfoldable pub entries_from : (Bytes → Bytes) → ℕ → ℕ → List PendingLogEntry → List LogEntry
entries_from sha256 n timestamp [] = []
entries_from sha256 n timestamp (p ∷ ps) =
    as_log_entry sha256 p n timestamp ∷ entries_from sha256 (n + 1) timestamp ps

abbrev pub IsTileKey : Bytes → Type 0
IsTileKey k = (r : Bytes) × (k ≡ codes "tile/" ++ r)

abbrev pub IsTileUpload : UploadAction → Type 0
IsTileUpload u = IsTileKey u.key

-- A batch after the leaves `ps` were added to another.
pub record Extends (sha256 : Bytes → Bytes) (timestamp : ℕ) (ps : List PendingLogEntry)
    (b b' : Batch) : Type 0 where
  pub size : b'.n ≡ b.n + length ps
  pub entries : b'.sequenced_leaves ≡ b.sequenced_leaves ++ entries_from sha256 b.n timestamp ps
  pub keys : All IsTileUpload b.tile_uploads → All IsTileUpload b'.tile_uploads

module _ {sha256 : Bytes → Bytes} {timestamp : ℕ} where
  -- A step that stages uploads, under keys of tiles.
  Extends-staged :
      {b b' : Batch}
      → b'.n ≡ b.n
      → b'.sequenced_leaves ≡ b.sequenced_leaves
      → (All IsTileUpload b.tile_uploads → All IsTileUpload b'.tile_uploads)
      → Extends sha256 timestamp [] b b'
  unfolding entries_from
  Extends-staged n leaves keys = record {
    size = n ∙ omega arith;
    entries = leaves ∙ sym (append-nil _);
    keys = keys;
  }

  Extends-done :
      {ps : List PendingLogEntry} {b b' b'' : Batch}
      → Extends sha256 timestamp ps b b'
      → Extends sha256 timestamp [] b' b''
      → Extends sha256 timestamp ps b b''
  unfolding entries_from
  Extends-done e f = record {
    size = ground (arith, e.size, f.size);
    entries = f.entries ∙ (append-nil _ ∙ e.entries);
    keys = λ h. f.keys (e.keys h);
  }

  Extends-leaf :
      {p : PendingLogEntry} {ps : List PendingLogEntry} {b b' b'' : Batch}
      → Extends sha256 timestamp (p ∷ []) b b'
      → Extends sha256 timestamp ps b' b''
      → Extends sha256 timestamp (p ∷ ps) b b''
  unfolding entries_from
  Extends-leaf {p} {ps} {b} {b'} e f = record {
    size = ground (arith, e.size, f.size);
    entries = rw (f.entries, e.entries, e.size) (append_assoc b.sequenced_leaves _ _);
    keys = λ h. f.keys (e.keys h);
  }

snoc :
    (us : List UploadAction) (u : UploadAction)
    → IsTileUpload u
    → All IsTileUpload us
    → All IsTileUpload (us ++ u ∷ [])
snoc us u k h = All-append IsTileUpload us (u ∷ []) h (k, tt)

pub renamed-eq-ok :
    {A : Type 0} (e : LogError) (r : Outcome LogError A) {a : A} → renamed e r ≡ ok a → r ≡ ok a
renamed-eq-ok e (ok a) h = h
renamed-eq-ok e (err e') h = absurd (cc h)
renamed-eq-ok e panic h = absurd (cc h)

module _ (tlog : Tlog) where
  tile_path-IsTileKey : (t : TlogTile) (k : Bytes) → tile_path tlog t ≡ ok k → IsTileKey k
  unfolding tile_path
  tile_path-IsTileKey t k h = (_, (if-eq-ok_left (t.h == tile_height) _ h).1)

  module _ (sha256 : Bytes → Bytes) (timestamp : ℕ) where
    stage_data_tile-Extends :
        (b b' : Batch) → stage_data_tile tlog b ≡ ok b' → Extends sha256 timestamp [] b b'
    unfolding stage_data_tile
    stage_data_tile-Extends b b' h =
        let (key, path, shape) = >>=-eq-ok (tile_path tlog (data_tile_of tlog b.n)) _ h in
        rw (← ok-injective _ b' shape)
          (Extends-staged refl refl (snoc b.tile_uploads _ (tile_path-IsTileKey _ key path)))

    flush_data_tile-Extends :
        (b b' : Batch) → flush_data_tile tlog b ≡ ok b' → Extends sha256 timestamp [] b b'
    unfolding flush_data_tile
    flush_data_tile-Extends b b' h =
        let (b₁, stage, shape) = >>=-eq-ok (stage_data_tile tlog b) _ h in
        let e = stage_data_tile-Extends b b₁ stage in
        rw (← ok-injective _ b' shape)
          (record { size = e.size; entries = e.entries; keys = e.keys })

    stage_partial-Extends :
        (old : ℕ) (b b' : Batch)
        → stage_partial tlog old b ≡ ok b'
        → Extends sha256 timestamp [] b b'
    unfolding stage_partial
    stage_partial-Extends old b b' h =
        elim (if-eq-ok (not (b.n == old) && not (b.n % tile_width == 0)) _ _ h) [
          | inl (_, k) ↦ stage_data_tile-Extends b b' k
          | inr (_, k) ↦ rw (← ok-injective b b' k) (Extends-staged refl refl (λ x. x))
        ]

    stage_tree_tiles-Extends :
        (reader : HashReader) (tiles : List TlogTile) (b b' : Batch)
        → stage_tree_tiles tlog reader tiles b ≡ ok b'
        → Extends sha256 timestamp [] b b'
    unfolding stage_tree_tiles
    stage_tree_tiles-Extends reader [] b b' h =
        rw (← ok-injective b b' h) (Extends-staged refl refl (λ x. x))
    stage_tree_tiles-Extends reader (t ∷ ts) b b' h =
        let (content, _, h') =
          >>=-eq-ok (renamed tile_not_generated (tlog.read_tile_data t reader)) _ h in
        let (key, path, rest) = >>=-eq-ok (tile_path tlog t) _ h' in
        Extends-done
          (Extends-staged refl refl (snoc b.tile_uploads _ (tile_path-IsTileKey t key path)))
          (stage_tree_tiles-Extends reader ts _ b' rest)

module _ {Builder : Type 0} (cb : Cryptobyte Builder) (sha256 : Bytes → Bytes) (tlog : Tlog)
    (edge : Map ℤ TileWithBytes) (timestamp : ℕ) where
  pub sequence_leaf-Extends :
      (p : PendingLogEntry) (b b' : Batch)
      → sequence_leaf cb sha256 tlog edge timestamp p b ≡ ok b'
      → Extends sha256 timestamp (p ∷ []) b b'
  unfolding sequence_leaf entries_from
  sequence_leaf-Extends p b b' h =
      let leaf = as_log_entry sha256 p b.n timestamp in
      let (tile, _, h₁) = >>=-eq-ok (of_codec (append_tile_leaf cb b.data_tile leaf)) _ h in
      let (input, _, h₂) = >>=-eq-ok (of_codec (merkle_tree_leaf cb leaf)) _ h₁ in
      let (hashes, _, h₃) =
        >>=-eq-ok
          (renamed hashes_not_computed
            (tlog.stored_hashes b.n input (hash_reader tlog edge b.new_hashes)))
          _ h₂ in
      let added : (b₁ : Batch)
          → b₁.n ≡ b.n + 1
          → b₁.sequenced_leaves ≡ b.sequenced_leaves ++ leaf ∷ []
          → b₁.tile_uploads ≡ b.tile_uploads
          → Extends sha256 timestamp (p ∷ []) b b₁ =
        λ b₁ n leaves uploads. record { size = n; entries = leaves; keys = λ k. rw (uploads) k } in
      elim (if-eq-ok ((b.n + 1) % tile_width == 0) _ _ h₃) [
        | inl (_, k) ↦
            Extends-done (added _ refl refl refl)
              (flush_data_tile-Extends tlog sha256 timestamp _ b' k)
        | inr (_, k) ↦ rw (← ok-injective _ b' k) (added _ refl refl refl)
      ]

  pub sequence_leaves-Extends :
      (ps : List PendingLogEntry) (b b' : Batch)
      → sequence_leaves cb sha256 tlog edge timestamp ps b ≡ ok b'
      → Extends sha256 timestamp ps b b'
  unfolding sequence_leaves
  sequence_leaves-Extends [] b b' h = rw (← ok-injective b b' h) (Extends-staged refl refl (λ x. x))
  sequence_leaves-Extends (p ∷ ps) b b' h =
      let (b₁, first, rest) = >>=-eq-ok (sequence_leaf cb sha256 tlog edge timestamp p b) _ h in
      Extends-leaf (sequence_leaf-Extends p b b₁ first) (sequence_leaves-Extends ps b₁ b' rest)

  make_batch-Extends :
      (old : ℕ) (ps : List PendingLogEntry) (b : Batch)
      → make_batch cb sha256 tlog edge old timestamp ps ≡ ok b
      → Extends sha256 timestamp ps (start_batch old edge) b
  unfolding make_batch
  make_batch-Extends old ps b h =
      let (b₁, leaves, h₁) =
        >>=-eq-ok (sequence_leaves cb sha256 tlog edge timestamp ps (start_batch old edge)) _ h in
      let (b₂, part, h₂) = >>=-eq-ok (stage_partial tlog old b₁) _ h₁ in
      Extends-done (sequence_leaves-Extends ps _ b₁ leaves) (
        Extends-done (stage_partial-Extends tlog sha256 timestamp old b₁ b₂ part)
          (stage_tree_tiles-Extends tlog sha256 timestamp _ _ b₂ b h₂))

  pub make_batch_entries :
      (old : ℕ) (ps : List PendingLogEntry) (b : Batch)
      → make_batch cb sha256 tlog edge old timestamp ps ≡ ok b
      → (b.sequenced_leaves ≡ entries_from sha256 old timestamp ps)
        × (b.n ≡ old + length ps)
        × All IsTileUpload b.tile_uploads
  unfolding start_batch
  make_batch_entries old ps b h =
      let e = make_batch-Extends old ps b h in (e.entries, e.size, e.keys tt)

-- ===== src/Tile.antt =====
-- tile.go: the entries of a data tile, and the Merkle tree leaf of an entry.
pub mod Layout
pub mod RoundTrip
pub mod Splits
pub mod Canonical
mod Tests
use sunlight.Prelude.{
  ℕ, zero, suc, ◌-◌, ◌^◌, Option, none, some, List, [], ◌∷◌, ◌++◌, Bool, true, false, not, ◌&&◌,
  length, replicate, Outcome, ok, err, panic, or_err, ◌>>=◌, ltb, ◌==◌, if◌then◌else◌,
}
use sunlight.Prelude.Int.{ℤ, pos, to_uint64}
use sunlight.Errors.{
  CodecError, invalid_data_tile, invalid_x509_entry, invalid_precert_entry, invalid_extensions,
  invalid_fingerprints, unknown_type,
}
use sunlight.Cryptobyte.{Cryptobyte}
use sunlight.Cryptobyte.Wire.{Bytes}
use sunlight.Extensions.{is_empty, marshal_extensions, read_uint40}

-- An array `[32]byte` is a list of 32 bytes.
pub record LogEntry : Type 0 where
  pub certificate : Bytes
  pub is_precert : Bool
  pub issuer_key_hash : Bytes
  pub chain_fingerprints : List Bytes
  pub pre_certificate : Bytes
  pub leaf_index : ℤ
  pub timestamp : ℤ

-- `math.MaxInt64`
abbrev pub max_int64 : ℕ
max_int64 = 2 ^ 63 - 1

-- `&LogEntry{}`
abbrev pub empty_entry : LogEntry
empty_entry = record {
  certificate = [];
  is_precert = false;
  issuer_key_hash = replicate 32 0;
  chain_fingerprints = [];
  pre_certificate = [];
  leaf_index = pos 0;
  timestamp = pos 0;
}

-- What the switch of `read_tile_leaf` has read: the entry, the two strings, and what is left.
pub record Parts : Type 0 where
  pub entry : LogEntry
  pub extensions : Bytes
  pub fingerprints : Bytes
  pub left : Bytes

module _ {Builder : Type 0} (cb : Cryptobyte Builder) where
  open cb use {
    new_builder, add_uint8, add_uint16, add_uint64, add_bytes, add_uint16_length_prefixed,
    add_uint24_length_prefixed, set_error, bytes_or_panic, read_uint8, read_uint16, read_uint64,
    copy_bytes, read_uint16_length_prefixed, read_uint24_length_prefixed,
  }

  -- The callback of `add_extensions`; `marshal_extensions` does not panic.
  unfoldable pub add_marshalled : Outcome CodecError Bytes → Builder → Builder
  add_marshalled (ok ext) b = add_bytes b ext
  add_marshalled (err e) b = set_error b e
  add_marshalled panic b = b

  unfoldable pub add_extensions : Builder → ℤ → Builder
  unfolding add_marshalled
  add_extensions b leaf_index =
      add_uint16_length_prefixed b
        (add_marshalled (marshal_extensions cb (record { leaf_index = leaf_index })))

  -- The entry type and the signed entry, which three functions write.
  unfoldable pub add_signed_entry : Builder → Bytes → Bool → Bytes → Builder
  add_signed_entry b certificate is_precert issuer_key_hash =
      if not is_precert
      then add_uint24_length_prefixed (add_uint16 b 0) (λ b. add_bytes b certificate)
      else add_uint24_length_prefixed (add_bytes (add_uint16 b 1) issuer_key_hash)
          (λ b. add_bytes b certificate)

  unfoldable pub merkle_tree_leaf : LogEntry → Outcome CodecError Bytes
  merkle_tree_leaf e =
      let b = add_uint8 (new_builder []) 0 in
      let b = add_uint8 b 0 in
      let b = add_uint64 b (to_uint64 e.timestamp) in
      let b = add_signed_entry b e.certificate e.is_precert e.issuer_key_hash in
      bytes_or_panic (add_extensions b e.leaf_index)

  -- `for _, f := range e.ChainFingerprints`
  unfoldable pub add_fingerprints : List Bytes → Builder → Builder
  add_fingerprints [] b = b
  add_fingerprints (f ∷ fs) b = add_fingerprints fs (add_bytes b f)

  -- `if e.IsPrecert`
  unfoldable pub add_submitted : Builder → LogEntry → Builder
  add_submitted b e =
      if e.is_precert then add_uint24_length_prefixed b (λ b. add_bytes b e.pre_certificate) else b

  unfoldable pub append_tile_leaf : Bytes → LogEntry → Outcome CodecError Bytes
  append_tile_leaf t e =
      let b = add_uint64 (new_builder t) (to_uint64 e.timestamp) in
      let b = add_signed_entry b e.certificate e.is_precert e.issuer_key_hash in
      let b = add_extensions b e.leaf_index in
      let b = add_submitted b e in
      bytes_or_panic (add_uint16_length_prefixed b (add_fingerprints e.chain_fingerprints))

  -- `case 0`
  unfoldable pub read_x509 : LogEntry → Bytes → Outcome CodecError Parts
  read_x509 e s = do
    (certificate, s) ← or_err (read_uint24_length_prefixed s) invalid_x509_entry
    (extensions, s) ← or_err (read_uint16_length_prefixed s) invalid_x509_entry
    (fingerprints, s) ← or_err (read_uint16_length_prefixed s) invalid_x509_entry
    ok (record {
      entry = record e { certificate = certificate };
      extensions = extensions;
      fingerprints = fingerprints;
      left = s;
    })

  -- `case 1`
  unfoldable pub read_precert : LogEntry → Bytes → Outcome CodecError Parts
  read_precert e s = do
    (issuer_key_hash, s) ← or_err (copy_bytes s 32) invalid_precert_entry
    (certificate, s) ← or_err (read_uint24_length_prefixed s) invalid_precert_entry
    (extensions, s) ← or_err (read_uint16_length_prefixed s) invalid_precert_entry
    (pre_certificate, s) ← or_err (read_uint24_length_prefixed s) invalid_precert_entry
    (fingerprints, s) ← or_err (read_uint16_length_prefixed s) invalid_precert_entry
    ok (record {
      entry = record e {
        certificate = certificate;
        is_precert = true;
        issuer_key_hash = issuer_key_hash;
        pre_certificate = pre_certificate;
      };
      extensions = extensions;
      fingerprints = fingerprints;
      left = s;
    })

  -- The switch on the entry type.
  unfoldable pub read_entry : ℕ → LogEntry → Bytes → Outcome CodecError Parts
  read_entry entry_type e s =
      if entry_type == 0
      then read_x509 e s
      else if entry_type == 1
      then read_precert e s
      else err unknown_type

  -- The single extension of an entry.
  unfoldable pub read_leaf_index : Bytes → Outcome CodecError ℤ
  read_leaf_index extensions = do
    (kind, extensions) ← or_err (read_uint8 extensions) invalid_extensions
    if not (kind == 0) then err invalid_extensions else do
      (content, extensions) ← or_err (read_uint16_length_prefixed extensions) invalid_extensions
      (index, content) ← or_err (read_uint40 cb content) invalid_extensions
      if is_empty content && is_empty extensions then ok index else err invalid_extensions

  -- `for !fingerprints.Empty()`, with fuel for the fingerprints to come.
  unfoldable pub read_fingerprints : ℕ → Bytes → Outcome CodecError (List Bytes)
  read_fingerprints fuel [] = ok []
  read_fingerprints zero (x ∷ s) = panic
  read_fingerprints (suc fuel) (x ∷ s) = do
    (f, s) ← or_err (copy_bytes (x ∷ s) 32) invalid_fingerprints
    fs ← read_fingerprints fuel s
    ok (f ∷ fs)

  -- The bytes that are left beside an error are not modelled: no caller reads them.
  -- A fingerprint takes 32 bytes, so a round for each byte is enough.
  unfoldable pub read_tile_leaf : Bytes → Outcome CodecError (LogEntry × Bytes)
  unfolding read_entry read_leaf_index read_fingerprints
  read_tile_leaf tile = do
    (timestamp, s) ← or_err (read_uint64 tile) invalid_data_tile
    (entry_type, s) ← or_err (read_uint16 s) invalid_data_tile
    if ltb max_int64 timestamp then err invalid_data_tile else do
      let e = record empty_entry { timestamp = pos timestamp }
      parts ← read_entry entry_type e s
      index ← read_leaf_index parts.extensions
      let e = record parts.entry { leaf_index = index }
      fs ← read_fingerprints (length parts.fingerprints) parts.fingerprints
      ok (record e { chain_fingerprints = fs }, parts.left)

-- ===== src/Tile/Layout.antt =====
-- The bytes of an entry in a data tile, of its Merkle tree leaf, and when an entry has them.
use sunlight.Prelude.{
  ◌^◌, ◌≡◌, sym, ◌∙◌, if-eq-ok_left, List, [], ◌∷◌, ◌++◌, Bool, true, false, ◌&&◌, length, ok, err,
  panic, ◌>>=◌, >>=-ext, >>=_assoc, >>=-ok, ltb, if◌then◌else◌, arith, Bool-cases, inl, inr,
  append_assoc, append-nil,
}
use sunlight.Prelude.Int.{ℤ, to_uint64}
use sunlight.Errors.{leaf_index_out_of_range, length_overflow}
use sunlight.Cryptobyte.{Cryptobyte, append_prefixed}
use sunlight.Cryptobyte.Wire.{Bytes, be, length-be}
use sunlight.Cryptobyte.Reading.{prefixed}
use sunlight.Extensions.{in_range}
use sunlight.Extensions.RoundTrip.{marshal_extensions_eq}
use sunlight.Tile.{
  LogEntry, add_marshalled, add_extensions, add_signed_entry, merkle_tree_leaf, add_fingerprints,
  add_submitted, append_tile_leaf,
}

-- The concatenation of the fingerprints.
abbrev pub concat : List Bytes → Bytes
concat [] = []
concat (f ∷ fs) = f ++ concat fs

-- The entry type, the issuer's key hash of a precertificate, and the certificate.
abbrev pub signed_bytes : Bytes → Bool → Bytes → Bytes
signed_bytes certificate false hash = be 2 0 ++ prefixed 3 certificate
signed_bytes certificate true hash = be 2 1 ++ (hash ++ prefixed 3 certificate)

-- The extension with the leaf index, behind its length.
abbrev pub extension_bytes : ℤ → Bytes
extension_bytes i = prefixed 2 (0 ∷ 0 ∷ 5 ∷ be 5 (to_uint64 i))

abbrev pub submitted_bytes : LogEntry → Bytes
submitted_bytes e = if e.is_precert then prefixed 3 e.pre_certificate else []

-- An entry of a data tile.
abbrev pub leaf_bytes : LogEntry → Bytes
leaf_bytes e =
    be 8 (to_uint64 e.timestamp)
    ++ (signed_bytes e.certificate e.is_precert e.issuer_key_hash
        ++ (extension_bytes e.leaf_index
            ++ (submitted_bytes e ++ prefixed 2 (concat e.chain_fingerprints))))

-- A Merkle tree leaf: version and type 0, then the entry without what only the data tile holds.
abbrev pub merkle_bytes : LogEntry → Bytes
merkle_bytes e =
    0
    ∷ 0
    ∷ (be 8 (to_uint64 e.timestamp)
        ++ (signed_bytes e.certificate e.is_precert e.issuer_key_hash
            ++ extension_bytes e.leaf_index))

-- The lengths and the index fit their fields.
abbrev pub has_leaf : LogEntry → Bool
has_leaf e = ltb (length e.certificate) (2 ^ 24) && in_range e.leaf_index

abbrev pub submitted_fits : LogEntry → Bool
submitted_fits e = if e.is_precert then ltb (length e.pre_certificate) (2 ^ 24) else true

abbrev pub is_encodable : LogEntry → Bool
is_encodable e =
    has_leaf e && submitted_fits e && ltb (length (concat e.chain_fingerprints)) (2 ^ 16)

regroup :
    (t a b c d e : Bytes)
    → (((((t ++ a) ++ b) ++ c) ++ d) ++ e) ≡ t ++ (a ++ (b ++ (c ++ (d ++ e))))
regroup t a b c d e = simp append_assoc

module _ {Builder : Type 0} (cb : Cryptobyte Builder) where
  open cb use {new_builder, bytes}

  bytes-add_fingerprints :
      (fs : List Bytes) (b : Builder)
      → bytes (add_fingerprints cb fs b) ≡ (bytes b >>= λ s. ok (s ++ concat fs))
  unfolding add_fingerprints
  bytes-add_fingerprints [] b = simp (append-nil, >>=-ok)
  bytes-add_fingerprints (f ∷ fs) b =
      simp
        (bytes-add_fingerprints fs (cb.add_bytes b f), cb.bytes-add_bytes, >>=_assoc, append_assoc)

  bytes-add_extensions :
      (b : Builder) (i : ℤ)
      → bytes (add_extensions cb b i) ≡ (
          bytes b >>= λ s.
          if in_range i then ok (s ++ extension_bytes i) else err leaf_index_out_of_range)
  unfolding add_extensions
  bytes-add_extensions b i =
      simp (cb.bytes-add_uint16_length_prefixed, marshal_extensions_eq)
        (>>=-ext (bytes b) _ _ (λ s. framed s i))
    where
      framed :
          (s : Bytes) (i : ℤ)
          → (bytes (
                add_marshalled cb
                  (if in_range i
                    then ok (0 ∷ 0 ∷ 5 ∷ be 5 (to_uint64 i))
                    else err leaf_index_out_of_range)
                  (new_builder []))
              >>= λ c. append_prefixed 2 s c)
            ≡ (if in_range i then ok (s ++ extension_bytes i) else err leaf_index_out_of_range)
      framed s i = elim (Bool-cases (in_range i)) [
        | inl e ↦
            unfold add_marshalled in
            rw e (simp (cb.bytes-add_bytes, cb.bytes-new_builder, length-be))
        | inr e ↦ unfold add_marshalled in rw (e, cb.bytes-set_error)
      ]

  bytes-add_signed_entry :
      (b : Builder) (c : Bytes) (p : Bool) (h : Bytes)
      → bytes (add_signed_entry cb b c p h) ≡ (
          bytes b >>= λ s.
          if ltb (length c) (2 ^ 24) then ok (s ++ signed_bytes c p h) else err length_overflow)
  unfolding add_signed_entry
  bytes-add_signed_entry b c false h = simp (
    cb.bytes-add_uint24_length_prefixed, cb.bytes-add_uint16, cb.bytes-add_bytes,
    cb.bytes-new_builder, >>=_assoc, append_assoc,
  )
  bytes-add_signed_entry b c true h = simp (
    cb.bytes-add_uint24_length_prefixed, cb.bytes-add_uint16, cb.bytes-add_bytes,
    cb.bytes-new_builder, >>=_assoc, append_assoc,
  )

  bytes-add_submitted :
      (b : Builder) (e : LogEntry)
      → bytes (add_submitted cb b e) ≡ (
          bytes b >>= λ s.
          if submitted_fits e then ok (s ++ submitted_bytes e) else err length_overflow)
  unfolding add_submitted
  bytes-add_submitted b e = elim (Bool-cases e.is_precert) [
    | inl pre ↦
        rw pre
          (simp (cb.bytes-add_uint24_length_prefixed, cb.bytes-add_bytes, cb.bytes-new_builder))
    | inr final ↦ rw final (simp (append-nil, >>=-ok))
  ]

  -- `append_tile_leaf` appends the entry's bytes to the tile, or panics: exactly if a certificate
  -- or the fingerprints are too long, or the index is out of range.
  pub append_tile_leaf_eq :
      (t : Bytes) (e : LogEntry)
      → append_tile_leaf cb t e ≡ (if is_encodable e then ok (t ++ leaf_bytes e) else panic)
  append_tile_leaf_eq t e =
      unfold append_tile_leaf in
      simp
        (
          cb.bytes_or_panic_lem, cb.bytes-add_uint16_length_prefixed, bytes-add_fingerprints,
          bytes-add_submitted, bytes-add_extensions, bytes-add_signed_entry, cb.bytes-add_uint64,
          cb.bytes-new_builder, >>=_assoc,
        )
        (ground (
          arith,
          regroup t (be 8 (to_uint64 e.timestamp))
              (signed_bytes e.certificate e.is_precert e.issuer_key_hash)
              (extension_bytes e.leaf_index) (submitted_bytes e)
              (prefixed 2 (concat e.chain_fingerprints)),
        ))

  -- `merkle_tree_leaf` returns the bytes of the entry's Merkle tree leaf, or panics: exactly if the
  -- certificate is too long or the index is out of range.
  pub merkle_tree_leaf_eq :
      (e : LogEntry) → merkle_tree_leaf cb e ≡ (if has_leaf e then ok (merkle_bytes e) else panic)
  merkle_tree_leaf_eq e =
      unfold merkle_tree_leaf in
      simp
        (
          cb.bytes_or_panic_lem, bytes-add_extensions, bytes-add_signed_entry, cb.bytes-add_uint64,
          cb.bytes-add_uint8, cb.bytes-new_builder, append_assoc,
        )
        (unfold be in ground arith)

  pub append_tile_leaf_inversion :
      (t tile : Bytes) (e : LogEntry)
      → append_tile_leaf cb t e ≡ ok tile
      → (is_encodable e ≡ true) × (tile ≡ t ++ leaf_bytes e)
  append_tile_leaf_inversion t tile e written =
      if-eq-ok_left (is_encodable e) (t ++ leaf_bytes e) (sym (append_tile_leaf_eq t e) ∙ written)

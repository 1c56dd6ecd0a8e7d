-- ===== src/Extensions.antt =====
-- extensions.go: the CTExtensions field of an SCT or a TimestampedEntry.
pub mod RoundTrip
pub mod Parsing
mod Tests
use Prim.Native.Nat.{bit_or}
use sunlight.Prelude.{
  ℕ, zero, suc, ◌+◌, ◌*◌, ◌/◌, ◌%◌, ◌^◌, ◌≤◌, ◌<◌, ◌≡◌, Option, none, some, List, [], ◌∷◌, Bool,
  true, false, length, Outcome, ok, err, panic, or_err, ◌>>=◌, ltb, ◌==◌, if◌then◌else◌,
}
use sunlight.Prelude.Int.{ℤ, pos, negsuc, to_uint64}
use mathlib.Core.Option
use sunlight.Errors.{
  CodecError, leaf_index_out_of_range, invalid_extension, invalid_leaf_index_extension,
  missing_leaf_index_extension,
}
use sunlight.Cryptobyte.{Cryptobyte}
use sunlight.Cryptobyte.Wire.{Bytes}

-- `Extensions`
pub record ExtensionsField : Type 0 where
  pub leaf_index : ℤ

-- `e.LeafIndex < 0 || e.LeafIndex >= 1<<40`, negated
abbrev pub in_range : ℤ → Bool
in_range (pos n) = ltb n (2 ^ 40)
in_range (negsuc n) = false

abbrev pub is_empty : Bytes → Bool
is_empty [] = true
is_empty (x ∷ s) = false

-- `int64(v[0])<<32 | int64(v[1])<<24 | int64(v[2])<<16 | int64(v[3])<<8 | int64(v[4])`
unfoldable pub join40 : Bytes → ℕ
join40 (a ∷ b ∷ c ∷ d ∷ e ∷ r) =
    bit_or (bit_or (bit_or (bit_or (a * 2 ^ 32) (b * 2 ^ 24)) (c * 2 ^ 16)) (d * 2 ^ 8)) e
join40 _ = 0

module _ {Builder : Type 0} (cb : Cryptobyte Builder) where
  open cb use {
    new_builder, add_uint8, add_bytes, add_uint16_length_prefixed, set_error, bytes, read_uint8,
    read_bytes, read_uint16_length_prefixed,
  }

  unfoldable pub add_uint40 : Builder → ℕ → Builder
  add_uint40 b v = add_bytes b (
      (v / 2 ^ 32 % 256)
      ∷ (v / 2 ^ 24 % 256)
      ∷ (v / 2 ^ 16 % 256)
      ∷ (v / 2 ^ 8 % 256)
      ∷ (v % 256)
      ∷ [])

  unfoldable pub read_uint40 : Bytes → Option (ℤ × Bytes)
  unfolding join40
  read_uint40 s = Option.map (λ r. (pos (join40 r.0), r.1)) (read_bytes s 5)

  -- The callback of `marshal_extensions`.
  unfoldable pub add_leaf_index : ℤ → Builder → Builder
  unfolding add_uint40
  add_leaf_index index b =
      if in_range index then add_uint40 b (to_uint64 index) else set_error b leaf_index_out_of_range

  unfoldable pub marshal_extensions : ExtensionsField → Outcome CodecError Bytes
  unfolding add_leaf_index
  marshal_extensions e =
      let b = add_uint8 (new_builder []) 0 in
      bytes (add_uint16_length_prefixed b (add_leaf_index e.leaf_index))

  -- The body of `if extensionType == 0`.
  unfoldable pub parse_leaf_index : Bytes → Outcome CodecError ExtensionsField
  unfolding read_uint40
  parse_leaf_index extension = do
    (index, left) ← or_err (read_uint40 extension) invalid_leaf_index_extension
    if is_empty left then ok (record { leaf_index = index }) else err invalid_leaf_index_extension

  -- The loop, with fuel for the extensions that are still to come; `panic` is fuel that ran out.
  unfoldable pub parse_extensions_loop : ℕ → Bytes → Outcome CodecError ExtensionsField
  unfolding parse_leaf_index
  parse_extensions_loop fuel [] = err missing_leaf_index_extension
  parse_extensions_loop zero (x ∷ s) = panic
  parse_extensions_loop (suc fuel) (x ∷ s) = do
    (kind, b) ← or_err (read_uint8 (x ∷ s)) invalid_extension
    (extension, b) ← or_err (read_uint16_length_prefixed b) invalid_extension
    let rest = parse_extensions_loop fuel b
    if kind == 0 then parse_leaf_index extension else rest

  -- Each extension takes three bytes at least, so a round for each byte is enough.
  unfoldable pub parse_extensions : Bytes → Outcome CodecError ExtensionsField
  unfolding parse_extensions_loop
  parse_extensions s = parse_extensions_loop (length s) s

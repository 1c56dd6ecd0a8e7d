-- ===== src/Extensions/RoundTrip.antt =====
-- What `marshal_extensions` writes, `parse_extensions` reads.
use sunlight.Prelude.{
  ℕ, ◌+◌, ◌*◌, ◌/◌, ◌%◌, ◌^◌, ◌<◌, ◌≡◌, refl, ◌++◌, [], ◌∷◌, false, length, ok, err, ◌>>=◌, ltb,
  if◌then◌else◌, arith, lt→ltb, All,
}
use sunlight.Prelude.Int.{ℤ, pos, negsuc, to_uint64}
use sunlight.Prelude.Bits.{bit_or-multiple}
use sunlight.Errors.{leaf_index_out_of_range}
use sunlight.Cryptobyte.{Cryptobyte}
use sunlight.Cryptobyte.Wire.{Bytes, be, length-be, IsByte, be_value}
use native.Mathlib.Decide.{dec_lt}
use sunlight.Cryptobyte.Reading.{prefixed}
use sunlight.Extensions.{in_range, join40, add_uint40, add_leaf_index, marshal_extensions}

-- The five bytes that `add_uint40` writes are the big-endian form.
pub be_five :
    (v : ℕ)
    → ◌≡◌ {A = Bytes}
        ((v / 2 ^ 32 % 256)
          ∷ (v / 2 ^ 24 % 256)
          ∷ (v / 2 ^ 16 % 256)
          ∷ (v / 2 ^ 8 % 256)
          ∷ (v % 256)
          ∷ [])
        (be 5 v)
unfolding be
be_five v = ground arith

-- On bytes, `|` of the shifted bytes is the big-endian value.
pub join40-be_value : (s : Bytes) → All IsByte s → length s ≡ 5 → join40 s ≡ be_value 0 s
unfolding join40 be_value
join40-be_value (a ∷ b ∷ c ∷ d ∷ e ∷ []) h l =
    rw
      (
        bit_or-multiple 32 a (a * 2 ^ 32) (b * 2 ^ 24) (omega arith) (omega arith),
        bit_or-multiple 24 (a * 256 + b) (a * 2 ^ 32 + b * 2 ^ 24) (c * 2 ^ 16) (omega arith)
            (omega arith),
        bit_or-multiple 16 (a * 65536 + b * 256 + c) (a * 2 ^ 32 + b * 2 ^ 24 + c * 2 ^ 16)
            (d * 2 ^ 8) (omega arith) (omega arith),
        bit_or-multiple 8 (a * 16777216 + b * 65536 + c * 256 + d)
            (a * 2 ^ 32 + b * 2 ^ 24 + c * 2 ^ 16 + d * 2 ^ 8) e (omega arith) (omega arith),
      )
      (omega arith)
join40-be_value _ h l = absurd (omega arith)

module _ {Builder : Type 0} (cb : Cryptobyte Builder) where
  open cb use {new_builder, add_bytes, add_uint16_length_prefixed, bytes}

  bytes-add_uint40 :
      (b : Builder) (v : ℕ) → bytes (add_uint40 cb b v) ≡ (bytes b >>= λ s. ok (s ++ be 5 v))
  unfolding add_uint40
  bytes-add_uint40 b v = rw (cb.bytes-add_bytes, be_five)

  -- The callback writes an index in range, and reports any other.
  bytes-add_leaf_index_pos :
      (n : ℕ) → n < 2 ^ 40 → bytes (add_leaf_index cb (pos n) (new_builder [])) ≡ ok (be 5 n)
  unfolding add_leaf_index
  bytes-add_leaf_index_pos n h =
      rw (lt→ltb n (2 ^ 40) h, mod_id, bytes-add_uint40, cb.bytes-new_builder)
    where
      mod_id : n % 2 ^ 64 ≡ n
      mod_id = omega arith

  bytes-add_leaf_index_out :
      (i : ℤ) (b : Builder)
      → in_range i ≡ false
      → bytes (add_leaf_index cb i b) ≡ err leaf_index_out_of_range
  unfolding add_leaf_index
  bytes-add_leaf_index_out i b h = rw (h, cb.bytes-set_error)

  -- The bytes of the field, for an index in range.
  pub marshal_extensions_bytes :
      (n : ℕ)
      → n < 2 ^ 40
      → marshal_extensions cb (record { leaf_index = pos n }) ≡ ok (0 ∷ 0 ∷ 5 ∷ be 5 n)
  marshal_extensions_bytes n h =
      unfold marshal_extensions in
      simp
        (
          cb.bytes-add_uint16_length_prefixed,
          cb.bytes-add_uint8,
          cb.bytes-new_builder,
          bytes-add_leaf_index_pos n h,
          length-be 5 n,
        )
        (unfold be in refl)

  pub marshal_extensions_out :
      (i : ℤ)
      → in_range i ≡ false
      → marshal_extensions cb (record { leaf_index = i }) ≡ err leaf_index_out_of_range
  marshal_extensions_out i h =
      unfold marshal_extensions in
      simp (
        cb.bytes-add_uint16_length_prefixed,
        cb.bytes-add_uint8,
        cb.bytes-new_builder,
        bytes-add_leaf_index_out i _ h,
      )

  -- `marshal_extensions` writes the type 0, the length 5 and the 40 bits of an index that is not
  -- negative and below 2^40, and reports any other index.
  pub marshal_extensions_eq :
      (i : ℤ)
      → marshal_extensions cb (record { leaf_index = i })
        ≡ (if in_range i then ok (0 ∷ 0 ∷ 5 ∷ be 5 (to_uint64 i)) else err leaf_index_out_of_range)
  marshal_extensions_eq (negsuc n) = marshal_extensions_out (negsuc n) refl
  marshal_extensions_eq (pos n) = elim (dec_lt n (2 ^ 40)) [
    | yes h ↦ rw (lt→ltb n (2 ^ 40) h, mod_id h) (marshal_extensions_bytes n h)
    | no h ↦ rw (out h) (marshal_extensions_out (pos n) (out h))
  ]
    where
      mod_id : n < 2 ^ 40 → n % 2 ^ 64 ≡ n
      mod_id h = omega arith

      out : ¬ (n < 2 ^ 40) → ltb n (2 ^ 40) ≡ false
      out h = ground arith

-- The field is an extension of type 0 that holds the index.
pub field-prefixed : (n : ℕ) → ◌≡◌ {A = Bytes} (0 ∷ 0 ∷ 5 ∷ be 5 n) (0 ∷ prefixed 2 (be 5 n))
field-prefixed n = rw (length-be 5 n) (unfold be in refl)

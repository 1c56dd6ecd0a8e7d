-- ===== src/Cryptobyte.antt =====
-- What the repository uses of the package golang.org/x/crypto/cryptobyte, which is not part of it:
-- the operations, and their documented behaviour as laws. `Builder` is the type of its builders.
-- The children give the laws' vocabulary, big-endian numbers and length-prefixed strings.
pub mod Wire
pub mod Reading
pub mod Plain
use sunlight.Prelude.{
  ℕ, ◌≡◌, ◌++◌, Option, Outcome, ok, err, panic, ◌>>=◌, ltb, if◌then◌else◌, ◌^◌, ◌-◌, length, [],
  ◌∷◌,
}
use mathlib.Core.Option
use sunlight.Errors.{CodecError, length_overflow}
use Wire.{Bytes, be, take_exact, read_be, read_prefixed}

-- Appends what a child builder holds behind its length in `n` bytes, if the length fits.
abbrev pub append_prefixed : ℕ → Bytes → Bytes → Outcome CodecError Bytes
append_prefixed n s c =
    if ltb (length c) (256 ^ n) then ok (s ++ (be n (length c) ++ c)) else err length_overflow

-- The length octets of DER: the length itself if it fits seven bits, else how many octets it takes
-- and these.
abbrev pub der_length : ℕ → Bytes
der_length n =
    if ltb n 128
    then n ∷ []
    else if ltb n 256
    then 129 ∷ be 1 n
    else if ltb n (256 ^ 2)
    then 130 ∷ be 2 n
    else if ltb n (256 ^ 3)
    then 131 ∷ be 3 n
    else 132 ∷ be 4 n

-- Appends what a child builder holds as an ASN.1 value of a tag with one octet.
abbrev pub append_asn1 : ℕ → Bytes → Bytes → Outcome CodecError Bytes
append_asn1 tag s c =
    if ltb (length c) (256 ^ 4 - 1)
    then ok (s ++ (tag ∷ (der_length (length c) ++ c)))
    else err length_overflow

-- `BytesOrPanic`
abbrev pub or_panic : Outcome CodecError Bytes → Outcome CodecError Bytes
or_panic (ok s) = ok s
or_panic (err e) = panic
or_panic panic = panic

pub record Cryptobyte (Builder : Type 0) : Type 0 where
  -- Builder
  pub new_builder : Bytes → Builder
  pub add_uint8 : Builder → ℕ → Builder
  pub add_uint16 : Builder → ℕ → Builder
  pub add_uint64 : Builder → ℕ → Builder
  pub add_bytes : Builder → Bytes → Builder
  pub add_uint16_length_prefixed : Builder → (Builder → Builder) → Builder
  pub add_uint24_length_prefixed : Builder → (Builder → Builder) → Builder
  pub add_asn1 : Builder → ℕ → (Builder → Builder) → Builder
  pub set_error : Builder → CodecError → Builder
  pub bytes : Builder → Outcome CodecError Bytes
  pub bytes_or_panic : Builder → Outcome CodecError Bytes
  -- String: `none` for false, else the value and the string that is left
  pub read_uint8 : Bytes → Option (ℕ × Bytes)
  pub read_uint16 : Bytes → Option (ℕ × Bytes)
  pub read_uint64 : Bytes → Option (ℕ × Bytes)
  pub read_bytes : Bytes → ℕ → Option (Bytes × Bytes)
  pub skip : Bytes → ℕ → Option Bytes
  pub copy_bytes : Bytes → ℕ → Option (Bytes × Bytes)
  pub read_uint16_length_prefixed : Bytes → Option (Bytes × Bytes)
  pub read_uint24_length_prefixed : Bytes → Option (Bytes × Bytes)
  -- laws
  pub bytes-new_builder : (s : Bytes) → bytes (new_builder s) ≡ ok s
  pub bytes-add_uint8 :
      (b : Builder) (v : ℕ) → bytes (add_uint8 b v) ≡ (bytes b >>= λ s. ok (s ++ be 1 v))
  pub bytes-add_uint16 :
      (b : Builder) (v : ℕ) → bytes (add_uint16 b v) ≡ (bytes b >>= λ s. ok (s ++ be 2 v))
  pub bytes-add_uint64 :
      (b : Builder) (v : ℕ) → bytes (add_uint64 b v) ≡ (bytes b >>= λ s. ok (s ++ be 8 v))
  pub bytes-add_bytes :
      (b : Builder) (v : Bytes) → bytes (add_bytes b v) ≡ (bytes b >>= λ s. ok (s ++ v))
  pub bytes-add_uint16_length_prefixed :
      (b : Builder) (f : Builder → Builder)
      → bytes (add_uint16_length_prefixed b f)
        ≡ (bytes b >>= λ s. bytes (f (new_builder [])) >>= λ c. append_prefixed 2 s c)
  pub bytes-add_uint24_length_prefixed :
      (b : Builder) (f : Builder → Builder)
      → bytes (add_uint24_length_prefixed b f)
        ≡ (bytes b >>= λ s. bytes (f (new_builder [])) >>= λ c. append_prefixed 3 s c)
  pub bytes-add_asn1 :
      (b : Builder) (tag : ℕ) (f : Builder → Builder)
      → bytes (add_asn1 b tag f)
        ≡ (bytes b >>= λ s. bytes (f (new_builder [])) >>= λ c. append_asn1 tag s c)
  pub bytes-set_error : (b : Builder) (e : CodecError) → bytes (set_error b e) ≡ err e
  pub bytes_or_panic_lem : (b : Builder) → bytes_or_panic b ≡ or_panic (bytes b)
  pub read_uint8_lem : (s : Bytes) → read_uint8 s ≡ read_be 1 s
  pub read_uint16_lem : (s : Bytes) → read_uint16 s ≡ read_be 2 s
  pub read_uint64_lem : (s : Bytes) → read_uint64 s ≡ read_be 8 s
  pub read_bytes_lem : (s : Bytes) (n : ℕ) → read_bytes s n ≡ take_exact n s
  pub skip_lem : (s : Bytes) (n : ℕ) → skip s n ≡ Option.map (λ r. r.1) (take_exact n s)
  pub copy_bytes_lem : (s : Bytes) (n : ℕ) → copy_bytes s n ≡ take_exact n s
  pub read_uint16_length_prefixed_lem :
      (s : Bytes) → read_uint16_length_prefixed s ≡ read_prefixed 2 s
  pub read_uint24_length_prefixed_lem :
      (s : Bytes) → read_uint24_length_prefixed s ≡ read_prefixed 3 s

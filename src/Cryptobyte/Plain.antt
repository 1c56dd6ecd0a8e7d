-- ===== src/Cryptobyte/Plain.antt =====
-- A builder that holds its bytes, for running the code on concrete input. It meets the laws.
use sunlight.Prelude.{
  ◌++◌, ◌∷◌, ◌≡◌, All, Bool, true, ltb, ◌&&◌, arith, refl, Outcome, ok, err, ◌>>=◌, [],
}
use mathlib.Core.Option
use sunlight.Errors.{CodecError}
use sunlight.Cryptobyte.{Cryptobyte, append_prefixed, append_asn1, or_panic}
use sunlight.Cryptobyte.Wire.{Bytes, IsByte, be, take_exact, read_be, read_prefixed}

abbrev pub Plain : Type 0
Plain = Outcome CodecError Bytes

abbrev pub plain : Cryptobyte Plain
plain = record {
  new_builder = λ s. ok s;
  add_uint8 = λ b v. b >>= λ s. ok (s ++ be 1 v);
  add_uint16 = λ b v. b >>= λ s. ok (s ++ be 2 v);
  add_uint64 = λ b v. b >>= λ s. ok (s ++ be 8 v);
  add_bytes = λ b v. b >>= λ s. ok (s ++ v);
  add_uint16_length_prefixed = λ b f. b >>= λ s. f (ok []) >>= λ c. append_prefixed 2 s c;
  add_uint24_length_prefixed = λ b f. b >>= λ s. f (ok []) >>= λ c. append_prefixed 3 s c;
  add_asn1 = λ b tag f. b >>= λ s. f (ok []) >>= λ c. append_asn1 tag s c;
  set_error = λ b e. err e;
  bytes = λ b. b;
  bytes_or_panic = or_panic;
  read_uint8 = read_be 1;
  read_uint16 = read_be 2;
  read_uint64 = read_be 8;
  read_bytes = λ s n. take_exact n s;
  skip = λ s n. Option.map (λ r. r.1) (take_exact n s);
  copy_bytes = λ s n. take_exact n s;
  read_uint16_length_prefixed = read_prefixed 2;
  read_uint24_length_prefixed = read_prefixed 3;
  bytes-new_builder = λ s. refl;
  bytes-add_uint8 = λ b v. refl;
  bytes-add_uint16 = λ b v. refl;
  bytes-add_uint64 = λ b v. refl;
  bytes-add_bytes = λ b v. refl;
  bytes-add_uint16_length_prefixed = λ b f. refl;
  bytes-add_uint24_length_prefixed = λ b f. refl;
  bytes-add_asn1 = λ b tag f. refl;
  bytes-set_error = λ b e. refl;
  bytes_or_panic_lem = λ b. refl;
  read_uint8_lem = λ s. refl;
  read_uint16_lem = λ s. refl;
  read_uint64_lem = λ s. refl;
  read_bytes_lem = λ s n. refl;
  skip_lem = λ s n. refl;
  copy_bytes_lem = λ s n. refl;
  read_uint16_length_prefixed_lem = λ s. refl;
  read_uint24_length_prefixed_lem = λ s. refl;
}

abbrev pub are_bytes : Bytes → Bool
are_bytes [] = true
are_bytes (x ∷ s) = ltb x 256 && are_bytes s

-- Bytes, by a test.
pub All-IsByte : (s : Bytes) → are_bytes s ≡ true → All IsByte s
All-IsByte [] h = tt
All-IsByte (x ∷ s) h = (ground arith, All-IsByte s (ground arith))

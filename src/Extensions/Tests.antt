-- ===== src/Extensions/Tests.antt =====
-- The extensions (extensions.go) on concrete input.
use sunlight.Prelude.{ℕ, ◌<◌, ◌^◌, ◌≡◌, refl, List, [], ◌∷◌, ◌++◌, ok, err, ◌⊎◌, arith}
use sunlight.Prelude.Int.{pos}
use sunlight.Errors.{CodecError}
use sunlight.Cryptobyte.Wire.{Bytes, be}
use sunlight.Cryptobyte.Plain.{plain, All-IsByte}
use sunlight.Extensions.{marshal_extensions, parse_extensions}
use sunlight.Extensions.Parsing.{Unknown, encode, parse_extensions-marshal, parse_extensions_total}

-- An extension of type 3.
abbrev other : List Unknown
other = record { kind = 3; content = 7 ∷ 8 ∷ [] } ∷ []

abbrev field_bytes : Bytes
field_bytes = 0 ∷ 0 ∷ 5 ∷ 0 ∷ 0 ∷ 0 ∷ 1 ∷ 2 ∷ []

parse_extensions-marshal_example :
    parse_extensions plain (encode other ++ (field_bytes ++ 9 ∷ []))
    ≡ ok (record { leaf_index = pos 258 })
unfolding marshal_extensions be
parse_extensions-marshal_example =
    parse_extensions-marshal plain other 258 field_bytes (9 ∷ [])
      ((omega arith, omega arith, omega arith), tt) refl

parse_extensions_total_example :
    ((n : ℕ) × (parse_extensions plain field_bytes ≡ ok (record { leaf_index = pos n }))
      × (n < 2 ^ 40))
    ⊎ ((e : CodecError) × (parse_extensions plain field_bytes ≡ err e))
parse_extensions_total_example =
    parse_extensions_total plain field_bytes (All-IsByte field_bytes refl)

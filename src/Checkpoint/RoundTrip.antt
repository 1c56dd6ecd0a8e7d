-- ===== src/Checkpoint/RoundTrip.antt =====
-- Formatting and parsing of checkpoints (checkpoint.go) are inverse to each other.
use sunlight.Prelude.{
  ℕ, suc, ◌^◌, ◌<◌, ◌≤◌, ◌≡◌, refl, ◌∙◌, ap, List, [], ◌∷◌, ◌++◌, true, false, ltb, le→ltb, ==_iff,
  length, All, ok, arith,
}
use sunlight.Prelude.Int.{pos}
use sunlight.Prelude.Maps.{bytes_beq_iff}
use sunlight.Cryptobyte.Wire.{Bytes, IsByte}
use sunlight.Checkpoint.{
  Checkpoint, Texts, AllPlain, count_newlines, ends, split, max_checkpoint_size, parse_size,
  parse_hash, parse_checkpoint, format_checkpoint,
}
use sunlight.Checkpoint.Lines.{
  cut_line-append, count_newlines-append, ends-append, ends-join, join, IsLine, extension_loop-join,
}

module _ (tx : Texts) (origin hash : Bytes) (m : ℕ) (ls : List Bytes) (plain : AllPlain origin)
    (small : m < 2 ^ 63) (bytes : All IsByte hash) (whole : length hash ≡ 32)
    (lines : All IsLine ls) where
  -- The checkpoint of a tree of `m` leaves
  abbrev pub checkpoint : Checkpoint
  checkpoint = record { origin = origin; n = pos m; hash = hash; extension = join ls }

  abbrev from_hash : Bytes
  from_hash = tx.encode hash ++ (10 ∷ join ls)

  abbrev from_size : Bytes
  from_size = tx.format_int (pos m) ++ (10 ∷ from_hash)

  abbrev text : Bytes
  text = origin ++ (10 ∷ from_size)

  count-text : count_newlines text ≡ suc (suc (suc (count_newlines (join ls))))
  count-text =
      count_newlines-append origin from_size plain
      ∙ ap suc (
          count_newlines-append (tx.format_int (pos m)) from_hash (tx.format_int-AllPlain (pos m))
          ∙ ap suc (count_newlines-append (tx.encode hash) (join ls) (tx.encode-AllPlain hash)))

  ends-text : ends text ≡ true
  ends-text =
      ends-append origin from_size 10
      ∙ (ends-append (10 ∷ tx.format_int (pos m)) from_hash 10
          ∙ (ends-append (10 ∷ tx.encode hash) (join ls) 10 ∙ ends-join ls))

  split-text : split 3 text ≡ origin ∷ tx.format_int (pos m) ∷ tx.encode hash ∷ join ls ∷ []
  unfolding split
  split-text =
      rw
        (
          cut_line-append origin from_size plain,
          cut_line-append (tx.format_int (pos m)) from_hash (tx.format_int-AllPlain (pos m)),
          cut_line-append (tx.encode hash) (join ls) (tx.encode-AllPlain hash),
        )
        refl

  parse_size_lem : parse_size tx (tx.format_int (pos m)) ≡ ok (pos m)
  parse_size_lem =
      rw
        (
          tx.parse-format_int m small,
          (bytes_beq_iff (tx.format_int (pos m)) (tx.format_int (pos m))).1 refl,
        )
        refl

  parse_hash_lem : parse_hash tx (tx.encode hash) ≡ ok hash
  parse_hash_lem = rw (tx.decode-encode hash bytes, (==_iff (length hash) 32).1 whole) refl

  -- A checkpoint that was formatted is parsed as it was, if its origin is one line, its size an int64
  -- that is not negative, its hash 32 bytes, its extension any lines that are not empty, and its text
  -- no longer than a checkpoint may be.
  pub parse-format_checkpoint :
      length (format_checkpoint tx checkpoint) ≤ max_checkpoint_size
      → parse_checkpoint tx (format_checkpoint tx checkpoint) ≡ ok checkpoint
  unfolding parse_checkpoint format_checkpoint
  parse-format_checkpoint h =
      let enough : ltb (count_newlines text) 3 ≡ false = le→ltb _ _ (omega (arith, count-text)) in
      let short : ltb max_checkpoint_size (length text) ≡ false = le→ltb _ _ h in
      rw
        (
          enough,
          short,
          ends-text,
          split-text,
          parse_size_lem,
          parse_hash_lem,
          extension_loop-join (length (join ls)) ls lines (omega arith),
        )
        refl

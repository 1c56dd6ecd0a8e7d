-- ===== src/Checkpoint/Tests.antt =====
-- Checkpoints (checkpoint.go) on concrete input.
use sunlight.Prelude.{◌≡◌, refl, List, [], ◌∷◌, ◌++◌, ok, arith, replicate}
use sunlight.Prelude.Int.{pos}
use sunlight.Cryptobyte.Wire.{Bytes}
use sunlight.Cryptobyte.Plain.{All-IsByte}
use sunlight.Checkpoint.{
  Checkpoint, parse_checkpoint, format_checkpoint, count_newlines, ends, cut_line, split,
  extension_loop,
}
use sunlight.Checkpoint.Lines.{join}
use sunlight.Checkpoint.RoundTrip.{parse-format_checkpoint}
use sunlight.Checkpoint.Accepted.{IsText, parse_checkpoint-IsText}
use sunlight.Checkpoint.Plain.{plain_texts}

-- Two extension lines
abbrev lines : List Bytes
lines = (65 ∷ 66 ∷ []) ∷ (67 ∷ []) ∷ []

abbrev with_lines : Checkpoint
unfolding join
with_lines = record {
  origin = 120 ∷ 46 ∷ [];
  n = pos 258;
  hash = replicate 32 7;
  extension = join lines;
}

parse-format_checkpoint_example :
    parse_checkpoint plain_texts (format_checkpoint plain_texts with_lines) ≡ ok with_lines
unfolding format_checkpoint join
parse-format_checkpoint_example =
    parse-format_checkpoint plain_texts (120 ∷ 46 ∷ []) (replicate 32 7) 258 lines
      (refl, (refl, tt)) (omega arith) (All-IsByte (replicate 32 7) refl) refl
      (((refl, (refl, tt)), refl), (((refl, tt), refl), tt)) (omega arith)

parsed :
    parse_checkpoint plain_texts (120 ∷ 10 ∷ 51 ∷ 10 ∷ (replicate 32 55 ++ (10 ∷ [])))
    ≡ ok (record { origin = 120 ∷ []; n = pos 3; hash = replicate 32 7; extension = [] })
unfolding parse_checkpoint count_newlines ends cut_line split extension_loop
parsed = refl

parse_checkpoint-IsText_example :
    IsText plain_texts
      (120 ∷ 10 ∷ 51 ∷ 10 ∷ (replicate 32 55 ++ (10 ∷ [])))
      (record { origin = 120 ∷ []; n = pos 3; hash = replicate 32 7; extension = [] })
parse_checkpoint-IsText_example =
    parse_checkpoint-IsText plain_texts (120 ∷ 10 ∷ 51 ∷ 10 ∷ (replicate 32 55 ++ (10 ∷ [])))
      (record { origin = 120 ∷ []; n = pos 3; hash = replicate 32 7; extension = [] }) parsed

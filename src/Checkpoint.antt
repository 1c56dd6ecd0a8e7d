-- ===== src/Checkpoint.antt =====
-- Checkpoints (checkpoint.go): ParseCheckpoint and FormatCheckpoint, and the timestamp of a signature.
pub mod Lines
pub mod RoundTrip
pub mod Accepted
pub mod Signature
pub mod Verifier
pub mod Plain
mod Tests
use sunlight.Prelude.{
  ℕ, zero, suc, ◌+◌, ◌^◌, ◌<◌, ◌≡◌, List, [], ◌∷◌, ◌++◌, Bool, true, false, not, ◌&&◌, ◌||◌, ltb,
  ◌==◌, if◌then◌else◌, length, All, Option, none, some, Outcome, ok, err, panic, ◌>>=◌, or_err,
}
use sunlight.Prelude.Int.{ℤ, pos, negsuc}
use sunlight.Prelude.Maps.{bytes_beq}
use sunlight.Errors.{LogError, malformed_checkpoint}
use sunlight.Cryptobyte.Wire.{Bytes, IsByte}
use sunlight.Extensions.{is_empty}

pub record Checkpoint : Type 0 where
  pub origin : Bytes
  pub n : ℤ
  pub hash : Bytes
  pub extension : Bytes

abbrev pub AllPlain : Bytes → Type 0
AllPlain s = All (λ x. (x == 10) ≡ false) s

-- `strconv.ParseInt` and `FormatInt` in base 10, for an int64, and the standard base64 encoding, whose
-- texts have no line ends
pub record Texts : Type 0 where
  pub parse_int : Bytes → Option ℤ
  pub format_int : ℤ → Bytes
  pub decode : Bytes → Option Bytes
  pub encode : Bytes → Bytes
  pub parse-format_int : (n : ℕ) → n < 2 ^ 63 → parse_int (format_int (pos n)) ≡ some (pos n)
  pub format_int-AllPlain : (n : ℤ) → AllPlain (format_int n)
  pub decode-encode : (s : Bytes) → All IsByte s → decode (encode s) ≡ some s
  pub encode-AllPlain : (s : Bytes) → AllPlain (encode s)

-- `strings.Count(text, "\n")`
unfoldable pub count_newlines : Bytes → ℕ
count_newlines [] = 0
count_newlines (x ∷ s) = let rest = count_newlines s in if x == 10 then suc rest else rest

-- `strings.HasSuffix(text, "\n")`
unfoldable pub ends : Bytes → Bool
ends [] = false
ends (x ∷ []) = x == 10
ends (x ∷ y ∷ s) = ends (y ∷ s)

abbrev pub before_with : ℕ → Option (Bytes × Bytes) → Option (Bytes × Bytes)
before_with x none = none
before_with x (some (before, after)) = some (x ∷ before, after)

-- `strings.Cut(text, "\n")`, if it is found
unfoldable pub cut_line : Bytes → Option (Bytes × Bytes)
cut_line [] = none
cut_line (x ∷ s) = let rest = cut_line s in if x == 10 then some ([], s) else before_with x rest

abbrev pub pieces : Bytes → (Bytes → List Bytes) → Option (Bytes × Bytes) → List Bytes
pieces s split none = s ∷ []
pieces s split (some (before, after)) = before ∷ split after

-- `strings.SplitN(text, "\n", n)` for a positive `n`, here one more than the argument
unfoldable pub split : ℕ → Bytes → List Bytes
unfolding cut_line
split zero s = s ∷ []
split (suc n) s = let rest = split n in pieces s rest (cut_line s)

abbrev pub line_then : (Bytes → Bool) → Option (Bytes × Bytes) → Bool
line_then next none = false
line_then next (some (before, after)) = if is_empty before then false else next after

-- The loop over the extension lines, with a round for each byte; each round cuts off at least two.
unfoldable pub extension_loop : ℕ → Bytes → Bool
unfolding cut_line
extension_loop zero rest = is_empty rest
extension_loop (suc rounds) rest =
    let next = extension_loop rounds in
    if is_empty rest then true else line_then next (cut_line rest)

abbrev pub max_checkpoint_size : ℕ
max_checkpoint_size = 1000000

abbrev pub is_negative : ℤ → Bool
is_negative (pos n) = false
is_negative (negsuc n) = true

module _ (tx : Texts) where
  abbrev pub parse_size : Bytes → Outcome LogError ℤ
  parse_size line = or_err (tx.parse_int line) malformed_checkpoint >>= λ n.
      if is_negative n || not (bytes_beq line (tx.format_int n))
      then err malformed_checkpoint
      else ok n

  abbrev pub parse_hash : Bytes → Outcome LogError Bytes
  parse_hash line = or_err (tx.decode line) malformed_checkpoint >>= λ h.
      if not (length h == 32) then err malformed_checkpoint else ok h

  -- The body of `ParseCheckpoint` for `lines`, which has four elements
  abbrev pub parse_lines : List Bytes → Outcome LogError Checkpoint
  unfolding extension_loop
  parse_lines (origin ∷ size ∷ hash ∷ rest ∷ []) = parse_size size >>= λ n. parse_hash hash >>= λ h.
      if extension_loop (length rest) rest
      then ok (record { origin = origin; n = n; hash = h; extension = rest })
      else err malformed_checkpoint
  parse_lines _ = panic

  -- `ParseCheckpoint`
  unfoldable pub parse_checkpoint : Bytes → Outcome LogError Checkpoint
  unfolding count_newlines ends split extension_loop
  parse_checkpoint text =
      if ltb (count_newlines text) 3 || ltb max_checkpoint_size (length text)
      then err malformed_checkpoint
      else (if not (ends text) then err malformed_checkpoint else parse_lines (split 3 text))

  -- `FormatCheckpoint`
  unfoldable pub format_checkpoint : Checkpoint → Bytes
  format_checkpoint c =
      c.origin ++ (10 ∷ (tx.format_int c.n ++ (10 ∷ (tx.encode c.hash ++ (10 ∷ c.extension)))))

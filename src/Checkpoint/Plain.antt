-- ===== src/Checkpoint/Plain.antt =====
-- Texts of numbers and bytes for running the code of checkpoint.go: a number is one character, and so
-- is each byte. The laws hold of them.
use sunlight.Prelude.{
  ℕ, ◌+◌, ◌-◌, ◌^◌, ◌<◌, ◌≡◌, refl, ap, [], ◌∷◌, false, leb, le→leb, ◌==◌, if◌then◌else◌, All,
  Option, none, some, arith,
}
use sunlight.Prelude.Int.{ℤ, pos, negsuc}
use sunlight.Cryptobyte.Wire.{Bytes, IsByte}
use sunlight.Checkpoint.{AllPlain, Texts}

abbrev pub text_of : ℤ → Bytes
text_of (pos n) = (n + 48) ∷ []
text_of (negsuc n) = 45 ∷ (n + 48) ∷ []

abbrev pub number_of : Bytes → Option ℤ
number_of (x ∷ []) = if leb 48 x then some (pos (x - 48)) else none
number_of _ = none

pub number_of-text_of : (n : ℕ) → n < 2 ^ 63 → number_of (text_of (pos n)) ≡ some (pos n)
number_of-text_of n h = rw (le→leb 48 (n + 48) (omega arith)) (ap (λ m. some (pos m)) (omega arith))

not_newline : (n : ℕ) → (n + 48 == 10) ≡ false
not_newline n = ground arith

pub text_of-AllPlain : (n : ℤ) → AllPlain (text_of n)
text_of-AllPlain (pos n) = (not_newline n, tt)
text_of-AllPlain (negsuc n) = (refl, (not_newline n, tt))

abbrev pub raised : Bytes → Bytes
raised [] = []
raised (x ∷ s) = (x + 48) ∷ raised s

abbrev pub lowered : Bytes → Bytes
lowered [] = []
lowered (x ∷ s) = (x - 48) ∷ lowered s

pub lowered-raised : (s : Bytes) → lowered (raised s) ≡ s
lowered-raised [] = refl
lowered-raised (x ∷ s) = ground (arith, lowered-raised s)

pub decode-raised :
    (s : Bytes) → All IsByte s → ◌≡◌ {A = Option Bytes} (some (lowered (raised s))) (some s)
decode-raised s h = ap some (lowered-raised s)

pub raised-AllPlain : (s : Bytes) → AllPlain (raised s)
raised-AllPlain [] = tt
raised-AllPlain (x ∷ s) = (not_newline x, raised-AllPlain s)

abbrev pub plain_texts : Texts
plain_texts = record {
  parse_int = number_of;
  format_int = text_of;
  decode = λ s. some (lowered s);
  encode = raised;
  parse-format_int = number_of-text_of;
  format_int-AllPlain = text_of-AllPlain;
  decode-encode = decode-raised;
  encode-AllPlain = raised-AllPlain;
}

-- ===== src/Checkpoint/Lines.antt =====
-- Lines of text, as checkpoint.go takes them apart.
use sunlight.Prelude.{
  ℕ, zero, suc, ◌≤◌, ◌≡◌, refl, ◌∙◌, List, [], ◌∷◌, ◌++◌, Bool, true, false, if◌then◌else◌, length,
  length-append, All, some, arith,
}
use sunlight.Cryptobyte.Wire.{Bytes}
use sunlight.Extensions.{is_empty}
use sunlight.Checkpoint.{AllPlain, count_newlines, ends, cut_line, extension_loop}

-- A line is cut off at its end.
pub cut_line-append : (a b : Bytes) → AllPlain a → cut_line (a ++ (10 ∷ b)) ≡ some (a, b)
unfolding cut_line
cut_line-append [] b h = refl
cut_line-append (x ∷ a) b h = rw (h.0, cut_line-append a b h.1) refl

pub count_newlines-append :
    (a b : Bytes) → AllPlain a → count_newlines (a ++ (10 ∷ b)) ≡ suc (count_newlines b)
unfolding count_newlines
count_newlines-append [] b h = refl
count_newlines-append (x ∷ a) b h = rw (h.0) (count_newlines-append a b h.1)

pub ends-append : (a b : Bytes) (x : ℕ) → ends (a ++ (x ∷ b)) ≡ ends (x ∷ b)
unfolding ends
ends-append [] b x = refl
ends-append (y ∷ []) b x = refl
ends-append (y ∷ z ∷ a) b x = ends-append (z ∷ a) b x

-- Lines that are not empty, each with its end
unfoldable pub join : List Bytes → Bytes
join [] = []
join (l ∷ ls) = l ++ (10 ∷ join ls)

abbrev pub IsLine : Bytes → Type 0
IsLine l = AllPlain l × (is_empty l ≡ false)

pub ends-join : (ls : List Bytes) → ends (10 ∷ join ls) ≡ true
unfolding ends join
ends-join [] = refl
ends-join (l ∷ ls) = ends-append (10 ∷ l) (join ls) 10 ∙ ends-join ls

either_true : (b : Bool) → (if b then true else true) ≡ true
either_true true = refl
either_true false = refl

pub extension_loop-join :
    (rounds : ℕ) (ls : List Bytes)
    → All IsLine ls
    → length (join ls) ≤ rounds
    → extension_loop rounds (join ls) ≡ true
unfolding extension_loop join
extension_loop-join zero [] a h = refl
extension_loop-join (suc rounds) [] a h = refl
extension_loop-join zero (l ∷ ls) a h = absurd (omega (arith, length-append l (10 ∷ join ls), h))
extension_loop-join (suc rounds) (l ∷ ls) ((plain, more), a) h =
    let shorter : length (join ls) ≤ rounds = omega (arith, length-append l (10 ∷ join ls), h) in
    rw (cut_line-append l (join ls) plain, more, extension_loop-join rounds ls a shorter)
      (either_true (is_empty (l ++ (10 ∷ join ls))))

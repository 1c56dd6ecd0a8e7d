-- ===== src/Cryptobyte/Wire.antt =====
-- Big-endian numbers and length-prefixed strings of bytes, as TLS lays them out. The laws of the
-- package golang.org/x/crypto/cryptobyte are stated with these functions.
use sunlight.Prelude.{
  ℕ, zero, suc, ◌+◌, ◌*◌, ◌/◌, ◌%◌, ◌^◌, ◌<◌, ◌≡◌, refl, sym, ◌∙◌, Option, none, some, List, [],
  ◌∷◌, ◌++◌, length, All, arith, length-append, All-append, append-nil, append_assoc, Option-cases,
  inl, inr,
}
use native.Mathlib.Nat.{pow-suc, add-zero, zero-add}
use mathlib.Core.Option

abbrev pub Bytes : Type 0
Bytes = List ℕ

abbrev pub IsByte : ℕ → Type 0
IsByte b = b < 256

-- The `n` low bytes of `v`, the lowest last.
unfoldable pub be : ℕ → ℕ → Bytes
be zero v = []
be (suc n) v = be n (v / 256) ++ (v % 256) ∷ []

unfoldable pub be_value : ℕ → Bytes → ℕ
be_value acc [] = acc
be_value acc (x ∷ s) = be_value (acc * 256 + x) s

-- The first `n` bytes and the rest, if there are that many.
unfoldable pub take_exact : ℕ → Bytes → Option (Bytes × Bytes)
take_exact zero s = some ([], s)
take_exact (suc n) [] = none
take_exact (suc n) (x ∷ s) = Option.map (λ r. (x ∷ r.0, r.1)) (take_exact n s)

unfoldable pub read_be : ℕ → Bytes → Option (ℕ × Bytes)
unfolding take_exact be_value
read_be n s = Option.map (λ r. (be_value 0 r.0, r.1)) (take_exact n s)

abbrev pub counted : Option (ℕ × Bytes) → Option (Bytes × Bytes)
counted none = none
counted (some (len, r)) = take_exact len r

-- A string behind its length in `n` bytes.
unfoldable pub read_prefixed : ℕ → Bytes → Option (Bytes × Bytes)
read_prefixed n s = counted (read_be n s)

pub length-be : (n v : ℕ) → length (be n v) ≡ n
unfolding be
length-be zero v = refl
length-be (suc n) v =
    omega (arith, length-append (be n (v / 256)) ((v % 256) ∷ []), length-be n (v / 256))

pub be-IsByte : (n v : ℕ) → All IsByte (be n v)
unfolding be
be-IsByte zero v = tt
be-IsByte (suc n) v = All-append IsByte (be n (v / 256)) _ (be-IsByte n (v / 256)) (omega arith)

be_value-snoc : (acc x : ℕ) (s : Bytes) → be_value acc (s ++ x ∷ []) ≡ be_value acc s * 256 + x
unfolding be_value
be_value-snoc acc x [] = refl
be_value-snoc acc x (y ∷ s) = be_value-snoc (acc * 256 + y) x s

-- A number below `256 ^ n` is what its `n` bytes stand for.
pub be_value-be : (n v : ℕ) → v < 256 ^ n → be_value 0 (be n v) ≡ v
unfolding be be_value
be_value-be zero v h = omega arith
be_value-be (suc n) v h = omega (
  arith,
  be_value-snoc 0 (v % 256) (be n (v / 256)),
  be_value-be n (v / 256) (omega (arith, pow-suc 256 n)),
)

be-be_value_from :
    (n v : ℕ) (p : Bytes) → All IsByte p → be (length p + n) (be_value v p) ≡ be n v ++ p
unfolding be_value
be-be_value_from n v [] h = rw zero-add (sym (append-nil (be n v)))
be-be_value_from n v (x ∷ p) h =
    rw (suc_shift (length p) n)
      (be-be_value_from (suc n) (v * 256 + x) p h.1 ∙ unfold be in rw (high, low, append_assoc))
  where
    suc_shift : (a b : ℕ) → suc a + b ≡ a + suc b
    suc_shift a b = omega arith

    high : (v * 256 + x) / 256 ≡ v
    high = omega arith

    low : (v * 256 + x) % 256 ≡ x
    low = omega arith

-- A string of bytes is the big-endian form of its value.
pub be-be_value : (p : Bytes) → All IsByte p → be (length p) (be_value 0 p) ≡ p
be-be_value p h = rw (← add-zero (length p)) (be-be_value_from 0 0 p h ∙ unfold be in refl)

be_value-lt_from :
    (n v : ℕ) (p : Bytes) → All IsByte p → v < 256 ^ n → be_value v p < 256 ^ (length p + n)
unfolding be_value
be_value-lt_from n v [] h b = rw zero-add b
be_value-lt_from n v (x ∷ p) h b =
    rw (suc_shift (length p) n)
      (be_value-lt_from (suc n) (v * 256 + x) p h.1 (omega (arith, pow-suc 256 n, h.0)))
  where
    suc_shift : (a b : ℕ) → suc a + b ≡ a + suc b
    suc_shift a b = omega arith

pub be_value-lt : (p : Bytes) → All IsByte p → be_value 0 p < 256 ^ length p
be_value-lt p h = rw (← add-zero (length p)) (be_value-lt_from 0 0 p h (omega arith))

pub take_exact-append : (s r : Bytes) → take_exact (length s) (s ++ r) ≡ some (s, r)
unfolding take_exact
take_exact-append [] r = refl
take_exact-append (x ∷ s) r = rw (take_exact-append s r)

pub take_exact_split :
    (n : ℕ) (s p r : Bytes) → take_exact n s ≡ some (p, r) → (s ≡ p ++ r) × (length p ≡ n)
unfolding take_exact
take_exact_split zero s p r h = ground arith
take_exact_split (suc n) [] p r h = cc
take_exact_split (suc n) (x ∷ s) p r h = elim (Option-cases (take_exact n s)) [
  | inl e ↦ cc (rw (e, Option.map) at h)
  | inr ((q, t), e) ↦ ground (arith, take_exact_split n s q t e)
]

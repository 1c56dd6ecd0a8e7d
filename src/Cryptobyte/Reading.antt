-- ===== src/Cryptobyte/Reading.antt =====
-- Reading is the inverse of writing, in both directions, for the formats of `Wire`.
use sunlight.Prelude.{
  ℕ, ◌+◌, ◌*◌, ◌^◌, ◌<◌, ◌≡◌, sym, ap, ◌∙◌, some, ◌∷◌, ◌++◌, length, All, arith, All-append_left,
  All-append_right, append_assoc, Option-cases, inl, inr,
}
use sunlight.Cryptobyte.Wire.{
  Bytes, IsByte, be, be_value, take_exact, read_be, read_prefixed, length-be, be_value-be,
  be-be_value, be_value-lt, take_exact-append, take_exact_split,
}

-- A string behind its length.
abbrev pub prefixed : ℕ → Bytes → Bytes
prefixed n s = be n (length s) ++ s

pub take_exact-append_at :
    (n : ℕ) (s r : Bytes) → length s ≡ n → take_exact n (s ++ r) ≡ some (s, r)
take_exact-append_at n s r h = rw (← h) (take_exact-append s r)

pub read_be-be : (n v : ℕ) (r : Bytes) → v < 256 ^ n → read_be n (be n v ++ r) ≡ some (v, r)
read_be-be n v r h =
    unfold read_be in rw (take_exact-append_at n (be n v) r (length-be n v), be_value-be n v h)

read_be_inversion :
    (n : ℕ) (s : Bytes) {v : ℕ} {r : Bytes}
    → read_be n s ≡ some (v, r)
    → (p : Bytes) × (take_exact n s ≡ some (p, r)) × (v ≡ be_value 0 p)
unfolding read_be
read_be_inversion n s h = elim (Option-cases (take_exact n s)) [
  | inl e ↦ cc (rw e at h)
  | inr ((p, t), e) ↦ (p, ground arith, ground arith)
]

-- On bytes, a number that was read stands in front of the rest.
pub read_be_split :
    (n : ℕ) (s : Bytes) {v : ℕ} {r : Bytes}
    → All IsByte s
    → read_be n s ≡ some (v, r)
    → (s ≡ be n v ++ r) × (v < 256 ^ n) × All IsByte r
read_be_split n s {v} {r} bytes h =
    let (p, taken, value) = read_be_inversion n s h in
    let (split, size) = take_exact_split n s p r taken in
    let both = rw split at bytes in
    let low = All-append_left IsByte p r both in
    (
      split ∙ ap (λ t. t ++ r) (sym (rw (← size, value) (be-be_value p low))),
      rw (← size, value) (be_value-lt p low),
      All-append_right IsByte p r both,
    )

pub read_prefixed-prefixed :
    (n : ℕ) (s r : Bytes) → length s < 256 ^ n → read_prefixed n (prefixed n s ++ r) ≡ some (s, r)
unfolding read_prefixed
read_prefixed-prefixed n s r h =
    rw (append_assoc, read_be-be n (length s) (s ++ r) h) (take_exact-append s r)

read_prefixed_inversion :
    (n : ℕ) (t : Bytes) {s r : Bytes}
    → read_prefixed n t ≡ some (s, r)
    → (len : ℕ) × (u : Bytes) × (read_be n t ≡ some (len, u)) × (take_exact len u ≡ some (s, r))
unfolding read_prefixed
read_prefixed_inversion n t h = elim (Option-cases (read_be n t)) [
  | inl e ↦ cc (rw e at h)
  | inr ((len, u), e) ↦ (len, u, e, rw e at h)
]

pub read_prefixed_split :
    (n : ℕ) (t : Bytes) {s r : Bytes}
    → All IsByte t
    → read_prefixed n t ≡ some (s, r)
    → (t ≡ prefixed n s ++ r) × (length s < 256 ^ n) × All IsByte s × All IsByte r
read_prefixed_split n t {s} {r} bytes h =
    let (len, u, number, taken) = read_prefixed_inversion n t h in
    let (front, small, rest) = read_be_split n t bytes number in
    let (split, size) = take_exact_split len u s r taken in
    let both = rw split at rest in
    (
      front ∙ rw (split, size) (sym (append_assoc (be n len) s r)),
      rw size small,
      All-append_left IsByte s r both,
      All-append_right IsByte s r both,
    )

pub read_be_one : (k : ℕ) (s : Bytes) → read_be 1 (k ∷ s) ≡ some (k, s)
unfolding read_be
read_be_one k s = λ i. some (value i, s)
  where
    value : 0 * 256 + k ≡ k
    value = omega arith

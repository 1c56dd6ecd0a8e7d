-- ===== src/Rfc6979/Nonce.antt =====
-- The nonce of a signature: the generator of candidates of RFC 6979 (ecdsa.go, `rfc6979DRBG`) and the
-- rejection sampling over it (`randomPoint`).
pub mod Sampling
pub mod Bounds
pub mod Rfc
use sunlight.Prelude.{
  ℕ, zero, suc, ◌+◌, ◌-◌, ◌*◌, List, [], ◌∷◌, ◌++◌, Bool, true, false, not, ◌&&◌, ltb, ◌==◌,
  if◌then◌else◌, length, replicate, Outcome, ok, err, panic, ◌>>=◌, Option, none, some,
}
use sunlight.Errors.{EcdsaError, still_rejecting}
use sunlight.Cryptobyte.Wire.{Bytes, be}
use sunlight.Rfc6979.Shift.{right_shift}
use sunlight.Rfc6979.Curve.{Bigmod, NistCurve, Hmac}
use sunlight.Rfc6979.Hash.{take}

-- The variables that the closure of `rfc6979DRBG` keeps. Its `h` is keyed with `k` throughout, and
-- is empty at each call.
pub record Drbg : Type 0 where
  pub k : Bytes
  pub v : Bytes
  pub first_loop : Bool

module _ (hm : Hmac) where
  -- `rfc6979DRBG`, for the seed `int2octets(x) || bits2octets(h1)`
  unfoldable pub new_drbg : Bytes → Drbg
  new_drbg seed =
      let v = replicate hm.hash_size 1 in
      let k = hm.sum (replicate hm.hash_size 0) (v ++ (0 ∷ seed)) in
      record { k = k; v = hm.sum k v; first_loop = true }

  -- The loop that fills `left` bytes from one value of V after the other; each fills `hash_size`
  -- bytes, so as many rounds as bytes are enough.
  unfoldable pub fill : ℕ → ℕ → Bytes → Bytes → Bytes × Bytes
  unfolding take
  fill zero left k v = ([], v)
  fill (suc rounds) left k v =
      let next = hm.sum k v in
      let rest = fill rounds (left - length next) k next in
      if ltb 0 left then (take left next ++ rest.0, rest.1) else ([], v)

  -- One call of the closure, for `len` bytes
  unfoldable pub draw : Bytes → ℕ → Drbg → Bytes × Drbg
  unfolding fill
  draw seed len d =
      let k = hm.sum d.k (if d.first_loop then d.v ++ (1 ∷ seed) else d.v ++ (0 ∷ [])) in
      let filled = fill len len k (hm.sum k d.v) in
      (filled.0, record { k = k; v = filled.1; first_loop = false })

module _ {Point : Type 0} (bm : Bigmod) (c : NistCurve Point) (hm : Hmac) (seed : Bytes) where
  -- The bytes of a candidate, shifted to the bits of the order; only P-521 takes a shift.
  abbrev pub shifted_candidate : Bytes → Outcome EcdsaError Bytes
  shifted_candidate b =
      let excess = length b * 8 - bm.bit_len c.n in
      if ltb 0 excess then (if c.is_p521 then right_shift b excess else panic) else ok b

  -- `k.SetBytes(b, c.N)`, and whether the loop ends with it
  abbrev pub accepted : Outcome EcdsaError ℕ → Option ℕ
  accepted (ok zero) = none
  accepted (ok (suc k)) = some (suc k)
  accepted _ = none

  abbrev pub or_next : Option ℕ → Outcome EcdsaError ℕ → Outcome EcdsaError ℕ
  or_next (some k) rest = ok k
  or_next none rest = rest

  -- The loop of `randomPoint`, with fuel for its rounds
  unfoldable pub sample : ℕ → Drbg → Outcome EcdsaError ℕ
  unfolding draw right_shift
  sample zero d = err still_rejecting
  sample (suc fuel) d =
      let candidate = draw hm seed (bm.size c.n) d in
      let rest = sample fuel candidate.1 in
      shifted_candidate candidate.0 >>= λ b. or_next (accepted (bm.set_bytes b c.n)) rest

  -- `randomPoint`
  unfoldable pub random_point : ℕ → Drbg → Outcome EcdsaError (ℕ × Point)
  unfolding sample
  random_point fuel d =
      sample fuel d >>= λ k. c.scalar_base_mult (bm.bytes k c.n) >>= λ p. ok (k, p)

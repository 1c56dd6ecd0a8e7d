-- ===== src/Rfc6979/Signing/Equation.antt =====
-- The numbers of a signature (ecdsa.go, `signNISTEC`) solve the equation of ECDSA.
use sunlight.Prelude.{
  ℕ, ◌+◌, ◌-◌, ◌*◌, ◌/◌, ◌%◌, ◌^◌, ◌<◌, ◌≡◌, sym, ◌∙◌, ap, inl, inr, ◌++◌, ltb, ltb→lt, ◌==◌,
  Outcome, ok, err, panic, >>=-eq-ok, after_guard, arith, false, Bool-cases, ok-injective, All,
  subst,
}
use native.Mathlib.Nat.{
  mod-add-div, add-mul-mod_self_left, mod-eq_of_lt, mod-lt, mod-add-mod, add-mul, mul_comm,
  mul_assoc, pow-le-pow_right,
}
use sunlight.Prelude.Bits.{pow_bytes}
use sunlight.Errors.{EcdsaError, CodecError, r_is_zero, s_is_zero}
use sunlight.Cryptobyte.{Cryptobyte}
use sunlight.Cryptobyte.Wire.{Bytes, IsByte, be, be_value, be_value-be, be-IsByte, length-be}
use sunlight.Rfc6979.Curve.{Bigmod, NistCurve, Hmac, BigInt}
use sunlight.Rfc6979.Hash.{hash_to_nat, hash_to_nat_eq, left_most}
use sunlight.Rfc6979.Nonce.{new_drbg, sample, random_point}
use sunlight.Rfc6979.Nonce.Sampling.{sample-eq-ok}
use sunlight.Rfc6979.Nonce.Rfc.{
  rfc_start, rfc_candidate_at, AllUnsuitable, candidate_at-new_drbg, AllRejected-new_drbg,
}
use sunlight.Rfc6979.Nonce.Bounds.{hash_to_nat-lt, set_bytes_bound, random_point_bound}
use sunlight.Rfc6979.Signing.{encode_signature, encoded, finish_signature, sign_nistec}
use sunlight.Rfc6979.Signing.Der.{IsInteger, der, encode_signature_eq}

mod-mul : (a b n : ℕ) → a % n * b % n ≡ a * b % n
mod-mul a b n = sym (add-mul-mod_self_left (a % n * b) n (a / n * b)) ∙ ap (λ t. t % n) parts
  where
    parts : a % n * b + n * (a / n * b) ≡ a * b
    parts = sym (
        ap (λ t. t * b) (sym (mod-add-div a n))
        ∙ (add-mul (a % n) (n * (a / n)) b ∙ ap (λ t. a % n * b + t) (mul_assoc n (a / n) b)))

-- Multiplied by the inverse and then by what it inverts, a number is itself again.
cancel_inverse : (a inv k n : ℕ) → inv * k % n ≡ 1 → a < n → (a * (inv % n)) % n * k % n ≡ a
cancel_inverse a inv k n h l =
    mod-mul (a * (inv % n)) k n
    ∙ (ap (λ t. t % n) (mul_assoc a (inv % n) k ∙ mul_comm a (inv % n * k))
        ∙ (sym (mod-mul (inv % n * k) a n)
            ∙ (ap (λ t. t * a % n) (mod-mul inv k n ∙ h)
                ∙ (ap (λ t. t % n) (omega arith) ∙ mod-eq_of_lt l))))

-- What the bytes of a signature under the private key `d` stand on: the number `e` of the left-most bits
-- of the hash; the nonce `k` of RFC 6979, which is the first suitable candidate, behind `i` others;
-- and the numbers `r`, from the point of the nonce, and `s`, as DER has them.
pub record IsSigned {Point : Type 0} (bm : Bigmod) (hm : Hmac) (c : NistCurve Point) (d : ℕ)
    (digest sig : Bytes) : Type 0 where
  pub e : ℕ
  pub hashed : e ≡ left_most (bm.bit_len c.n) digest % c.n
  pub i : ℕ
  pub others :
      AllUnsuitable hm i
        (bm.bit_len c.n)
        c.n
        (rfc_start hm (be (bm.size c.n) d ++ be (bm.size c.n) e))
  pub k : ℕ
  pub nonce :
      k
      ≡ rfc_candidate_at hm i
          (bm.bit_len c.n)
          (rfc_start hm (be (bm.size c.n) d ++ be (bm.size c.n) e))
  pub point : Point
  pub multiple : c.scalar_base_mult (be (bm.size c.n) k) ≡ ok point
  pub rx : Bytes
  pub coordinate : c.bytes_x point ≡ ok rx
  pub r : ℕ
  pub reduced : bm.set_overflowing_bytes rx c.n ≡ ok r
  pub s : ℕ
  pub k_range : (0 < k) × (k < c.n)
  pub r_range : (0 < r) × (r < c.n)
  pub s_range : (0 < s) × (s < c.n)
  pub equation : s * k % c.n ≡ (d * r + e) % c.n
  pub x : Bytes
  pub y : Bytes
  pub r_integer : IsInteger r x
  pub s_integer : IsInteger s y
  pub encoding : sig ≡ der 48 (der 2 x ++ der 2 y)

module _ {Builder Point : Type 0} (cb : Cryptobyte Builder) (bm : Bigmod) (big : BigInt) (hm : Hmac)
    (c : NistCurve Point) where
  encoded-eq-ok : (m : Outcome CodecError Bytes) {sig : Bytes} → encoded m ≡ ok sig → m ≡ ok sig
  encoded-eq-ok (ok b) h = ap ok (ok-injective _ _ h)
  encoded-eq-ok (err e) h = absurd (cc h)
  encoded-eq-ok panic h = absurd (cc h)

  not_zero : (a : ℕ) → (a == 0) ≡ false → 0 < a
  not_zero a h = ground arith

  -- The number `s` that is computed, as one remainder
  s_value :
      (d e r k : ℕ)
      → d < c.n
      → e < c.n
      → r < c.n
      → k < c.n
      → bm.mul (bm.add (bm.mul d r c.n) e c.n) (bm.exp k c.n_minus2 c.n) c.n
        ≡ (d * r + e) % c.n * (k ^ (c.n - 2) % c.n) % c.n
  s_value d e r k dl el rl kl =
      let pos : 0 < c.n = omega (arith, c.n_large) in
      let product = bm.mul_lem d r c.n dl rl in
      let sum : bm.add (bm.mul d r c.n) e c.n ≡ (d * r + e) % c.n =
        ap (λ t. bm.add t e c.n) product
        ∙ (bm.add_lem (d * r % c.n) e c.n (mod-lt (d * r) pos) el ∙ mod-add-mod (d * r) c.n e) in
      let power : bm.exp k c.n_minus2 c.n ≡ k ^ (c.n - 2) % c.n =
        bm.exp_lem k c.n c.n_minus2 kl ∙ ap (λ t. k ^ t % c.n) c.n_minus2_value in
      rw (sum, power)
        (bm.mul_lem ((d * r + e) % c.n) (k ^ (c.n - 2) % c.n) c.n (mod-lt (d * r + e) pos)
          (mod-lt (k ^ (c.n - 2)) pos))

  finish_signature-eq-ok :
      (d e k r : ℕ) (sig : Bytes)
      → e < c.n
      → r < c.n
      → 0 < k
      → k < c.n
      → finish_signature cb bm big hm c d e k r ≡ ok sig
      → (0 < r)
        × ((s : ℕ) × (0 < s)
            × (s < c.n)
            × (s * k % c.n ≡ (d * r + e) % c.n)
            × (encode_signature cb (be (bm.size c.n) r) (be (bm.size c.n) s) ≡ ok sig))
  unfolding finish_signature
  finish_signature-eq-ok d e k r sig el rl kp kl h = after_guard (r == 0) r_is_zero _ h λ r_pos h₁.
      let (x, read, h₂) = >>=-eq-ok (bm.set_bytes (big.int_bytes d) c.n) _ h₁ in
      let (value, xl) = set_bytes_bound bm c (big.int_bytes d) read in
      let key : x ≡ d = sym value ∙ big.be_value-int_bytes d in
      let dl : d < c.n = omega (arith, key, xl) in
      let s = bm.mul (bm.add (bm.mul x r c.n) e c.n) (bm.exp k c.n_minus2 c.n) c.n in
      after_guard (s == 0) s_is_zero _ h₂ λ s_pos h₃.
        let pos : 0 < c.n = omega (arith, c.n_large) in
        let s_is =
          ap (λ x. bm.mul (bm.add (bm.mul x r c.n) e c.n) (bm.exp k c.n_minus2 c.n) c.n) key
          ∙ s_value d e r k dl el rl kl in
        let sl : s < c.n =
          omega (arith, s_is, mod-lt ((d * r + e) % c.n * (k ^ (c.n - 2) % c.n)) pos) in
        (
          not_zero r r_pos,
          (
            s,
            not_zero s s_pos,
            sl,
            ap (λ t. t * k % c.n) s_is
                ∙ cancel_inverse ((d * r + e) % c.n) (k ^ (c.n - 2)) k c.n (c.inverse k kp kl)
                    (mod-lt (d * r + e) pos),
            ap (λ b. encode_signature cb b (be (bm.size c.n) s)) (sym (bm.bytes_lem r c.n rl))
                ∙ (ap (λ b. encode_signature cb (bm.bytes r c.n) b) (sym (bm.bytes_lem s c.n sl))
                    ∙ encoded-eq-ok _ h₃),
          ),
        )

  fill_bytes-eq-ok : (d size : ℕ) {x : Bytes} → big.fill_bytes d size ≡ ok x → x ≡ be size d
  fill_bytes-eq-ok d size {x} h = elim (Bool-cases (ltb d (256 ^ size))) [
    | inl fits ↦ ok-injective _ _ (sym h ∙ big.fill_bytes_lem d size (ltb→lt d (256 ^ size) fits))
    | inr not_fits ↦
        let panicked : ◌≡◌ {A = Outcome EcdsaError Bytes} (ok x) panic =
          sym h ∙ big.fill_bytes_panics d size (ground arith) in
        absurd (cc panicked)
  ]

  -- Numbers below the order, as bytes
  below_order : (v : ℕ) → v < c.n → be_value 0 (be (bm.size c.n) v) ≡ v
  below_order v l = be_value-be (bm.size c.n) v (
      omega (
        arith,
        l,
        bm.bit_len_bound c.n (omega (arith, l)),
        pow_bytes (bm.size c.n),
        pow-le-pow_right {n = 2} (omega arith) {i = bm.bit_len c.n} {j = bm.size c.n * 8}
            (omega (arith, bm.size_lem c.n)),
      ))

  encode_signature-eq-ok :
      (r s : ℕ) (sig : Bytes)
      → bm.size c.n < 256 ^ 3
      → (0 < r) × (r < c.n)
      → (0 < s) × (s < c.n)
      → encode_signature cb (be (bm.size c.n) r) (be (bm.size c.n) s) ≡ ok sig
      → (x : Bytes) × (y : Bytes) × IsInteger r x
        × IsInteger s y
        × (sig ≡ der 48 (der 2 x ++ der 2 y))
  encode_signature-eq-ok r s sig short (rp, rl) (sp, sl) h =
      let size = bm.size c.n in
      let rv = below_order r rl in
      let sv = below_order s sl in
      let (x, y, xi, yi, written) =
        encode_signature_eq cb (be size r) (be size s) (be-IsByte size r) (be-IsByte size s)
          (omega (arith, rv, rp)) (omega (arith, sv, sp)) (omega (arith, length-be size r, short))
          (omega (arith, length-be size s, short)) in
      (
        x,
        y,
        subst (λ v. IsInteger v x) rv xi,
        subst (λ v. IsInteger v y) sv yi,
        ok-injective {E = CodecError} _ _ (sym h ∙ written),
      )

  random_point-eq-ok :
      (seed : Bytes) (fuel : ℕ) {k : ℕ} {p : Point}
      → random_point bm c hm seed fuel (new_drbg hm seed) ≡ ok (k, p)
      → (i : ℕ) × AllUnsuitable hm i (bm.bit_len c.n) c.n (rfc_start hm seed)
        × (k ≡ rfc_candidate_at hm i (bm.bit_len c.n) (rfc_start hm seed))
        × (c.scalar_base_mult (bm.bytes k c.n) ≡ ok p)
  unfolding random_point
  random_point-eq-ok seed fuel {k} {p} h =
      let (k', sampled, h₁) = >>=-eq-ok (sample bm c hm seed fuel (new_drbg hm seed)) _ h in
      let (q, multiplied, h₂) = >>=-eq-ok (c.scalar_base_mult (bm.bytes k' c.n)) _ h₁ in
      let same : k' ≡ k = ap (λ y. y.0) (ok-injective _ _ h₂) in
      let same_point : q ≡ p = ap (λ y. y.1) (ok-injective _ _ h₂) in
      let (i, _, rejected, found) = sample-eq-ok bm c hm seed fuel (new_drbg hm seed) k' sampled in
      (
        i,
        subst (λ X. X) (AllRejected-new_drbg hm seed bm c i) rejected,
        sym same ∙ (found ∙ candidate_at-new_drbg hm seed bm c i),
        ap (λ v. c.scalar_base_mult (bm.bytes v c.n)) (sym same) ∙ (multiplied ∙ ap ok same_point),
      )

  -- For the hash of a message and a curve whose order is shorter than 2 ^ 24 bytes: a signature is
  -- returned only if it is one. Its nonce is the one that RFC 6979 (3.2) prescribes for the key and the
  -- hash, `r` is the x-coordinate of the nonce's point, `s` solves the equation of ECDSA,
  -- `s * k = e + r * d` modulo the order, for the left-most bits `e` of the hash, all three are
  -- positive and below the order, and the bytes are the DER encoding of the two.
  pub sign_nistec-IsSigned :
      (fuel d : ℕ) (digest sig : Bytes)
      → All IsByte digest
      → bm.size c.n < 256 ^ 3
      → sign_nistec cb bm big hm c fuel d digest ≡ ok sig
      → IsSigned bm hm c d digest sig
  unfolding sign_nistec
  sign_nistec-IsSigned fuel d digest sig bytes short h =
      let size = bm.size c.n in
      let (e, hashed, h₁) = >>=-eq-ok (hash_to_nat bm c digest) _ h in
      let (x, filled, h₂) = >>=-eq-ok (big.fill_bytes d size) _ h₁ in
      let seed = x ++ bm.bytes e c.n in
      let ((k, p), drawn, h₃) =
        >>=-eq-ok (random_point bm c hm seed fuel (new_drbg hm seed)) _ h₂ in
      let (rx, coordinate, h₄) = >>=-eq-ok (c.bytes_x p) _ h₃ in
      let (r, reduced, h₅) = >>=-eq-ok (bm.set_overflowing_bytes rx c.n) _ h₄ in
      let el = hash_to_nat-lt bm c digest hashed in
      let rl = bm.set_overflowing_bytes-lt rx c.n r (omega (arith, c.n_large)) reduced in
      let (kp, kl) = random_point_bound bm c hm seed fuel (new_drbg hm seed) drawn in
      let (rp, (s, sp, sl, equation, encoding)) =
        finish_signature-eq-ok d e k r sig el rl kp kl h₅ in
      let (xi, yi, r_integer, s_integer, written) =
        encode_signature-eq-ok r s sig short (rp, rl) (sp, sl) encoding in
      let (i, others, nonce, multiple) = random_point-eq-ok seed fuel drawn in
      let seed_is : seed ≡ be size d ++ be size e =
        ap (λ t. t ++ bm.bytes e c.n) (fill_bytes-eq-ok d size filled)
        ∙ ap (λ t. be size d ++ t) (bm.bytes_lem e c.n el) in
      record {
        e = e;
        hashed = ok-injective {E = EcdsaError} _ _ (sym hashed ∙ hash_to_nat_eq bm c digest bytes);
        i = i;
        others =
            subst (λ t. AllUnsuitable hm i (bm.bit_len c.n) c.n (rfc_start hm t)) seed_is others;
        k = k;
        nonce = nonce ∙ ap (λ t. rfc_candidate_at hm i (bm.bit_len c.n) (rfc_start hm t)) seed_is;
        point = p;
        multiple = ap c.scalar_base_mult (sym (bm.bytes_lem k c.n kl)) ∙ multiple;
        rx = rx;
        coordinate = coordinate;
        r = r;
        reduced = reduced;
        s = s;
        k_range = (kp, kl);
        r_range = (rp, rl);
        s_range = (sp, sl);
        equation = equation;
        x = xi;
        y = yi;
        r_integer = r_integer;
        s_integer = s_integer;
        encoding = written;
      }

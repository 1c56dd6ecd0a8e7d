-- ===== src/Extensions/Parsing.antt =====
-- `parse_extensions` on any input, and on lists of extensions.
use sunlight.Prelude.{
  ℕ, zero, suc, ◌^◌, ◌≤◌, ◌<◌, ◌≡◌, ◌≢◌, refl, sym, ap, ◌∙◌, ◌++◌, Option, some, List, [], ◌∷◌,
  false, length, ok, err, panic, ◌==◌, if◌then◌else◌, arith, ltb→lt, ◌⊎◌, All, All-append_left,
  length-append, Option-cases, Bool-cases, Outcome-cases, if-eq-ok, inl, inr, append_assoc,
  append-nil,
}
use mathlib.Core.Path.{ap₂}
use sunlight.Prelude.Int.{ℤ, pos}
use sunlight.Errors.{CodecError, invalid_extension, missing_leaf_index_extension}
use sunlight.Cryptobyte.{Cryptobyte}
use sunlight.Cryptobyte.Wire.{
  Bytes, be, IsByte, length-be, be-IsByte, be_value, be_value-be, be-be_value, be_value-lt,
  take_exact, take_exact_split, read_prefixed,
}
use sunlight.Cryptobyte.Reading.{
  prefixed, take_exact-append_at, read_be_one, read_prefixed-prefixed, read_prefixed_split,
}
use sunlight.Extensions.{
  ExtensionsField, in_range, join40, read_uint40, marshal_extensions, parse_leaf_index,
  parse_extensions_loop, parse_extensions,
}
use sunlight.Extensions.RoundTrip.{
  join40-be_value, marshal_extensions_bytes, marshal_extensions_eq, field-prefixed,
}

-- An extension of a type that the code does not know.
pub record Unknown : Type 0 where
  pub kind : ℕ
  pub content : Bytes

abbrev pub IsUnknown : Unknown → Type 0
IsUnknown x = (0 < x.kind) × (x.kind < 256) × (length x.content < 2 ^ 16)

abbrev pub encode : List Unknown → Bytes
encode [] = []
encode (x ∷ xs) = x.kind ∷ (prefixed 2 x.content ++ encode xs)

nonzero : (k : ℕ) → 0 < k → (k == 0) ≡ false
nonzero k p = ground arith

module _ {Builder : Type 0} (cb : Cryptobyte Builder) where
  pub read_uint40-be :
      (n : ℕ) (r : Bytes) → n < 2 ^ 40 → read_uint40 cb (be 5 n ++ r) ≡ some (pos n, r)
  unfolding read_uint40
  read_uint40-be n r h = rw (
    cb.read_bytes_lem,
    take_exact-append_at 5 (be 5 n) r (length-be 5 n),
    join40-be_value (be 5 n) (be-IsByte 5 n) (length-be 5 n),
    be_value-be 5 n h,
  )

  -- What was read lies in front of the rest, and is in range.
  pub read_uint40_split :
      (s r : Bytes) (i : ℤ)
      → All IsByte s
      → read_uint40 cb s ≡ some (i, r)
      → (n : ℕ) × (i ≡ pos n) × (n < 2 ^ 40) × (s ≡ be 5 n ++ r)
  unfolding read_uint40
  read_uint40_split s r i bytes h = elim (Option-cases (take_exact 5 s)) [
    | inl e ↦ cc (rw (cb.read_bytes_lem, e) at h)
    | inr ((p, t), e) ↦
        let (split, size) = take_exact_split 5 s p t e in
        let low = All-append_left IsByte p t (rw split at bytes) in
        let value = join40-be_value p low size in
        let found : ◌≡◌ {A = Option (ℤ × Bytes)} (some (pos (join40 p), t)) (some (i, r)) =
          rw (cb.read_bytes_lem, e) at h in
        (
          be_value 0 p,
          cc (found, value),
          rw size at (be_value-lt p low),
          split ∙ ap₂ ◌++◌ (sym (rw size at (be-be_value p low))) (cc found),
        )
  ]

  -- One round of the loop.
  parse_extensions_loop_round :
      (fuel k : ℕ) (c r : Bytes)
      → length c < 2 ^ 16
      → parse_extensions_loop cb (suc fuel) (k ∷ (prefixed 2 c ++ r))
        ≡ (if k == 0 then parse_leaf_index cb c else parse_extensions_loop cb fuel r)
  unfolding parse_extensions_loop
  parse_extensions_loop_round fuel k c r hc = rw (
    cb.read_uint8_lem,
    read_be_one,
    cb.read_uint16_length_prefixed_lem,
    read_prefixed-prefixed 2 c r hc,
  )

  pub parse_leaf_index-be :
      (n : ℕ) → n < 2 ^ 40 → parse_leaf_index cb (be 5 n) ≡ ok (record { leaf_index = pos n })
  unfolding parse_leaf_index
  parse_leaf_index-be n h = rw (rw append-nil at (read_uint40-be n [] h))

  -- Extensions of unknown types are skipped, and the first leaf_index extension is parsed.
  parse_extensions_loop_known :
      (xs : List Unknown) (fuel : ℕ) (c r : Bytes)
      → length (encode xs) < fuel
      → All IsUnknown xs
      → length c < 2 ^ 16
      → parse_extensions_loop cb fuel (encode xs ++ (0 ∷ (prefixed 2 c ++ r)))
        ≡ parse_leaf_index cb c
  parse_extensions_loop_known xs zero c r f h k = absurd (omega arith)
  parse_extensions_loop_known [] (suc fuel) c r f h k = parse_extensions_loop_round fuel 0 c r k
  parse_extensions_loop_known (x ∷ xs) (suc fuel) c r f h k = rw append_assoc (
      parse_extensions_loop_round fuel x.kind x.content (encode xs ++ tail) h.0.2
      ∙ rw (nonzero x.kind h.0.0) (parse_extensions_loop_known xs fuel c r shorter h.1 k))
    where
      tail : Bytes
      tail = 0 ∷ (prefixed 2 c ++ r)

      shorter : length (encode xs) < fuel
      shorter = omega (arith, length-append (prefixed 2 x.content) (encode xs))

  parse_extensions_loop_unknown :
      (xs : List Unknown) (fuel : ℕ)
      → length (encode xs) ≤ fuel
      → All IsUnknown xs
      → parse_extensions_loop cb fuel (encode xs) ≡ err missing_leaf_index_extension
  parse_extensions_loop_unknown [] zero f h = unfold parse_extensions_loop in refl
  parse_extensions_loop_unknown [] (suc fuel) f h = unfold parse_extensions_loop in refl
  parse_extensions_loop_unknown (x ∷ xs) zero f h = absurd (omega arith)
  parse_extensions_loop_unknown (x ∷ xs) (suc fuel) f h =
      parse_extensions_loop_round fuel x.kind x.content (encode xs) h.0.2
      ∙ rw (nonzero x.kind h.0.0) (parse_extensions_loop_unknown xs fuel shorter h.1)
    where
      shorter : length (encode xs) ≤ fuel
      shorter = omega (arith, length-append (prefixed 2 x.content) (encode xs))

  -- The loop on input that a round of it takes apart.
  parse_leaf_index_in_range :
      (c : Bytes) (e : ExtensionsField)
      → All IsByte c
      → parse_leaf_index cb c ≡ ok e
      → (n : ℕ) × (e ≡ record { leaf_index = pos n }) × (n < 2 ^ 40) × (c ≡ be 5 n)
  unfolding parse_leaf_index
  parse_leaf_index_in_range c e bytes h = elim (Option-cases (read_uint40 cb c)) [
    | inl q ↦ cc (rw q at h)
    | inr ((i, []), q) ↦
        let (n, value, small, split) = read_uint40_split c [] i bytes q in
        (n, cc (rw q at h, value), small, split ∙ append-nil (be 5 n))
    | inr ((i, x ∷ l), q) ↦ cc (rw q at h)
  ]

  -- An extension at the head of some bytes, or the loop's error.
  abbrev Head : ℕ → Bytes → Type 0
  Head x s =
      (c : Bytes) × (r : Bytes) × (s ≡ prefixed 2 c ++ r)
      × (length c < 2 ^ 16)
      × All IsByte c
      × All IsByte r

  parse_extensions_loop_cases :
      (fuel x : ℕ) (s : Bytes)
      → All IsByte s
      → Head x s ⊎ (parse_extensions_loop cb (suc fuel) (x ∷ s) ≡ err invalid_extension)
  unfolding parse_extensions_loop
  parse_extensions_loop_cases fuel x s bytes = elim (Option-cases (read_prefixed 2 s)) [
    | inl e ↦ inr (rw (cb.read_uint8_lem, read_be_one, cb.read_uint16_length_prefixed_lem, e))
    | inr ((c, r), e) ↦
        let (split, small, low, rest) = read_prefixed_split 2 s bytes e in
        inl (c, r, split, small, low, rest)
  ]

  parse_extensions_loop_nil :
      (fuel : ℕ) → parse_extensions_loop cb fuel [] ≡ err missing_leaf_index_extension
  unfolding parse_extensions_loop
  parse_extensions_loop_nil zero = refl
  parse_extensions_loop_nil (suc fuel) = refl

  parse_extensions_loop_stuck : (x : ℕ) (s : Bytes) → parse_extensions_loop cb 0 (x ∷ s) ≡ panic
  unfolding parse_extensions_loop
  parse_extensions_loop_stuck x s = refl

  parse_extensions_loop_in_range :
      (fuel : ℕ) (s : Bytes) (e : ExtensionsField)
      → All IsByte s
      → parse_extensions_loop cb fuel s ≡ ok e
      → (n : ℕ) × (e ≡ record { leaf_index = pos n }) × (n < 2 ^ 40)
  parse_extensions_loop_in_range zero [] e bytes h = cc (parse_extensions_loop_nil 0)
  parse_extensions_loop_in_range (suc fuel) [] e bytes h = cc (parse_extensions_loop_nil (suc fuel))
  parse_extensions_loop_in_range zero (x ∷ s) e bytes h = cc (parse_extensions_loop_stuck x s)
  parse_extensions_loop_in_range (suc fuel) (x ∷ s) e bytes h =
      elim (parse_extensions_loop_cases fuel x s bytes.1) [
        | inr failed ↦ cc failed
        | inl (c, r, split, small, low, rest) ↦
            let round = rw (split, parse_extensions_loop_round fuel x c r small) at h in
            elim (if-eq-ok (x == 0) _ _ round) [
              | inl (_, parsed) ↦
                  let (n, value, bound, _) = parse_leaf_index_in_range c e low parsed in
                  (n, value, bound)
              | inr (_, later) ↦ parse_extensions_loop_in_range fuel r e rest later
            ]
      ]

  parse_leaf_index-ne-panic : (c : Bytes) → parse_leaf_index cb c ≢ panic
  unfolding parse_leaf_index
  parse_leaf_index-ne-panic c h = elim (Option-cases (read_uint40 cb c)) [
    | inl q ↦ cc (rw q at h)
    | inr ((i, []), q) ↦ cc (rw q at h)
    | inr ((i, x ∷ l), q) ↦ cc (rw q at h)
  ]

  parse_extensions_loop-ne-panic :
      (fuel : ℕ) (s : Bytes)
      → All IsByte s
      → length s ≤ fuel
      → parse_extensions_loop cb fuel s ≢ panic
  parse_extensions_loop-ne-panic zero [] bytes f h = cc (parse_extensions_loop_nil 0)
  parse_extensions_loop-ne-panic (suc fuel) [] bytes f h = cc (parse_extensions_loop_nil (suc fuel))
  parse_extensions_loop-ne-panic zero (x ∷ s) bytes f h = absurd (omega arith)
  parse_extensions_loop-ne-panic (suc fuel) (x ∷ s) bytes f h =
      elim (parse_extensions_loop_cases fuel x s bytes.1) [
        | inr failed ↦ cc failed
        | inl (c, r, split, small, low, rest) ↦
            let round = rw (split, parse_extensions_loop_round fuel x c r small) at h in
            let shorter : length r ≤ fuel =
              omega (arith, ap length split, length-append (prefixed 2 c) r) in
            elim (Bool-cases (x == 0)) [
              | inl known ↦ parse_leaf_index-ne-panic c (rw known at round)
              | inr other ↦ parse_extensions_loop-ne-panic fuel r rest shorter (rw other at round)
            ]
      ]

  -- Behind any extensions of unknown types, the first leaf_index extension is parsed, whatever
  -- follows it: what `marshal_extensions` wrote is read back.
  pub parse_extensions-marshal :
      (xs : List Unknown) (n : ℕ) (field r : Bytes)
      → All IsUnknown xs
      → marshal_extensions cb (record { leaf_index = pos n }) ≡ ok field
      → parse_extensions cb (encode xs ++ (field ++ r)) ≡ ok (record { leaf_index = pos n })
  unfolding parse_extensions
  parse_extensions-marshal xs n field r h written = elim (Bool-cases (in_range (pos n))) [
    | inr out ↦ cc (rw out at (marshal_extensions_eq cb (pos n)))
    | inl fits ↦
        let small = ltb→lt n (2 ^ 40) fits in
        let bytes : field ≡ 0 ∷ prefixed 2 (be 5 n) =
          cc (marshal_extensions_bytes cb n small, field-prefixed n) in
        rw bytes (
          parse_extensions_loop_known xs _ (be 5 n) r (room bytes) h (omega (arith, length-be 5 n))
          ∙ parse_leaf_index-be n small)
  ]
    where
      room :
          field ≡ 0 ∷ prefixed 2 (be 5 n)
          → length (encode xs) < length (encode xs ++ ((0 ∷ prefixed 2 (be 5 n)) ++ r))
      room e = omega (arith, length-append (encode xs) ((0 ∷ prefixed 2 (be 5 n)) ++ r))

  -- Extensions of unknown types alone are an error.
  pub parse_extensions_missing :
      (xs : List Unknown)
      → All IsUnknown xs
      → parse_extensions cb (encode xs) ≡ err missing_leaf_index_extension
  unfolding parse_extensions
  parse_extensions_missing xs h =
      parse_extensions_loop_unknown xs (length (encode xs)) (omega arith) h

  -- On any bytes the parser returns, without panic, and a result is an index of at most 40 bits.
  pub parse_extensions_total :
      (s : Bytes)
      → All IsByte s
      → ((n : ℕ) × (parse_extensions cb s ≡ ok (record { leaf_index = pos n })) × (n < 2 ^ 40))
        ⊎ ((e : CodecError) × (parse_extensions cb s ≡ err e))
  parse_extensions_total s bytes = elim (Outcome-cases (parse_extensions cb s)) [
    | inl (e, h) ↦
        let (n, value, bound) =
          parse_extensions_loop_in_range (length s) s e bytes (unfold parse_extensions in h) in
        inl (n, h ∙ ap ok value, bound)
    | inr (inl (e, h)) ↦ inr (e, h)
    | inr (inr h) ↦ absurd (
        parse_extensions_loop-ne-panic (length s) s bytes (omega arith)
          (unfold parse_extensions in h))
  ]

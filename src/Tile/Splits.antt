-- ===== src/Tile/Splits.antt =====
-- What the parts of `read_tile_leaf` have read, in terms of the bytes in front of the rest.
use sunlight.Prelude.{
  ℕ, zero, suc, ◌^◌, ◌<◌, ◌≡◌, refl, sym, ap, ◌∙◌, List, [], ◌∷◌, ◌++◌, true, false, not, ◌&&◌,
  length, All, All-append_right, ok, after_read, after_ok, after_guard, after_test, ◌==◌, arith,
  append-nil, ok-injective,
}
use sunlight.Prelude.Int.{ℤ, pos}
use sunlight.Errors.{
  invalid_extensions, invalid_x509_entry, invalid_precert_entry, invalid_fingerprints,
}
use sunlight.Cryptobyte.{Cryptobyte}
use sunlight.Cryptobyte.Wire.{Bytes, IsByte, be, take_exact_split}
use sunlight.Cryptobyte.Reading.{prefixed, read_be_split, read_prefixed_split}
use sunlight.Extensions.{is_empty, read_uint40}
use sunlight.Extensions.RoundTrip.{field-prefixed}
use sunlight.Extensions.Parsing.{read_uint40_split}
use sunlight.Tile.{LogEntry, Parts, read_x509, read_precert, read_leaf_index, read_fingerprints}
use sunlight.Tile.Layout.{concat}

extension_whole :
    (k n : ℕ) (s u c v w : Bytes)
    → s ≡ be 1 k ++ u
    → u ≡ prefixed 2 c ++ v
    → c ≡ be 5 n ++ w
    → not (k == 0) ≡ false
    → (is_empty w && is_empty v) ≡ true
    → s ≡ 0 ∷ 0 ∷ 5 ∷ be 5 n
extension_whole zero n s u c [] [] e₁ e₂ e₃ known done =
    e₁
    ∙ unfold be in
      ap (λ t. 0 ∷ t) (e₂ ∙ append-nil _ ∙ ap (prefixed 2) (e₃ ∙ append-nil (be 5 n)))
      ∙ sym (field-prefixed n)
extension_whole (suc k) n s u c [] [] e₁ e₂ e₃ known done = absurd (ground arith)
extension_whole k n s u c (x ∷ v) [] e₁ e₂ e₃ known done = cc
extension_whole k n s u c v (x ∷ w) e₁ e₂ e₃ known done = cc

module _ {Builder : Type 0} (cb : Cryptobyte Builder) where
  -- The extension holds the index, and nothing else.
  pub read_leaf_index_split :
      (s : Bytes) (i : ℤ)
      → All IsByte s
      → read_leaf_index cb s ≡ ok i
      → (n : ℕ) × (i ≡ pos n) × (n < 2 ^ 40) × (s ≡ 0 ∷ 0 ∷ 5 ∷ be 5 n)
  unfolding read_leaf_index
  read_leaf_index_split s i bytes h =
      after_read (cb.read_uint8 s) invalid_extensions _ h λ (k, u) read_kind h₁.
        after_guard (not (k == 0)) invalid_extensions _ h₁ λ known h₂.
          after_read (cb.read_uint16_length_prefixed u) invalid_extensions _ h₂
            λ (c, v) read_content h₃.
              after_read (read_uint40 cb c) invalid_extensions _ h₃ λ (j, w) read_index h₄.
                let (done, result) =
                  after_test (is_empty w && is_empty v) invalid_extensions j h₄ in
                let (split, _, rest) =
                  read_be_split 1 s bytes (rw cb.read_uint8_lem at read_kind) in
                let (split', _, low, _) =
                  read_prefixed_split 2 u rest
                    (rw cb.read_uint16_length_prefixed_lem at read_content) in
                let (n, value, small, whole) = read_uint40_split cb c w j low read_index in
                (
                  n,
                  cc (result, value),
                  small,
                  extension_whole k n s u c v w split split' whole known done,
                )

  pub read_fingerprints_split :
      (fuel : ℕ) (s : Bytes) (fs : List Bytes)
      → read_fingerprints cb fuel s ≡ ok fs
      → (s ≡ concat fs) × All (λ f. length f ≡ 32) fs
  unfolding read_fingerprints
  read_fingerprints_split zero [] fs h = rw (← ok-injective [] fs h) (refl, tt)
  read_fingerprints_split (suc fuel) [] fs h = rw (← ok-injective [] fs h) (refl, tt)
  read_fingerprints_split zero (x ∷ s) fs h = cc
  read_fingerprints_split (suc fuel) (x ∷ s) fs h =
      after_read (cb.copy_bytes (x ∷ s) 32) invalid_fingerprints _ h λ (f, u) copied h₁.
        after_ok (read_fingerprints cb fuel u) _ h₁ λ gs later h₂.
          let (split, size) = take_exact_split 32 (x ∷ s) f u (rw cb.copy_bytes_lem at copied) in
          let (rest, sizes) = read_fingerprints_split fuel u gs later in
          rw (← ok-injective (f ∷ gs) fs h₂) (split ∙ ap (λ t. f ++ t) rest, (size, sizes))

  -- What the switch has read, for each of the two types.
  pub read_x509_split :
      (e : LogEntry) (s : Bytes) (q : Parts)
      → All IsByte s
      → read_x509 cb e s ≡ ok q
      → (c : Bytes) × (q.entry ≡ record e { certificate = c })
        × (length c < 2 ^ 24)
        × (length q.extensions < 2 ^ 16)
        × (length q.fingerprints < 2 ^ 16)
        × All IsByte q.extensions
        × (s ≡ prefixed 3 c ++ (prefixed 2 q.extensions ++ (prefixed 2 q.fingerprints ++ q.left)))
  unfolding read_x509
  read_x509_split e s q bytes h =
      after_read (cb.read_uint24_length_prefixed s) invalid_x509_entry _ h λ (c, u) r₁ h₁.
        after_read (cb.read_uint16_length_prefixed u) invalid_x509_entry _ h₁ λ (x, v) r₂ h₂.
          after_read (cb.read_uint16_length_prefixed v) invalid_x509_entry _ h₂ λ (f, w) r₃ h₃.
            let (e₁, b₁, _, low₁) =
              read_prefixed_split 3 s bytes (rw cb.read_uint24_length_prefixed_lem at r₁) in
            let (e₂, b₂, low_x, low₂) =
              read_prefixed_split 2 u low₁ (rw cb.read_uint16_length_prefixed_lem at r₂) in
            let (e₃, b₃, _, _) =
              read_prefixed_split 2 v low₂ (rw cb.read_uint16_length_prefixed_lem at r₃) in
            rw (← ok-injective _ q h₃) (c, refl, b₁, b₂, b₃, low_x, e₁ ∙ rw (e₂, e₃))

  pub read_precert_split :
      (e : LogEntry) (s : Bytes) (q : Parts)
      → All IsByte s
      → read_precert cb e s ≡ ok q
      → (c k p : Bytes) × (q.entry ≡ record e {
        certificate = c;
        is_precert = true;
        issuer_key_hash = k;
        pre_certificate = p;
      })
        × (length k ≡ 32)
        × (length c < 2 ^ 24)
        × (length q.extensions < 2 ^ 16)
        × (length p < 2 ^ 24)
        × (length q.fingerprints < 2 ^ 16)
        × All IsByte q.extensions
        × (s
            ≡ k
              ++ (prefixed 3 c
                  ++ (prefixed 2 q.extensions
                      ++ (prefixed 3 p ++ (prefixed 2 q.fingerprints ++ q.left)))))
  unfolding read_precert
  read_precert_split e s q bytes h =
      after_read (cb.copy_bytes s 32) invalid_precert_entry _ h λ (k, t) r₀ h₀.
        after_read (cb.read_uint24_length_prefixed t) invalid_precert_entry _ h₀ λ (c, u) r₁ h₁.
          after_read (cb.read_uint16_length_prefixed u) invalid_precert_entry _ h₁ λ (x, v) r₂ h₂.
            after_read (cb.read_uint24_length_prefixed v) invalid_precert_entry _ h₂ λ (p, w) r₃ h₃.
              after_read (cb.read_uint16_length_prefixed w) invalid_precert_entry _ h₃
                λ (f, z) r₄ h₄.
                  let (e₀, size) = take_exact_split 32 s k t (rw cb.copy_bytes_lem at r₀) in
                  let low₀ = All-append_right IsByte k t (rw e₀ at bytes) in
                  let (e₁, b₁, _, low₁) =
                    read_prefixed_split 3 t low₀ (rw cb.read_uint24_length_prefixed_lem at r₁) in
                  let (e₂, b₂, low_x, low₂) =
                    read_prefixed_split 2 u low₁ (rw cb.read_uint16_length_prefixed_lem at r₂) in
                  let (e₃, b₃, _, low₃) =
                    read_prefixed_split 3 v low₂ (rw cb.read_uint24_length_prefixed_lem at r₃) in
                  let (e₄, b₄, _, _) =
                    read_prefixed_split 2 w low₃ (rw cb.read_uint16_length_prefixed_lem at r₄) in
                  rw (← ok-injective _ q h₄)
                    (c, k, p, refl, size, b₁, b₂, b₃, b₄, low_x, e₀ ∙ rw (e₁, e₂, e₃, e₄))

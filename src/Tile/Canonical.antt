-- ===== src/Tile/Canonical.antt =====
-- `read_tile_leaf` accepts only what `append_tile_leaf` writes.
use sunlight.Prelude.{
  ℕ, ◌^◌, ◌≤◌, ◌<◌, ◌≡◌, refl, sym, ap, List, [], ◌∷◌, ◌++◌, true, false, length, replicate, All,
  ok, after_read, after_ok, after_guard, ltb, ◌==◌, arith, ◌⊎◌, ==_iff, if-eq-ok, inl, inr,
  ok-injective,
}
use sunlight.Prelude.Int.{ℤ, pos}
use sunlight.Errors.{invalid_data_tile}
use sunlight.Cryptobyte.{Cryptobyte}
use sunlight.Cryptobyte.Wire.{Bytes, IsByte, be}
use sunlight.Cryptobyte.Reading.{prefixed, read_be_split}
use sunlight.Tile.{
  LogEntry, Parts, max_int64, empty_entry, append_tile_leaf, read_x509, read_precert, read_entry,
  read_leaf_index, read_fingerprints, read_tile_leaf,
}
use sunlight.Tile.Layout.{concat, leaf_bytes, is_encodable, append_tile_leaf_eq}
use sunlight.Tile.Splits.{
  read_leaf_index_split, read_fingerprints_split, read_x509_split, read_precert_split,
}
use sunlight.Tile.RoundTrip.{IsEntry, normal, entry, mod_id, regroup_x509, regroup_precert}

module _ {Builder : Type 0} (cb : Cryptobyte Builder) where
  -- The switch knows two types.
  read_entry_inversion :
      (k : ℕ) (e : LogEntry) (s : Bytes) (q : Parts)
      → read_entry cb k e s ≡ ok q
      → ((k ≡ 0) × (read_x509 cb e s ≡ ok q)) ⊎ ((k ≡ 1) × (read_precert cb e s ≡ ok q))
  read_entry_inversion k e s q h =
      unfold read_entry in
      elim (if-eq-ok (k == 0) _ _ h) [
        | inl (test, x509) ↦ inl ((==_iff k 0).0 test, x509)
        | inr (_, other) ↦ elim (if-eq-ok (k == 1) _ _ other) [
          | inl (test, precert) ↦ inr ((==_iff k 1).0 test, precert)
          | inr (_, unknown) ↦ cc
        ]
      ]

  -- A result of the reader: an entry whose bytes were the read ones.
  abbrev Reads : Bytes → LogEntry → Bytes → Type 0
  Reads s e r = IsEntry e × (is_encodable e ≡ true) × (normal e ≡ e) × (s ≡ leaf_bytes e ++ r)

  -- The two types, behind the timestamp and the type.
  x509_whole :
      (t n : ℕ) (c r : Bytes) (fs : List Bytes)
      → t ≤ max_int64
      → n < 2 ^ 40
      → length c < 2 ^ 24
      → length (concat fs) < 2 ^ 16
      → All (λ f. length f ≡ 32) fs
      → Reads
          (be 8 t
            ++ (be 2 0
                ++ (prefixed 3 c
                    ++ (prefixed 2 (0 ∷ 0 ∷ 5 ∷ be 5 n) ++ (prefixed 2 (concat fs) ++ r)))))
          (entry c false (replicate 32 0) fs [] n t)
          r
  x509_whole t n c r fs ht hn hc hf hs = (
    record { time = t; timestamp = refl; time_fits = ht; hash = refl; fingerprints = hs },
    ground arith,
    refl,
    rw (mod_id t (omega arith), mod_id n (omega arith))
        (sym (regroup_x509 (be 8 t) (be 2 0) (prefixed 3 c) _ (prefixed 2 (concat fs)) r)),
  )

  precert_whole :
      (t n : ℕ) (c k p r : Bytes) (fs : List Bytes)
      → t ≤ max_int64
      → n < 2 ^ 40
      → length k ≡ 32
      → length c < 2 ^ 24
      → length p < 2 ^ 24
      → length (concat fs) < 2 ^ 16
      → All (λ f. length f ≡ 32) fs
      → Reads
          (be 8 t
            ++ (be 2 1
                ++ (k
                    ++ (prefixed 3 c
                        ++ (prefixed 2 (0 ∷ 0 ∷ 5 ∷ be 5 n)
                            ++ (prefixed 3 p ++ (prefixed 2 (concat fs) ++ r)))))))
          (entry c true k fs p n t)
          r
  precert_whole t n c k p r fs ht hn hk hc hp hf hs = (
    record { time = t; timestamp = refl; time_fits = ht; hash = hk; fingerprints = hs },
    ground arith,
    refl,
    rw (mod_id t (omega arith), mod_id n (omega arith))
        (sym (
          regroup_precert (be 8 t) (be 2 1) k (prefixed 3 c) _ (prefixed 3 p)
            (prefixed 2 (concat fs)) r)),
  )

  x509_accepted :
      (t : ℕ) (s : Bytes) (q : Parts) (i : ℤ) (fs : List Bytes)
      → All IsByte s
      → t ≤ max_int64
      → read_x509 cb (record empty_entry { timestamp = pos t }) s ≡ ok q
      → read_leaf_index cb q.extensions ≡ ok i
      → read_fingerprints cb (length q.fingerprints) q.fingerprints ≡ ok fs
      → Reads
          (be 8 t ++ (be 2 0 ++ s))
          (record q.entry { leaf_index = i; chain_fingerprints = fs })
          q.left
  x509_accepted t s q i fs bytes ht read_parts read_index read_hashes =
      let (c, shape, hc, _, hf, low, split) = read_x509_split cb _ s q bytes read_parts in
      let (n, index, hn, field) = read_leaf_index_split cb q.extensions i low read_index in
      let (hashes, sizes) = read_fingerprints_split cb _ q.fingerprints fs read_hashes in
      rw (split, shape, index, field, hashes)
        (x509_whole t n c q.left fs ht hn hc (rw hashes at hf) sizes)

  precert_accepted :
      (t : ℕ) (s : Bytes) (q : Parts) (i : ℤ) (fs : List Bytes)
      → All IsByte s
      → t ≤ max_int64
      → read_precert cb (record empty_entry { timestamp = pos t }) s ≡ ok q
      → read_leaf_index cb q.extensions ≡ ok i
      → read_fingerprints cb (length q.fingerprints) q.fingerprints ≡ ok fs
      → Reads
          (be 8 t ++ (be 2 1 ++ s))
          (record q.entry { leaf_index = i; chain_fingerprints = fs })
          q.left
  precert_accepted t s q i fs bytes ht read_parts read_index read_hashes =
      let (c, k, p, shape, hk, hc, _, hp, hf, low, split) =
        read_precert_split cb _ s q bytes read_parts in
      let (n, index, hn, field) = read_leaf_index_split cb q.extensions i low read_index in
      let (hashes, sizes) = read_fingerprints_split cb _ q.fingerprints fs read_hashes in
      rw (split, shape, index, field, hashes)
        (precert_whole t n c k p q.left fs ht hn hk hc hp (rw hashes at hf) sizes)

  accepted :
      (t s r : Bytes) (e e' : LogEntry) (r' : Bytes)
      → ◌≡◌ {A = LogEntry × Bytes} (e', r') (e, r)
      → Reads s e' r'
      → IsEntry e
        × (normal e ≡ e)
        × (p : Bytes) × (append_tile_leaf cb t e ≡ ok (t ++ p))
        × (s ≡ p ++ r)
  accepted t s r e e' r' same (typed, fits, plain, split) =
      rw (← ap (λ x. x.0) same, ← ap (λ x. x.1) same)
        (typed, plain, leaf_bytes e', rw (append_tile_leaf_eq cb t e', fits), split)

  -- The switch went by the type that was read.
  read_entry_accepted :
      (t k : ℕ) (s : Bytes) (q : Parts) (i : ℤ) (fs : List Bytes)
      → All IsByte s
      → t ≤ max_int64
      → read_entry cb k (record empty_entry { timestamp = pos t }) s ≡ ok q
      → read_leaf_index cb q.extensions ≡ ok i
      → read_fingerprints cb (length q.fingerprints) q.fingerprints ≡ ok fs
      → Reads
          (be 8 t ++ (be 2 k ++ s))
          (record q.entry { leaf_index = i; chain_fingerprints = fs })
          q.left
  read_entry_accepted t k s q i fs bytes ht switch index hashes =
      elim (read_entry_inversion k (record empty_entry { timestamp = pos t }) s q switch) [
        | inl (zero_type, x509) ↦ rw zero_type (x509_accepted t s q i fs bytes ht x509 index hashes)
        | inr (one_type, precert) ↦
            rw one_type (precert_accepted t s q i fs bytes ht precert index hashes)
      ]

  -- Whatever bytes `read_tile_leaf` accepts, they begin with those that `append_tile_leaf` appends
  -- to a tile for the entry that was read, and the rest is what was left: each entry has one form.
  -- The entry has a timestamp that is not negative, arrays of 32 bytes, and, if it is a final
  -- certificate, no issuer key hash and no precertificate; it may have chain fingerprints.
  pub append-read_tile_leaf :
      (t s r : Bytes) (e : LogEntry)
      → All IsByte s
      → read_tile_leaf cb s ≡ ok (e, r)
      → IsEntry e
        × (normal e ≡ e)
        × (p : Bytes) × (append_tile_leaf cb t e ≡ ok (t ++ p))
        × (s ≡ p ++ r)
  unfolding read_tile_leaf
  append-read_tile_leaf tile s r e bytes h =
      after_read (cb.read_uint64 s) invalid_data_tile _ h λ (t, u) r₁ h₁.
        after_read (cb.read_uint16 u) invalid_data_tile _ h₁ λ (k, v) r₂ h₂.
          after_guard (ltb max_int64 t) invalid_data_tile _ h₂ λ small h₃.
            after_ok (read_entry cb k (record empty_entry { timestamp = pos t }) v) _ h₃ λ q r₃ h₄.
              after_ok (read_leaf_index cb q.extensions) _ h₄ λ i r₄ h₅.
                after_ok (read_fingerprints cb (length q.fingerprints) q.fingerprints) _ h₅
                  λ fs r₅ h₆.
                    let (e₁, _, low₁) = read_be_split 8 s bytes (rw cb.read_uint64_lem at r₁) in
                    let (e₂, _, low₂) = read_be_split 2 u low₁ (rw cb.read_uint16_lem at r₂) in
                    accepted tile s r e _ q.left (ok-injective _ _ h₆)
                      (rw (e₁, e₂) (read_entry_accepted t k v q i fs low₂ (ground arith) r₃ r₄ r₅))

-- ===== src/Tile/RoundTrip.antt =====
-- What `append_tile_leaf` writes, `read_tile_leaf` reads.
use sunlight.Prelude.{
  ℕ, zero, suc, ◌%◌, ◌^◌, ◌≤◌, ◌<◌, ◌≡◌, refl, sym, ap, subst, ◌∙◌, List, [], ◌∷◌, ◌++◌, Bool, true,
  false, length, replicate, All, ok, if◌then◌else◌, arith, le→ltb, append_assoc, append-nil,
  length-append, some,
}
use sunlight.Prelude.Int.{ℤ, pos, negsuc}
use sunlight.Cryptobyte.{Cryptobyte}
use sunlight.Cryptobyte.Wire.{Bytes, be, length-be}
use sunlight.Cryptobyte.Reading.{
  prefixed, take_exact-append_at, read_be-be, read_be_one, read_prefixed-prefixed,
}
use sunlight.Extensions.{in_range, read_uint40}
use sunlight.Extensions.RoundTrip.{field-prefixed}
use sunlight.Extensions.Parsing.{read_uint40-be}
use sunlight.Tile.{
  LogEntry, max_int64, empty_entry, append_tile_leaf, read_x509, read_precert, read_entry,
  read_leaf_index, read_fingerprints, read_tile_leaf,
}
use sunlight.Tile.Layout.{concat, leaf_bytes, is_encodable, append_tile_leaf_inversion}

-- What Go's types say of an entry that the log builds: the arrays have 32 bytes, and the
-- timestamp is an int64 that is not negative.
pub record IsEntry (e : LogEntry) : Type 0 where
  pub time : ℕ
  pub timestamp : e.timestamp ≡ pos time
  pub time_fits : time ≤ max_int64
  pub hash : length e.issuer_key_hash ≡ 32
  pub fingerprints : All (λ f. length f ≡ 32) e.chain_fingerprints

-- The entry as it is read back: without the two fields that are written for precertificates only. A
-- final certificate keeps its chain fingerprints, which tile.go:36 counts among the fields that are
-- ignored for it, although they are written for every entry.
abbrev pub normal : LogEntry → LogEntry
normal e =
    if e.is_precert then e else record e { issuer_key_hash = replicate 32 0; pre_certificate = [] }

abbrev pub entry : Bytes → Bool → Bytes → List Bytes → Bytes → ℕ → ℕ → LogEntry
entry c b k fs p n t = record {
  certificate = c;
  is_precert = b;
  issuer_key_hash = k;
  chain_fingerprints = fs;
  pre_certificate = p;
  leaf_index = pos n;
  timestamp = pos t;
}

in_range_pos : (i : ℤ) → in_range i ≡ true → (n : ℕ) × (i ≡ pos n)
in_range_pos (pos n) h = (n, refl)
in_range_pos (negsuc n) h = cc

-- What `is_encodable` says of the parts.
fits_parts :
    (c k p : Bytes) (fs : List Bytes) (n t : ℕ) (b : Bool)
    → is_encodable (entry c b k fs p n t) ≡ true
    → (length c < 2 ^ 24)
      × (n < 2 ^ 40)
      × (b ≡ true → length p < 2 ^ 24)
      × (length (concat fs) < 2 ^ 16)
fits_parts c k p fs n t false h = (ground arith, ground arith, λ e. cc, ground arith)
fits_parts c k p fs n t true h = (ground arith, ground arith, λ e. ground arith, ground arith)

pub mod_id : (n : ℕ) → n < 2 ^ 64 → n % 2 ^ 64 ≡ n
mod_id n h = omega arith

pub regroup_x509 :
    (a b c d e r : Bytes)
    → ((a ++ ((b ++ c) ++ (d ++ ([] ++ e)))) ++ r) ≡ a ++ (b ++ (c ++ (d ++ (e ++ r))))
regroup_x509 a b c d e r = simp append_assoc

pub regroup_precert :
    (a b k c d e f r : Bytes)
    → ((a ++ ((b ++ (k ++ c)) ++ (d ++ (e ++ f)))) ++ r)
      ≡ a ++ (b ++ (k ++ (c ++ (d ++ (e ++ (f ++ r))))))
regroup_precert a b k c d e f r = simp append_assoc

module _ {Builder : Type 0} (cb : Cryptobyte Builder) where
  read_fingerprints-concat :
      (fuel : ℕ) (fs : List Bytes)
      → All (λ f. length f ≡ 32) fs
      → length (concat fs) ≤ fuel
      → read_fingerprints cb fuel (concat fs) ≡ ok fs
  unfolding read_fingerprints
  read_fingerprints-concat zero [] h b = refl
  read_fingerprints-concat (suc fuel) [] h b = refl
  read_fingerprints-concat fuel ([] ∷ fs) h b = absurd (omega arith)
  read_fingerprints-concat zero ((x ∷ f) ∷ fs) h b = absurd (omega arith)
  read_fingerprints-concat (suc fuel) ((x ∷ f) ∷ fs) h b = rw (
    cb.copy_bytes_lem,
    take_exact-append_at 32 (x ∷ f) (concat fs) h.0,
    read_fingerprints-concat fuel fs h.1 (omega (arith, length-append f (concat fs))),
  )

  read_leaf_index_lem : (n : ℕ) → n < 2 ^ 40 → read_leaf_index cb (0 ∷ 0 ∷ 5 ∷ be 5 n) ≡ ok (pos n)
  read_leaf_index_lem n h =
      rw (field-prefixed n, ← append-nil (prefixed 2 (be 5 n)))
        (unfold read_leaf_index in
          rw (
            cb.read_uint8_lem,
            read_be_one,
            cb.read_uint16_length_prefixed_lem,
            read_prefixed-prefixed 2 (be 5 n) [] (omega (arith, length-be 5 n)),
            read_whole,
          ))
    where
      read_whole : read_uint40 cb (be 5 n) ≡ some (pos n, [])
      read_whole = rw append-nil at (read_uint40-be cb n [] h)

  module _ (e : LogEntry) (c x p f s : Bytes) where
    read_entry_x509 :
        length c < 2 ^ 24
        → length x < 2 ^ 16
        → length f < 2 ^ 16
        → read_entry cb 0 e (prefixed 3 c ++ (prefixed 2 x ++ (prefixed 2 f ++ s)))
          ≡ ok (record {
            entry = record e { certificate = c };
            extensions = x;
            fingerprints = f;
            left = s;
          })
    read_entry_x509 hc hx hf =
        unfold read_entry read_x509 in
        rw (
          cb.read_uint24_length_prefixed_lem,
          read_prefixed-prefixed 3 c _ hc,
          cb.read_uint16_length_prefixed_lem,
          read_prefixed-prefixed 2 x _ hx,
          cb.read_uint16_length_prefixed_lem,
          read_prefixed-prefixed 2 f s hf,
        )

    read_entry_precert :
        (k : Bytes)
        → length k ≡ 32
        → length c < 2 ^ 24
        → length x < 2 ^ 16
        → length p < 2 ^ 24
        → length f < 2 ^ 16
        → read_entry cb 1 e
            (k ++ (prefixed 3 c ++ (prefixed 2 x ++ (prefixed 3 p ++ (prefixed 2 f ++ s)))))
          ≡ ok (record {
            entry = record e {
              certificate = c;
              is_precert = true;
              issuer_key_hash = k;
              pre_certificate = p;
            };
            extensions = x;
            fingerprints = f;
            left = s;
          })
    read_entry_precert k hk hc hx hp hf =
        unfold read_entry read_precert in
        rw (
          cb.copy_bytes_lem,
          take_exact-append_at 32 k _ hk,
          cb.read_uint24_length_prefixed_lem,
          read_prefixed-prefixed 3 c _ hc,
          cb.read_uint16_length_prefixed_lem,
          read_prefixed-prefixed 2 x _ hx,
          cb.read_uint24_length_prefixed_lem,
          read_prefixed-prefixed 3 p _ hp,
          cb.read_uint16_length_prefixed_lem,
          read_prefixed-prefixed 2 f s hf,
        )

  -- The common part of `read_tile_leaf`, before and behind the switch.
  read_tile_leaf_parts :
      (t k n : ℕ) (s x f r : Bytes) (fs : List Bytes) (e : LogEntry)
      → t ≤ max_int64
      → k < 2 ^ 16
      → n < 2 ^ 40
      → All (λ f. length f ≡ 32) fs
      → read_entry cb k (record empty_entry { timestamp = pos t }) s
        ≡ ok (record {
          entry = e;
          extensions = 0 ∷ 0 ∷ 5 ∷ be 5 n;
          fingerprints = concat fs;
          left = r;
        })
      → read_tile_leaf cb (be 8 t ++ (be 2 k ++ s))
        ≡ ok (record e { leaf_index = pos n; chain_fingerprints = fs }, r)
  read_tile_leaf_parts t k n s x f r fs e ht hk hn hf switch =
      unfold read_tile_leaf in
      rw (
        cb.read_uint64_lem,
        read_be-be 8 t _ (omega arith),
        cb.read_uint16_lem,
        read_be-be 2 k s hk,
        le→ltb max_int64 t ht,
        switch,
        read_leaf_index_lem n hn,
        read_fingerprints-concat (length (concat fs)) fs hf (omega arith),
      )

  module _ (c k p r : Bytes) (fs : List Bytes) (n t : ℕ) where
    read-leaf_bytes :
        (b : Bool)
        → t ≤ max_int64
        → length k ≡ 32
        → All (λ f. length f ≡ 32) fs
        → is_encodable (entry c b k fs p n t) ≡ true
        → read_tile_leaf cb (leaf_bytes (entry c b k fs p n t) ++ r)
          ≡ ok (normal (entry c b k fs p n t), r)
    read-leaf_bytes false ht hk hf fits =
        let (hc, hn, _, hs) = fits_parts c k p fs n t false fits in
        rw (mod_id t (omega arith), mod_id n (omega arith))
          (ap (read_tile_leaf cb)
              (regroup_x509 (be 8 t) (be 2 0) (prefixed 3 c) (prefixed 2 x) (prefixed 2 f) r)
            ∙ read_tile_leaf_parts t 0 n _ x f r fs _ ht (omega arith) hn hf
                (read_entry_x509 _ c x p f r hc hx hs))
      where
        x : Bytes
        x = 0 ∷ 0 ∷ 5 ∷ be 5 n

        f : Bytes
        f = concat fs

        hx : length x < 2 ^ 16
        hx = omega (arith, length-be 5 n)
    read-leaf_bytes true ht hk hf fits =
        let (hc, hn, hp, hs) = fits_parts c k p fs n t true fits in
        rw (mod_id t (omega arith), mod_id n (omega arith))
          (ap (read_tile_leaf cb) (
              regroup_precert (be 8 t) (be 2 1) k (prefixed 3 c) (prefixed 2 x) (prefixed 3 p)
                (prefixed 2 f) r)
            ∙ read_tile_leaf_parts t 1 n _ x f r fs _ ht (omega arith) hn hf
                (read_entry_precert _ c x p f r k hk hc hx (hp refl) hs))
      where
        x : Bytes
        x = 0 ∷ 0 ∷ 5 ∷ be 5 n

        f : Bytes
        f = concat fs

        hx : length x < 2 ^ 16
        hx = omega (arith, length-be 5 n)

  pub read-leaf_bytes_entry :
      (r : Bytes) (e : LogEntry)
      → IsEntry e
      → is_encodable e ≡ true
      → read_tile_leaf cb (leaf_bytes e ++ r) ≡ ok (normal e, r)
  read-leaf_bytes_entry r e typed fits =
      let (n, index) = in_range_pos e.leaf_index (ground arith) in
      let plain : LogEntry =
        entry e.certificate e.is_precert e.issuer_key_hash e.chain_fingerprints e.pre_certificate n
          typed.time in
      let same : e ≡ plain =
        λ i. record e { leaf_index = index i; timestamp = typed.timestamp i } in
      subst (λ z. read_tile_leaf cb (leaf_bytes z ++ r) ≡ ok (normal z, r)) (sym same)
        (read-leaf_bytes e.certificate e.issuer_key_hash e.pre_certificate r e.chain_fingerprints n
          typed.time e.is_precert typed.time_fits typed.hash typed.fingerprints
          (subst (λ z. is_encodable z ≡ true) same fits))

  -- A tile that grew by an entry, whose timestamp is not negative and whose arrays have 32 bytes,
  -- is the old tile and some bytes; in front of any further bytes these read back as the entry, its
  -- chain fingerprints included, but for a final certificate with no issuer key hash and no
  -- precertificate.
  pub read-append_tile_leaf :
      (t r tile : Bytes) (e : LogEntry)
      → IsEntry e
      → append_tile_leaf cb t e ≡ ok tile
      → (p : Bytes) × (tile ≡ t ++ p) × (read_tile_leaf cb (p ++ r) ≡ ok (normal e, r))
  read-append_tile_leaf t r tile e typed written =
      let (fits, grown) = append_tile_leaf_inversion cb t tile e written in
      (leaf_bytes e, grown, read-leaf_bytes_entry r e typed fits)

-- ===== src/Ctlog/Entries/Hits.antt =====
-- A leaf that was put in the deduplication cache (cache.go) is found there, at its index and timestamp.
use sunlight.Prelude.{
  ℕ, ◌≡◌, refl, sym, ◌∙◌, ap, List, [], ◌∷◌, ◌++◌, Option, none, some, Bool-cases, Option-cases,
  Outcome, ok, err, panic, inl, inr, ok-injective, >>=-eq-ok,
}
use sunlight.Prelude.Int.{pos_part}
use sunlight.Prelude.Maps.{bytes_beq, bytes_beq_iff}
use sunlight.Errors.{LogError, cache_failed}
use sunlight.Cryptobyte.{Cryptobyte}
use sunlight.Cryptobyte.Wire.{Bytes}
use sunlight.Tile.{LogEntry}
use sunlight.Ctlog.World.{World, CacheRow, call, ask, perform, first_fault, rest_faults}
use sunlight.Ctlog.World.Frames.{perform_cases}
use sunlight.Ctlog.Types.{PendingLogEntry}
use sunlight.Ctlog.Entries.{
  as_log_entry, select_row, insert_rows, commit_rows, put_rows, compute_cache_hash, cache_get,
  cache_rows, cache_put,
}

-- A row at the end of the table is found, if its key is new, and hides no other.
select_row_last :
    (r : CacheRow) (t : List CacheRow)
    → select_row r.key t ≡ none
    → select_row r.key (t ++ r ∷ []) ≡ some r
unfolding select_row
select_row_last r [] h = rw ((bytes_beq_iff r.key r.key).1 refl) refl
select_row_last r (x ∷ t) h = elim (Bool-cases (bytes_beq x.key r.key)) [
  | inl same ↦ absurd (cc (rw (same) at h))
  | inr other ↦ rw (other) (select_row_last r t (rw (other) at h))
]

select_row_kept :
    (k : Bytes) (x r : CacheRow) (t : List CacheRow)
    → select_row k t ≡ some x
    → select_row k (t ++ r ∷ []) ≡ some x
unfolding select_row
select_row_kept k x r [] h = absurd (cc h)
select_row_kept k x r (y ∷ t) h = elim (Bool-cases (bytes_beq y.key k)) [
  | inl same ↦ rw (same) (rw (same) at h)
  | inr other ↦ rw (other) (select_row_kept k x r t (rw (other) at h))
]

if_absent :
    (found : Option CacheRow) (rest : Option (List CacheRow)) {t' : List CacheRow}
    → (elim found [ none ↦ rest | some old ↦ none ]) ≡ some t'
    → (found ≡ none) × (rest ≡ some t')
if_absent none rest h = (refl, h)
if_absent (some old) rest h = absurd (cc h)

-- An insertion takes place where the key is new.
insert_rows-some :
    (r : CacheRow) (rows t : List CacheRow) {t' : List CacheRow}
    → insert_rows (r ∷ rows) t ≡ some t'
    → (select_row r.key t ≡ none) × (insert_rows rows (t ++ r ∷ []) ≡ some t')
unfolding insert_rows
insert_rows-some r rows t h = if_absent (select_row r.key t) _ h

insert_rows_kept :
    (k : Bytes) (x : CacheRow) (rows t : List CacheRow) {t' : List CacheRow}
    → insert_rows rows t ≡ some t'
    → select_row k t ≡ some x
    → select_row k t' ≡ some x
unfolding insert_rows
insert_rows_kept k x [] t {t'} h found =
    let same : t ≡ t' = cc h in ap (select_row k) (sym same) ∙ found
insert_rows_kept k x (r ∷ rows) t h found =
    insert_rows_kept k x rows (t ++ r ∷ []) (insert_rows-some r rows t h).1
      (select_row_kept k x r t found)

insert_rows_found :
    (before : List CacheRow) (r : CacheRow) (after t : List CacheRow) {t' : List CacheRow}
    → insert_rows (before ++ r ∷ after) t ≡ some t'
    → select_row r.key t' ≡ some r
insert_rows_found [] r after t h =
    let (absent, rest) = insert_rows-some r after t h in
    insert_rows_kept r.key r after (t ++ r ∷ []) rest (select_row_last r t absent)
insert_rows_found (b ∷ before) r after t h =
    insert_rows_found before r after (t ++ b ∷ []) (insert_rows-some b _ t h).1

-- A transaction that succeeds leaves the table with its insertions.
put_rows-ok :
    (rows : List CacheRow) (w : World) {x : Unit {0}} {w' : World}
    → put_rows (ok rows) w ≡ (ok x, w')
    → insert_rows rows w.cache ≡ some w'.cache
unfolding put_rows commit_rows call
put_rows-ok rows w {x} {w'} h = elim (Option-cases (insert_rows rows w.cache)) [
  | inl failed ↦ absurd (cc (ap (λ y. y.0) (rw (failed) at h)))
  | inr (table, e) ↦
      e
      ∙ ap some (
          perform_cases (λ v. record v { cache = table }) cache_failed
            (λ y. y ≡ (ok x, w') → table ≡ w'.cache) (record w { faults = rest_faults w.faults })
            (first_fault w.faults) (λ k. ap (λ y. y.1.cache) k) (λ k. absurd (cc (ap (λ y. y.0) k)))
            (λ k. absurd (cc (ap (λ y. y.0) k))) (λ k. absurd (cc (ap (λ y. y.0) k)))
            (λ k. absurd (cc (ap (λ y. y.0) k))) (rw (e) at h))
]

-- The row of an entry, under its hash
abbrev row_of : Bytes → LogEntry → CacheRow
row_of h e = record {
  key = h;
  timestamp = pos_part e.timestamp;
  leaf_index = pos_part e.leaf_index;
}

module _ {Builder : Type 0} (cb : Cryptobyte Builder) (sha256 : Bytes → Bytes) where
  cache_rows-append :
      (before : List LogEntry) (e : LogEntry) (after : List LogEntry) (rows : List CacheRow)
      → cache_rows cb sha256 (before ++ e ∷ after) ≡ ok rows
      → (h : Bytes) × (rows₀ : List CacheRow) × (rows₁ : List CacheRow) × (compute_cache_hash cb
            sha256 e.certificate e.is_precert e.issuer_key_hash
          ≡ ok h)
        × (rows ≡ rows₀ ++ row_of h e ∷ rows₁)
  unfolding cache_rows
  cache_rows-append [] e after rows made =
      let (h, hash, k) =
        >>=-eq-ok (compute_cache_hash cb sha256 e.certificate e.is_precert e.issuer_key_hash) _
          made in
      let (rest, _, done) = >>=-eq-ok (cache_rows cb sha256 after) _ k in
      (h, [], rest, hash, sym (ok-injective _ _ done))
  cache_rows-append (b ∷ before) e after rows made =
      let (g, _, k) =
        >>=-eq-ok (compute_cache_hash cb sha256 b.certificate b.is_precert b.issuer_key_hash) _
          made in
      let (rest, others, done) = >>=-eq-ok (cache_rows cb sha256 (before ++ e ∷ after)) _ k in
      let (h, rows₀, rows₁, hash, split) = cache_rows-append before e after rest others in
      (
        h,
        row_of g b ∷ rows₀,
        rows₁,
        hash,
        sym (ok-injective _ _ done) ∙ ap (λ r. row_of g b ∷ r) split,
      )

  -- The entries of a batch that were put in the cache without error are found there: a query that
  -- works, for a leaf of the batch, gives the entry of that leaf, with the index and the timestamp that
  -- it was sequenced with.
  pub cache_get-cache_put :
      (before after : List LogEntry) (leaf : PendingLogEntry) (idx timestamp : ℕ) (w w' : World)
      (x : Unit {0})
      → cache_put cb sha256 (before ++ as_log_entry sha256 leaf idx timestamp ∷ after) w
        ≡ (ok x, w')
      → (cache_get cb sha256 leaf (record w' { faults = [] })).0
        ≡ ok (some (as_log_entry sha256 leaf idx timestamp))
  unfolding cache_put cache_get as_log_entry ask call perform
  cache_get-cache_put before after leaf idx timestamp w w' x h =
      of_rows (cache_rows cb sha256 entries) refl h
    where
      entries : List LogEntry
      entries = before ++ as_log_entry sha256 leaf idx timestamp ∷ after

      of_rows :
          (r : Outcome LogError (List CacheRow))
          → cache_rows cb sha256 entries ≡ r
          → put_rows r w ≡ (ok x, w')
          → (cache_get cb sha256 leaf (record w' { faults = [] })).0
            ≡ ok (some (as_log_entry sha256 leaf idx timestamp))
      of_rows (ok rows) made put =
          let (k, rows₀, rows₁, hash, split) =
            cache_rows-append before (as_log_entry sha256 leaf idx timestamp) after rows made in
          let found =
            insert_rows_found rows₀ _ rows₁ w.cache
              (ap (λ r. insert_rows r w.cache) (sym split) ∙ put_rows-ok rows w put) in
          rw (hash, found) refl
      of_rows (err e) made put = absurd (cc (ap (λ y. y.0) put))
      of_rows panic made put = absurd (cc (ap (λ y. y.0) put))

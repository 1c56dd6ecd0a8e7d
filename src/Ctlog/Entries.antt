-- ===== src/Ctlog/Entries.antt =====
-- Pending entries, their cache hash, and the deduplication cache (ctlog.go, cache.go).
pub mod Hits
use sunlight.Prelude.{
  ℕ, ◌-◌, ◌==◌, List, [], ◌∷◌, ◌++◌, Option, none, some, Bool, Outcome, ok, err, panic, map,
  if◌then◌else◌, and_then,
}
use sunlight.Prelude.Int.{pos, pos_part}
use sunlight.Prelude.Maps.{bytes_beq}
use sunlight.Errors.{LogError, cache_failed}
use sunlight.Cryptobyte.{Cryptobyte}
use sunlight.Cryptobyte.Wire.{Bytes}
use sunlight.Tile.{LogEntry, add_signed_entry}
use sunlight.Ctlog.Action.{Act, ◌>>=◌, lift, of_codec}
use sunlight.Ctlog.World.{World, CacheRow, call, ask}
use sunlight.Ctlog.Types.{PendingLogEntry}

-- The first `n` bytes.
unfoldable pub prefix_of : ℕ → Bytes → Bytes
prefix_of n [] = []
prefix_of n (x ∷ s) = let rest = prefix_of (n - 1) s in if n == 0 then [] else x ∷ rest

-- `asLogEntry`
unfoldable pub as_log_entry : (Bytes → Bytes) → PendingLogEntry → ℕ → ℕ → LogEntry
as_log_entry sha256 e idx timestamp = record {
  certificate = e.certificate;
  is_precert = e.is_precert;
  issuer_key_hash = e.issuer_key_hash;
  chain_fingerprints = map sha256 e.issuers;
  pre_certificate = e.pre_certificate;
  leaf_index = pos idx;
  timestamp = pos timestamp;
}

-- The row of a key in the table.
unfoldable pub select_row : Bytes → List CacheRow → Option CacheRow
select_row key [] = none
select_row key (r ∷ rs) = if bytes_beq r.key key then some r else select_row key rs

-- The rows of an insertion, one after the other; a key that is there already is an error.
unfoldable pub insert_rows : List CacheRow → List CacheRow → Option (List CacheRow)
unfolding select_row
insert_rows [] table = some table
insert_rows (r ∷ rs) table =
    let rest = insert_rows rs (table ++ r ∷ []) in
    elim (select_row r.key table) [ none ↦ rest | some old ↦ none ]

-- The commit of a transaction, whose table is `none` if an insertion failed.
unfoldable pub commit_rows : Option (List CacheRow) → Act World (Unit {0})
unfolding call
commit_rows none w = (err cache_failed, w)
commit_rows (some table) w = call (λ v. record v { cache = table }) cache_failed w

-- One transaction, so a failed insertion leaves the table as it was.
unfoldable pub put_rows : Outcome LogError (List CacheRow) → Act World (Unit {0})
unfolding insert_rows commit_rows
put_rows (ok rows) w = commit_rows (insert_rows rows w.cache) w
put_rows (err e) w = (err e, w)
put_rows panic w = (panic, w)

-- `cacheHash(h[:16])` of the hash of what was built
abbrev truncated : (Bytes → Bytes) → Bytes → Bytes
truncated sha256 s = prefix_of 16 (sha256 s)

module _ {Builder : Type 0} (cb : Cryptobyte Builder) (sha256 : Bytes → Bytes) where
  -- `computeCacheHash`
  unfoldable pub compute_cache_hash : Bytes → Bool → Bytes → Outcome LogError Bytes
  unfolding prefix_of
  compute_cache_hash certificate is_precert issuer_key_hash =
      let b = add_signed_entry cb (cb.new_builder []) certificate is_precert issuer_key_hash in
      and_then (of_codec (cb.bytes_or_panic b)) λ s. ok (truncated sha256 s)

  abbrev pub leaf_hash : PendingLogEntry → Outcome LogError Bytes
  leaf_hash e = compute_cache_hash e.certificate e.is_precert e.issuer_key_hash

  abbrev pub found_row : PendingLogEntry → Option CacheRow → Option LogEntry
  found_row leaf none = none
  found_row leaf (some r) = some (as_log_entry sha256 leaf r.leaf_index r.timestamp)

  -- `cacheGet`
  unfoldable pub cache_get : PendingLogEntry → Act World (Option LogEntry)
  unfolding as_log_entry select_row
  cache_get leaf = do
    h ← lift (leaf_hash leaf)
    ask (λ w. ok (found_row leaf (select_row h w.cache))) cache_failed

  -- The rows of the sequenced entries, whose indexes and timestamps are not negative.
  unfoldable pub cache_rows : List LogEntry → Outcome LogError (List CacheRow)
  cache_rows [] = ok []
  cache_rows (e ∷ es) =
      and_then (compute_cache_hash e.certificate e.is_precert e.issuer_key_hash) λ h.
        and_then (cache_rows es) λ rows.
          let t = pos_part e.timestamp in
          ok (record { key = h; timestamp = t; leaf_index = pos_part e.leaf_index } ∷ rows)

  -- `cachePut`
  unfoldable pub cache_put : List LogEntry → Act World (Unit {0})
  unfolding cache_rows put_rows
  cache_put entries = put_rows (cache_rows entries)

-- ===== src/Ctlog/Pool.antt =====
-- Adding a leaf to the pool, and waiting for it (ctlog.go).
pub mod Adding
use sunlight.Prelude.{
  ℕ, ◌+◌, ◌<◌, List, [], ◌∷◌, ◌++◌, Option, none, some, Bool, true, false, not, ◌&&◌, Outcome, ok,
  err, panic, length, ltb, leb, ◌==◌, if◌then◌else◌,
}
use sunlight.Prelude.Maps.{Map, lookup, insert, nat_eq, bytes_eq, bytes_beq, codes}
use sunlight.Errors.{
  LogError, issuer_not_uploaded, invalid_existing_issuer, pool_full, cache_get_failed, canceled,
}
use sunlight.Cryptobyte.{Cryptobyte}
use sunlight.Cryptobyte.Wire.{Bytes}
use sunlight.Tile.{LogEntry}
use sunlight.Ctlog.Action.{Act, pure, raise, lift, gets, modify, ◌>>=◌, ◌>>◌}
use sunlight.Ctlog.World.{World, UploadOptions, upload, fetch}
use sunlight.Ctlog.Types.{PendingLogEntry, WaitEntry, fails, cached, waits, Pool, new_pool, Log}
use sunlight.Ctlog.Paths.{issuer_path}
use sunlight.Ctlog.Entries.{as_log_entry, compute_cache_hash, cache_get}

pub record State : Type 0 where
  pub log : Log
  pub world : World

-- A call of a backend, in a method of the log.
abbrev pub on_world : {A : Type 0} → Act World A → Act State A
on_world m s = let (r, w) = m s.world in (r, record s { world = w })

-- Where the code goes on by the error of a call; a panic ends the process.
abbrev pub caught :
    {A B : Type 0}
    → Outcome LogError A × State
    → (A → Act State B)
    → (LogError → Act State B)
    → Outcome LogError B × State
caught (ok a, s) f g = f a s
caught (err e, s) f g = g e s
caught (panic, s) f g = (panic, s)

abbrev pub on_error :
    {A B : Type 0} → Act State A → (A → Act State B) → (LogError → Act State B) → Act State B
on_error m f g s = caught (m s) f g

-- The pool under a number; the log looks up those that it has stored.
abbrev pool_or_new : Option Pool → Pool
pool_or_new none = new_pool
pool_or_new (some p) = p

unfoldable pub pool_at : Map ℕ Pool → ℕ → Pool
unfolding lookup
pool_at pools id = pool_or_new (lookup id pools)

-- The second result of `addLeafToPool`.
pub data Source : Type 0 where
  issuer pool cache ratelimit sequencer : Source

abbrev pub opts_issuer : UploadOptions
opts_issuer = record {
  content_type = codes "application/pkix-cert";
  compress = false;
  immutable = true;
}

abbrev is_known : Option Bool → Bool
is_known none = false
is_known (some b) = b

-- What a context that is done, or a closed channel, gives to a function that waits.
pub data Waited : Type 0 where
  blocked : Waited
  got : Outcome LogError LogEntry → Waited

module _ {Builder : Type 0} (cb : Cryptobyte Builder) (sha256 : Bytes → Bytes) where
  remember_issuer : Bytes → Act State (Unit {0})
  unfolding insert
  remember_issuer fingerprint =
      modify
        λ s. record s { log = record s.log { issuers = insert fingerprint true s.log.issuers } }

  -- `uploadIssuer`. The lock is taken and released within it, so it is one step.
  unfoldable pub upload_issuer : Bytes → Act State (Unit {0})
  unfolding remember_issuer lookup
  upload_issuer cert s =
      let fingerprint = sha256 cert in
      let path = issuer_path fingerprint in
      if is_known (lookup fingerprint s.log.issuers)
      then (ok tt, s)
      else on_error (on_world (fetch path))
          (λ old.
            if bytes_beq old cert
            then remember_issuer fingerprint
            else raise invalid_existing_issuer)
          (λ _.
            on_error (on_world (upload path cert opts_issuer)) (λ _. remember_issuer fingerprint)
              (λ _. raise issuer_not_uploaded))
          s

  unfoldable pub upload_issuers : List Bytes → Act State (Unit {0})
  unfolding upload_issuer
  upload_issuers [] = pure tt
  upload_issuers (i ∷ is) = upload_issuer i >>= λ _. upload_issuers is

  -- A new leaf in a pool, under its hash.
  unfoldable pub push_leaf : ℕ → Bytes → PendingLogEntry → Pool → Pool
  unfolding insert
  push_leaf id h leaf p = record p {
    pending_leaves = p.pending_leaves ++ leaf ∷ [];
    by_hash = insert h (waits id (length p.pending_leaves) leaf) p.by_hash;
  }

  -- `l.c.PoolSize > 0 && n >= l.c.PoolSize`
  abbrev pub is_full : ℕ → Pool → Bool
  is_full size p = ltb 0 size && leb size (length p.pending_leaves)

  -- The end of `addLeafToPool`: neither pool holds the leaf, and the cache gave `found`.
  unfoldable pub add_new_leaf :
      Bytes → PendingLogEntry → Option LogEntry → Act State (WaitEntry × Source)
  unfolding push_leaf pool_at
  add_new_leaf h leaf (some e) s = (ok (cached e, cache), s)
  add_new_leaf h leaf none s =
      let id = s.log.current_pool in
      let p = pool_at s.log.pools id in
      if is_full s.log.pool_size p then (ok (fails pool_full, ratelimit), s) else (
        ok (waits id (length p.pending_leaves) leaf, sequencer),
        record s { log = record s.log { pools = insert id (push_leaf id h leaf p) s.log.pools } },
      )

  -- The lookups of `addLeafToPool`, in their order: the current pool, the pool in sequencing, and
  -- the cache.
  unfoldable pub find_or_add :
      Bytes → PendingLogEntry → Option WaitEntry → Option WaitEntry → Act State (WaitEntry × Source)
  unfolding add_new_leaf
  find_or_add h leaf (some f) sequencing = pure (f, pool)
  find_or_add h leaf none (some f) = pure (f, pool)
  find_or_add h leaf none none =
      on_error (on_world (cache_get cb sha256 leaf)) (add_new_leaf h leaf)
        (λ _. pure (fails cache_get_failed, cache))

  -- The part of `addLeafToPool` under `poolMu`.
  unfoldable pub add_under_lock : PendingLogEntry → Act State (WaitEntry × Source)
  unfolding find_or_add lookup
  add_under_lock leaf = do
    h ← lift (compute_cache_hash cb sha256 leaf.certificate leaf.is_precert leaf.issuer_key_hash)
    p ← gets λ s. pool_at s.log.pools s.log.current_pool
    sequencing ← gets λ s. s.log.in_sequencing
    find_or_add h leaf (lookup h p.by_hash) (lookup h sequencing)

  -- `addLeafToPool`
  unfoldable pub add_leaf_to_pool : PendingLogEntry → Act State (WaitEntry × Source)
  unfolding upload_issuers add_under_lock
  add_leaf_to_pool leaf =
      on_error (upload_issuers leaf.issuers) (λ _. add_under_lock leaf)
        (λ _. pure (fails issuer_not_uploaded, issuer))

  -- The answer of a closed pool.
  abbrev pub sequenced : Pool → ℕ → PendingLogEntry → Outcome LogError LogEntry
  sequenced p n leaf = elim p.error [
    | some e ↦ err e
    | none ↦
        if p.timestamp == 0
        then panic
        else ok (as_log_entry sha256 leaf (p.first_leaf_index + n) p.timestamp)
  ]

  -- A call of the function that `waitEntryFunc` describes, for a pool in the state that it has now.
  -- `canceled_now` says that the context is done, which may win over a closed channel.
  unfoldable pub wait : Bool → Map ℕ Pool → WaitEntry → Waited
  unfolding pool_at as_log_entry
  wait canceled_now pools (fails e) = got (err e)
  wait canceled_now pools (cached e) = got (ok e)
  wait canceled_now pools (waits id n leaf) =
      let p = pool_at pools id in
      if canceled_now
      then got (err canceled)
      else if not p.done
      then blocked
      else got (sequenced p n leaf)

-- ===== src/Ctlog/Pool/Adding.antt =====
-- What `addLeafToPool` (ctlog.go) does to the current pool: deduplication, the bound on its size, and
-- the places that its entries wait for.
use sunlight.Prelude.{
  ℕ, zero, suc, ◌≤◌, ◌<◌, ◌≡◌, refl, List, [], ◌∷◌, ◌++◌, Option, none, some, false, Outcome, ok,
  err, panic, length, length-append, get_elem?, arith, inl, inr, Bool-cases, Outcome-cases,
}
use sunlight.Prelude.Maps.{
  lookup, insert, nat_eq, bytes_eq, bytes_beq, lookup-insert, lookup-insert_self,
}
use sunlight.Errors.{LogError, cache_get_failed}
use sunlight.Cryptobyte.{Cryptobyte}
use sunlight.Cryptobyte.Wire.{Bytes}
use sunlight.Tile.{LogEntry}
use sunlight.Ctlog.Action.{pure}
use sunlight.Ctlog.World.{World}
use sunlight.Ctlog.Types.{PendingLogEntry, WaitEntry, fails, waits, Pool}
use sunlight.Ctlog.Entries.{leaf_hash}
use sunlight.Ctlog.Pool.{
  State, pool_at, Source, sequencer, pool, cache, caught, push_leaf, is_full, add_new_leaf,
  find_or_add, add_under_lock,
}

abbrev pub current : State → Pool
current s = pool_at s.log.pools s.log.current_pool

module _ {Builder : Type 0} (cb : Cryptobyte Builder) (sha256 : Bytes → Bytes)
    (leaf : PendingLogEntry) (s : State) where
  -- The state in which the leaf was added to the current pool under a hash.
  abbrev pub added : Bytes → World → State
  added h w = record {
    world = w;
    log = record s.log {
      pools =
          insert s.log.current_pool (push_leaf cb sha256 s.log.current_pool h leaf (current s))
            s.log.pools;
    };
  }

  -- The function with which a new leaf is waited for.
  abbrev pub place : WaitEntry
  place = waits s.log.current_pool (length (current s).pending_leaves) leaf

  -- Either only the outer world changed, and nothing says that the leaf was added, or it was, in a
  -- pool that had room and did not hold it.
  module _ (Q : Outcome LogError (WaitEntry × Source) × State → Type 0)
      (kept : (r : Outcome LogError (WaitEntry × Source)) (w : World)
        → ((f : WaitEntry) → ¬ (r ≡ ok (f, sequencer)))
        → Q (r, record s { world = w }))
      (new : (h : Bytes) (w : World)
        → leaf_hash cb sha256 leaf ≡ ok h
        → lookup h (current s).by_hash ≡ none
        → is_full cb sha256 s.log.pool_size (current s) ≡ false
        → Q (ok (place, sequencer), added h w)) where
    add_new_leaf_cases :
        (h : Bytes) (w : World) (found : Option LogEntry)
        → leaf_hash cb sha256 leaf ≡ ok h
        → lookup h (current s).by_hash ≡ none
        → Q (add_new_leaf cb sha256 h leaf found (record s { world = w }))
    unfolding add_new_leaf
    add_new_leaf_cases h w (some e) hash absent = kept _ w (λ f k. cc k)
    add_new_leaf_cases h w none hash absent =
        elim (Bool-cases (is_full cb sha256 s.log.pool_size (current s))) [
          | inl full ↦ rw (full) (kept _ w (λ f k. cc k))
          | inr room ↦ rw (room) (new h w hash absent room)
        ]

    caught_cases :
        (h : Bytes) (r : Outcome LogError (Option LogEntry)) (w : World)
        → leaf_hash cb sha256 leaf ≡ ok h
        → lookup h (current s).by_hash ≡ none
        → Q (
            caught
              (r, record s { world = w })
              (add_new_leaf cb sha256 h leaf)
              (λ _. pure (fails cache_get_failed, cache)))
    caught_cases h (ok found) w hash absent = add_new_leaf_cases h w found hash absent
    caught_cases h (err e) w hash absent = kept _ w (λ f k. cc k)
    caught_cases h panic w hash absent = kept _ w (λ f k. cc k)

    find_or_add_cases :
        (h : Bytes) (found sequencing : Option WaitEntry)
        → leaf_hash cb sha256 leaf ≡ ok h
        → lookup h (current s).by_hash ≡ found
        → Q (find_or_add cb sha256 h leaf found sequencing s)
    unfolding find_or_add
    find_or_add_cases h (some f) sequencing hash look = kept _ s.world (λ f k. cc k)
    find_or_add_cases h none (some f) hash look = kept _ s.world (λ f k. cc k)
    find_or_add_cases h none none hash look = caught_cases h _ _ hash look

    pub add_under_lock_cases : Q (add_under_lock cb sha256 leaf s)
    unfolding add_under_lock
    add_under_lock_cases = elim (Outcome-cases (leaf_hash cb sha256 leaf)) [
      | inl (h, e) ↦ rw (e) (find_or_add_cases h _ _ e refl)
      | inr (inl (f, e)) ↦ rw (e) (kept _ s.world (λ f k. cc k))
      | inr (inr e) ↦ rw (e) (kept _ s.world (λ f k. cc k))
    ]

get_elem?-append :
    {A : Type 0} (xs ys : List A) (n : ℕ) (a : A)
    → get_elem? xs n ≡ some a
    → get_elem? (xs ++ ys) n ≡ some a
get_elem?-append [] ys n a h = absurd (cc h)
get_elem?-append (x ∷ xs) ys zero a h = h
get_elem?-append (x ∷ xs) ys (suc n) a h = get_elem?-append xs ys n a h

get_elem?_last : {A : Type 0} (xs : List A) (a : A) → get_elem? (xs ++ a ∷ []) (length xs) ≡ some a
get_elem?_last [] a = refl
get_elem?_last (x ∷ xs) a = get_elem?_last xs a

-- The pool is not larger than the configuration allows.
abbrev pub IsBounded : State → Type 0
IsBounded s = 0 < s.log.pool_size → length (current s).pending_leaves ≤ s.log.pool_size

-- What waits under a hash waits for the leaf at its place in the current pool.
abbrev pub IsIndexed : State → Type 0
IsIndexed s =
    (h : Bytes) (f : WaitEntry)
    → lookup h (current s).by_hash ≡ some f
    → (n : ℕ) × (leaf : PendingLogEntry) × (f ≡ waits s.log.current_pool n leaf)
      × (get_elem? (current s).pending_leaves n ≡ some leaf)

module _ {Builder : Type 0} (cb : Cryptobyte Builder) (sha256 : Bytes → Bytes)
    (leaf : PendingLogEntry) (s : State) where
  current-added :
      (h : Bytes) (w : World)
      → current (added cb sha256 leaf s h w)
        ≡ push_leaf cb sha256 s.log.current_pool h leaf (current s)
  unfolding pool_at
  current-added h w = rw (lookup-insert_self) refl

  -- Adding a leaf keeps the pool within the size of the configuration.
  pub add_under_lock-IsBounded : IsBounded s → IsBounded (add_under_lock cb sha256 leaf s).1
  unfolding push_leaf
  add_under_lock-IsBounded bounded =
      add_under_lock_cases cb sha256 leaf s (λ x. IsBounded x.1) (λ r w other. bounded)
        (λ h w hash absent room.
          rw (current-added h w)
            (ground (arith, length-append (current s).pending_leaves (leaf ∷ []))))

  -- An entry of the pool behind the addition of the leaf: it is the leaf's, or it was there.
  IsIndexed-after : IsIndexed s → (h : Bytes) (w : World) → IsIndexed (added cb sha256 leaf s h w)
  unfolding push_leaf
  IsIndexed-after indexed h w j f =
      rw (current-added h w, lookup-insert h j (place cb sha256 leaf s) (current s).by_hash)
        (elim (Bool-cases (bytes_beq h j)) [
          | inl same ↦ rw (same) (λ k. (
            length (current s).pending_leaves,
            leaf,
            cc k,
            get_elem?_last (current s).pending_leaves leaf,
          ))
          | inr other ↦ rw (other) (λ k.
              let (n, l, shape, nth) = indexed j f k in
              (n, l, shape, get_elem?-append (current s).pending_leaves (leaf ∷ []) n l nth))
        ])

  -- Adding a leaf keeps each entry under its place in the current pool.
  pub add_under_lock-IsIndexed : IsIndexed s → IsIndexed (add_under_lock cb sha256 leaf s).1
  add_under_lock-IsIndexed indexed =
      add_under_lock_cases cb sha256 leaf s (λ x. IsIndexed x.1) (λ r w other. indexed)
        (λ h w hash absent room. IsIndexed-after indexed h w)

  -- A leaf that was added is found in the pool the next time: the answer is the same function, and
  -- nothing is changed.
  pub add_under_lock-again :
      (f : WaitEntry)
      → (add_under_lock cb sha256 leaf s).0 ≡ ok (f, sequencer)
      → add_under_lock cb sha256 leaf (add_under_lock cb sha256 leaf s).1
        ≡ (ok (f, pool), (add_under_lock cb sha256 leaf s).1)
  unfolding add_under_lock find_or_add push_leaf
  add_under_lock-again f =
      add_under_lock_cases cb sha256 leaf s
        (λ x. x.0 ≡ ok (f, sequencer) → add_under_lock cb sha256 leaf x.1 ≡ (ok (f, pool), x.1))
        (λ r w other h. absurd (other f h))
        (λ h w hash absent room k.
          let same : place cb sha256 leaf s ≡ f = cc k in
          rw (hash, current-added h w, lookup-insert_self, same) refl)

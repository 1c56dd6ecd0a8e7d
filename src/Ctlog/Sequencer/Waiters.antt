-- ===== src/Ctlog/Sequencer/Waiters.antt =====
-- What `sequencePool` (ctlog.go) tells those that wait for the leaves of its pool.
use sunlight.Prelude.{
  ◌≢◌, ℕ, ◌+◌, ◌≡◌, refl, ◌∙◌, ap, List, [], ◌∷◌, none, some, true, false, Outcome, ok, err, panic,
  inl, inr, arith,
}
use sunlight.Prelude.Maps.{Map, insert, bytes_eq}
use sunlight.Errors.{LogError}
use sunlight.Cryptobyte.{Cryptobyte}
use sunlight.Cryptobyte.Wire.{Bytes}
use sunlight.Ctlog.World.{World}
use sunlight.Ctlog.World.Frames.{put}
use sunlight.Ctlog.Types.{Tlog, Pool}
use sunlight.Ctlog.Paths.{checkpoint_key}
use sunlight.Ctlog.Pool.{State, pool_at}
use sunlight.Ctlog.Staging.{Archive}
use sunlight.Ctlog.Sequencer.{
  CheckpointSigner, opts_checkpoint, commit_batch, close_pool_at, finish, sequence_body,
  sequence_pool,
}
use sunlight.Ctlog.Sequencer.Phases.{
  Result, Failed, Candidate, head, tiled, Phase, untouched, staged, lost, applying, applied,
  published,
}
use sunlight.Ctlog.Sequencer.Safety.{sequence_body-Phase}
use sunlight.Ctlog.Batch.Entries.{make_batch_entries, entries_from}
use sunlight.Ctlog.Sequencer.Crashes.{finish-world}
use sunlight.Prelude.{if-eq-ok, ok-injective, zero, suc, get_elem?, ◌==◌}
use sunlight.Prelude.Maps.{nat_eq, lookup-insert_self}
use sunlight.Tile.{LogEntry}
use sunlight.Ctlog.Entries.{as_log_entry}
use sunlight.Ctlog.Types.{PendingLogEntry, waits}
use sunlight.Ctlog.Pool.{wait, blocked, got, sequenced}
use sunlight.Ctlog.Sequencer.{close_pool}
use sunlight.Ctlog.Sequencer.Progress.{failed}
use sunlight.Ctlog.Sequencer.Safety.{sequence_body-Phase}

get_elem?-entries_from :
    (sha256 : Bytes → Bytes) (old time n : ℕ) (ps : List PendingLogEntry) (leaf : PendingLogEntry)
    → get_elem? ps n ≡ some leaf
    → get_elem? (entries_from sha256 old time ps) n ≡ some (as_log_entry sha256 leaf (old + n) time)
unfolding entries_from
get_elem?-entries_from sha256 old time n [] leaf h = absurd (cc h)
get_elem?-entries_from sha256 old time zero (p ∷ ps) leaf h =
    let same : p ≡ leaf = cc in let at : old + 0 ≡ old = omega arith in rw (same, at) refl
get_elem?-entries_from sha256 old time (suc n) (p ∷ ps) leaf h =
    get_elem?-entries_from sha256 (old + 1) time n ps leaf h
    ∙ ap (λ i. some (as_log_entry sha256 leaf i time)) (omega arith)

pool_at-insert : (pools : Map ℕ Pool) (id : ℕ) (p : Pool) → pool_at (insert id p pools) id ≡ p
unfolding pool_at
pool_at-insert pools id p = rw (lookup-insert_self) refl

-- What a closed or open pool answers.
wait_open :
    {Builder : Type 0} (cb : Cryptobyte Builder) (sha256 : Bytes → Bytes) (pools : Map ℕ Pool)
    (id n : ℕ) (leaf : PendingLogEntry)
    → (pool_at pools id).done ≡ false
    → wait cb sha256 false pools (waits id n leaf) ≡ blocked
unfolding wait
wait_open cb sha256 pools id n leaf h = rw (h) refl

got-injective : (r r' : Outcome LogError LogEntry) → got r ≡ got r' → r ≡ r'
got-injective r r' h = cc

wait_closed :
    {Builder : Type 0} (cb : Cryptobyte Builder) (sha256 : Bytes → Bytes) (pools : Map ℕ Pool)
    (id n : ℕ) (leaf : PendingLogEntry) (p : Pool) (r : Outcome LogError LogEntry)
    → p.done ≡ true
    → wait cb sha256 false (insert id p pools) (waits id n leaf) ≡ got r
    → sequenced cb sha256 p n leaf ≡ r
unfolding wait
wait_closed cb sha256 pools id n leaf p r closed h =
    let answer : got (sequenced cb sha256 p n leaf) ≡ got r = rw (pool_at-insert, closed) at h in
    got-injective _ r answer

sequenced_entry :
    {Builder : Type 0} (cb : Cryptobyte Builder) (sha256 : Bytes → Bytes) (p : Pool) (n : ℕ)
    (leaf : PendingLogEntry) (e : LogEntry)
    → p.error ≡ none
    → sequenced cb sha256 p n leaf ≡ ok e
    → as_log_entry sha256 leaf (p.first_leaf_index + n) p.timestamp ≡ e
sequenced_entry cb sha256 p n leaf e none_yet h =
    elim (if-eq-ok (p.timestamp == 0) panic _ (rw (none_yet) at h)) [
      | inl (_, k) ↦ absurd (cc k)
      | inr (_, k) ↦ ok-injective _ e k
    ]

module _ {Builder : Type 0} (cb : Cryptobyte Builder) (sha256 : Bytes → Bytes) (tlog : Tlog)
    (archive : Archive) (signer : CheckpointSigner) (id : ℕ) (s : State) where
  abbrev InPhase : Result → State → Type 0
  InPhase = Phase cb sha256 tlog archive signer id s

  abbrev old_pool : Pool
  old_pool = pool_at s.log.pools id

  -- A run does not close its pool before its deferred function.
  Phase-done :
      (r : Result) (s' : State) → InPhase r s' → (pool_at s'.log.pools id).done ≡ old_pool.done
  unfolding commit_batch
  Phase-done r s' (untouched _ _ f k l o) = rw (k) refl
  Phase-done r s' (staged _ _ c f k l o) = rw (k) refl
  Phase-done r s' (lost _ _ c checkpoint f k l o) = rw (k) refl
  Phase-done r s' (applying _ _ c checkpoint f k l p) = rw (k, pool_at-insert) refl
  Phase-done r s' (applied _ _ c checkpoint f k l o) = rw (k, pool_at-insert) refl
  Phase-done r s' (published _ _ c checkpoint k l o) = rw (k, pool_at-insert) refl

  -- A candidate is published, and its n-th entry is the given one.
  abbrev pub Acknowledged : ℕ → LogEntry → World → Type 0
  Acknowledged n e w =
      (c : Candidate cb sha256 tlog archive signer id s) × (checkpoint : Bytes)
      × (signer.sign_tree_head (head cb sha256 tlog archive signer c) ≡ ok checkpoint)
      × (w.lock ≡ some checkpoint)
      × (w.objects
          ≡ put checkpoint_key checkpoint opts_checkpoint (tiled cb sha256 tlog archive signer c))
      × (get_elem? c.batch.sequenced_leaves n ≡ some e)

  not_ok : {A : Type 0} → Failed (ok tt) → A
  not_ok (inl (e, h)) = absurd (cc h)
  not_ok (inr h) = absurd (cc h)

  module _ (n : ℕ) (leaf : PendingLogEntry) (e : LogEntry) (fresh : old_pool.error ≡ none)
      (nth : get_elem? old_pool.pending_leaves n ≡ some leaf) where
    answered :
        (s' : State)
        → InPhase (ok tt) s'
        → sequenced cb sha256 (close_pool none (pool_at s'.log.pools id)) n leaf ≡ ok e
        → Acknowledged n e s'.world
    unfolding commit_batch
    answered s' (untouched _ _ f k l o) h = not_ok f
    answered s' (staged _ _ c f k l o) h = not_ok f
    answered s' (lost _ _ c checkpoint f k l o) h = not_ok (failed f)
    answered s' (applying _ _ c checkpoint f k l p) h = not_ok (failed f)
    answered s' (applied _ _ c checkpoint f k l o) h = not_ok f
    answered s' (published _ _ c checkpoint k (sign, _, lock) o) h =
        let closed : pool_at s'.log.pools id
            ≡ record old_pool { timestamp = s.world.now; first_leaf_index = s.log.tree.n } =
          rw (k, pool_at-insert) refl in
        let entry : as_log_entry sha256 leaf (s.log.tree.n + n) s.world.now ≡ e =
          sequenced_entry cb sha256
            (close_pool none
              (record old_pool { timestamp = s.world.now; first_leaf_index = s.log.tree.n }))
            n leaf e fresh (rw (closed) at h) in
        (
          c,
          checkpoint,
          sign,
          lock,
          o,
          rw ((make_batch_entries cb sha256 tlog _ _ _ _ c.batch c.made).0) (
              get_elem?-entries_from sha256 s.log.tree.n s.world.now n old_pool.pending_leaves leaf
                nth
              ∙ ap some entry),
        )

    -- What the deferred function leaves to those that wait.
    finish_answer :
        (r : Result) (s' : State)
        → InPhase r s'
        → old_pool.done ≡ false
        → wait cb sha256 false (finish id (r, s')).1.log.pools (waits id n leaf) ≡ got (ok e)
        → Acknowledged n e s'.world
    unfolding finish close_pool_at
    finish_answer (ok _) s' p open_pool h =
        answered s' p (wait_closed cb sha256 _ id n leaf _ (ok e) refl h)
    finish_answer (err f) s' p open_pool h = absurd (
        cc (
          wait_closed cb sha256 _ id n leaf (close_pool (some f) (pool_at s'.log.pools id)) (ok e)
            refl h))
    finish_answer panic s' p open_pool h =
        absurd (cc (wait_open cb sha256 s'.log.pools id n leaf (Phase-done _ s' p ∙ open_pool), h))

  -- A leaf that waits in the pool of a run, which is open and has no error before it, is answered
  -- with an entry only if the run published the tree that has this very entry at the leaf's place:
  -- the lock and the published checkpoint hold the signed head of that tree, and every
  -- upload of the run's batch is stored.
  pub wait-sequence_pool :
      (n : ℕ) (leaf : PendingLogEntry) (e : LogEntry)
      → old_pool.done ≡ false
      → old_pool.error ≡ none
      → get_elem? old_pool.pending_leaves n ≡ some leaf
      → wait cb sha256 false
          (sequence_pool cb sha256 tlog archive signer id s).1.log.pools
          (waits id n leaf)
        ≡ got (ok e)
      → Acknowledged n e (sequence_pool cb sha256 tlog archive signer id s).1.world
  unfolding sequence_pool
  wait-sequence_pool n leaf e open_pool fresh nth h =
      let body = sequence_body cb sha256 tlog archive signer id s in
      rw (finish-world id body.0 body.1) (
        finish_answer n leaf e fresh nth body.0 body.1
          (sequence_body-Phase cb sha256 tlog archive signer id s) open_pool h)

  finish-done :
      (r : Result) (s' : State)
      → (finish id (r, s')).0 ≢ panic
      → (pool_at (finish id (r, s')).1.log.pools id).done ≡ true
  unfolding finish close_pool_at
  finish-done (ok _) s' h = rw (pool_at-insert) refl
  finish-done (err e) s' h = rw (pool_at-insert) refl
  finish-done panic s' h = absurd (h refl)

  -- Behind a run that does not end the process, whatever failed in it, no request that waits for a
  -- leaf of its pool is left blocked.
  pub wait-ne-blocked :
      (n : ℕ) (leaf : PendingLogEntry)
      → (sequence_pool cb sha256 tlog archive signer id s).0 ≢ panic
      → wait cb sha256 false
          (sequence_pool cb sha256 tlog archive signer id s).1.log.pools
          (waits id n leaf)
        ≢ blocked
  unfolding sequence_pool wait
  wait-ne-blocked n leaf alive h =
      let body = sequence_body cb sha256 tlog archive signer id s in
      absurd (cc (rw (finish-done body.0 body.1 alive) at h))

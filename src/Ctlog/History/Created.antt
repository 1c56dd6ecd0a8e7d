-- ===== src/Ctlog/History/Created.antt =====
-- Histories from the creation of a log on (ctlog.go, `CreateLog`).
use sunlight.Prelude.{
  ℕ, ◌≡◌, sym, ◌∙◌, ap, [], some, Outcome, ok, err, panic, Bool-cases, inl, inr, arith,
}
use sunlight.Errors.{
  LogError, cache_failed, lock_failed, tree_head_not_computed, checkpoint_not_signed,
  checkpoint_not_uploaded,
}
use sunlight.Cryptobyte.{Cryptobyte}
use sunlight.Cryptobyte.Wire.{Bytes}
use sunlight.Ctlog.Action.{Act, wrap, renamed}
use sunlight.Ctlog.World.{
  World, call, ask, upload, fetch, lock_fetch, lock_create, is_some, first_fault, rest_faults,
}
use sunlight.Ctlog.World.Frames.{perform_cases}
use sunlight.Ctlog.World.Reads.{continue-eq-ok, lifted-eq-ok, wrap-eq-ok}
use sunlight.Ctlog.Types.{Tlog, TreeWithTimestamp}
use sunlight.Ctlog.Paths.{checkpoint_key}
use sunlight.Ctlog.Batch.Entries.{renamed-eq-ok}
use sunlight.Ctlog.Staging.{Archive}
use sunlight.Ctlog.Sequencer.{CheckpointSigner, tree_head}
use sunlight.Ctlog.Creation.{
  unless_fetched, nil_reader, lock_and_publish, sign_and_lock, create_empty, open_cache_and_create,
  create_unpublished, create_log,
}
use sunlight.Ctlog.History.{System, Reach}
use sunlight.Ctlog.History.Growth.{Locks, IsSound, Extends, Reach-IsSound}

-- A call that succeeds has its effect.
call-eq-ok :
    (f : World → World) (e : LogError) (w : World) {x : Unit {0}} {w' : World}
    → call f e w ≡ (ok x, w')
    → f (record w { faults = rest_faults w.faults }) ≡ w'
unfolding call
call-eq-ok f e w {x} {w'} =
    perform_cases f e (λ y. y ≡ (ok x, w') → f (record w { faults = rest_faults w.faults }) ≡ w')
      (record w { faults = rest_faults w.faults }) (first_fault w.faults) (λ k. ap (λ y. y.1) k)
      (λ k. absurd (cc (ap (λ y. y.0) k))) (λ k. absurd (cc (ap (λ y. y.0) k)))
      (λ k. absurd (cc (ap (λ y. y.0) k))) (λ k. absurd (cc (ap (λ y. y.0) k)))

unless_fetched-eq-ok :
    (x : Outcome LogError Bytes × World) (e : LogError) (k : Act World (Unit {0})) {y : Unit {0}}
    {w' : World}
    → unless_fetched x e k ≡ (ok y, w')
    → (v : World) × (k v ≡ (ok y, w'))
unless_fetched-eq-ok (ok b, v) e k h = absurd (cc (ap (λ z. z.0) h))
unless_fetched-eq-ok (err f, v) e k h = (v, h)
unless_fetched-eq-ok (panic, v) e k h = absurd (cc (ap (λ z. z.0) h))

-- The lock and the clock behind the creation of a lock
lock_create-eq-ok :
    (new : Bytes) (w : World) {x : Unit {0}} {w' : World}
    → lock_create new w ≡ (ok x, w')
    → (w'.lock ≡ some new) × (w'.now ≡ w.now)
unfolding lock_create ask
lock_create-eq-ok new w {x} {w'} h = elim (Bool-cases (is_some w.lock)) [
  | inl held ↦
      let (_, v, _, refusal) =
        continue-eq-ok (call (λ v. v) lock_failed w) (λ _ v. (err lock_failed, v))
          (rw (held) at h) in
      absurd (cc (ap (λ y. y.0) refusal))
  | inr free ↦
      let done = call-eq-ok (λ v. record v { lock = some new }) lock_failed w (rw (free) at h) in
      (ap (λ v. v.lock) (sym done), ap (λ v. v.now) (sym done))
]

module _ {Builder : Type 0} (cb : Cryptobyte Builder) (sha256 : Bytes → Bytes) (tlog : Tlog)
    (archive : Archive) (signer : CheckpointSigner) where
  sign_and_lock-Locks :
      (hash : Bytes) (w : World) {x : Unit {0}} {w' : World}
      → sign_and_lock tlog signer (tree_head 0 hash w.now) w ≡ (ok x, w')
      → Locks cb sha256 tlog archive signer w' (tree_head 0 hash w.now)
  unfolding sign_and_lock lock_and_publish upload
  sign_and_lock-Locks hash w h =
      let (checkpoint, signed, h₁) =
        lifted-eq-ok
          (renamed checkpoint_not_signed (signer.sign_tree_head (tree_head 0 hash w.now))) w _ h in
      let (_, v, locked, h₂) = continue-eq-ok (wrap lock_failed (lock_create checkpoint w)) _ h₁ in
      let (lock, now) = lock_create-eq-ok checkpoint w (wrap-eq-ok _ _ locked) in
      let published = call-eq-ok _ _ v (wrap-eq-ok checkpoint_not_uploaded _ h₂) in
      (
        checkpoint,
        ap (λ z. z.lock) (sym published) ∙ lock,
        renamed-eq-ok _ _ signed,
        rw (← ap (λ z. z.now) published, now) (omega arith),
      )

  create_log-Locks :
      (w : World) {x : Unit {0}} {w' : World}
      → create_log tlog signer w ≡ (ok x, w')
      → (hash : Bytes) × (time : ℕ) × (tlog.tree_hash 0 nil_reader ≡ ok hash)
        × Locks cb sha256 tlog archive signer w' (tree_head 0 hash time)
  unfolding create_log create_unpublished open_cache_and_create create_empty
  create_log-Locks w h =
      let (v₁, h₁) = unless_fetched-eq-ok (lock_fetch w) _ _ h in
      let (v₂, h₂) = unless_fetched-eq-ok (fetch checkpoint_key v₁) _ _ h₁ in
      let (_, v₃, _, h₃) = continue-eq-ok (call (λ v. v) cache_failed v₂) _ h₂ in
      let (hash, hashed, h₄) =
        lifted-eq-ok (renamed tree_head_not_computed (tlog.tree_hash 0 nil_reader)) v₃ _ h₃ in
      (hash, v₃.now, renamed-eq-ok _ _ hashed, sign_and_lock-Locks hash v₃ h₄)

  -- For processes that read one clock, which does not go back, and sign and open tree heads such that
  -- a signed one opens again: if `CreateLog` succeeds, then tlog computed the root hash of no leaves;
  -- and in every system that any steps reach from there (`addLeafToPool`, `sequence` and `LoadLog` of
  -- any number of processes, each of which may end at any call), the lock holds the checkpoint of the
  -- created empty tree, or of one with a later time; and each process that runs has a tree with the
  -- checkpoint of that, which is the tree of the lock, or is earlier and no larger.
  pub create_log-Reach :
      (w w' : World) (x : Unit {0}) (q : System)
      → create_log tlog signer w ≡ (ok x, w')
      → Reach cb sha256 tlog archive signer (record { world = w'; logs = [] }) q
      → (hash : Bytes) × (time : ℕ) × (tlog.tree_hash 0 nil_reader ≡ ok hash)
        × (u : TreeWithTimestamp) × IsSound cb sha256 tlog archive signer q u
        × Extends (tree_head 0 hash time) u
  create_log-Reach w w' x q created reached =
      let (hash, time, hashed, locks) = create_log-Locks w created in
      let (u, sound, extended) =
        Reach-IsSound cb sha256 tlog archive signer (record { world = w'; logs = [] }) q
          (tree_head 0 hash time) (locks, tt) reached in
      (hash, time, hashed, u, sound, extended)

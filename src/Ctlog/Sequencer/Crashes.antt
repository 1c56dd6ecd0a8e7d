-- ===== src/Ctlog/Sequencer/Crashes.antt =====
-- What is stored, locked and known after a run of `sequencePool` (ctlog.go), whatever failed in it and
-- wherever the process ended.
use sunlight.Prelude.{
  ℕ, ◌+◌, ◌<◌, ◌≡◌, refl, sym, ◌∙◌, ap, Option, some, true, ok, err, panic, inl, inr, ◌⊎◌, length,
  All,
}
use sunlight.Prelude.Maps.{Map, lookup, bytes_eq}
use sunlight.Errors.{LogError, checkpoint_not_replaced, tile_not_uploaded}
use sunlight.Cryptobyte.{Cryptobyte}
use sunlight.Cryptobyte.Wire.{Bytes}
use sunlight.Ctlog.World.{World, Object}
use sunlight.Ctlog.World.Frames.{put}
use sunlight.Ctlog.Types.{Tlog, TreeWithTimestamp}
use sunlight.Ctlog.Paths.{staging_path, checkpoint_key}
use sunlight.Ctlog.Pool.{State, pool_at}
use sunlight.Ctlog.Staging.{Archive}
use sunlight.Ctlog.Staging.Bundle.{store_all, Partly, Partly-none}
use sunlight.Ctlog.Sequencer.{
  CheckpointSigner, opts_staging, opts_checkpoint, commit_batch, close_pool_at, finish, is_fatal,
}
use sunlight.Ctlog.Sequencer.Phases.{
  Result, Fatal, Candidate, head, bundled, Phase, untouched, staged, lost, applying, applied,
  published,
}
use sunlight.Ctlog.Sequencer.Keys.{
  lookup-put_self, lookup-put_other, lookup-Partly, staging_path_other, checkpoint_key_other,
  staging_path-ne-checkpoint_key,
}
use sunlight.Ctlog.Batch.Entries.{make_batch_entries, IsTileUpload}
use sunlight.Ctlog.Staging.Bundle.{Partly-all}

-- The deferred function of `sequencePool` closes the pool only.
pub finish-world : (id : ℕ) (r : Result) (s : State) → (finish id (r, s)).1.world ≡ s.world
unfolding finish close_pool_at
finish-world id (ok _) s = refl
finish-world id (err e) s = refl
finish-world id panic s = refl

pub finish-tree : (id : ℕ) (r : Result) (s : State) → (finish id (r, s)).1.log.tree ≡ s.log.tree
unfolding finish close_pool_at
finish-tree id (ok _) s = refl
finish-tree id (err e) s = refl
finish-tree id panic s = refl

pub finish-lock_checkpoint :
    (id : ℕ) (r : Result) (s : State)
    → (finish id (r, s)).1.log.lock_checkpoint ≡ s.log.lock_checkpoint
unfolding finish close_pool_at
finish-lock_checkpoint id (ok _) s = refl
finish-lock_checkpoint id (err e) s = refl
finish-lock_checkpoint id panic s = refl

-- The sequencer goes on only behind an error that is not fatal.
pub finish-ok :
    (id : ℕ) (r : Result) (s : State) (e : LogError)
    → is_fatal e ≡ true
    → (finish id (r, s)).0 ≡ ok tt
    → ¬ Fatal e r
unfolding finish
finish-ok id (ok _) s e f h (inl k) = absurd (cc k)
finish-ok id (ok _) s e f h (inr k) = absurd (cc k)
finish-ok id (err e') s e f h (inl k) =
    let same : e' ≡ e = cc in
    let stopped : ◌≡◌ {A = Result} (err e) (ok tt) = rw (same, f) at h in absurd (cc stopped)
finish-ok id (err e') s e f h (inr k) = absurd (cc k)
finish-ok id panic s e f h k = absurd (cc h)

module _ {Builder : Type 0} (cb : Cryptobyte Builder) (sha256 : Bytes → Bytes) (tlog : Tlog)
    (archive : Archive) (signer : CheckpointSigner) (id : ℕ) (s : State) where
  abbrev InPhase : Result → State → Type 0
  InPhase = Phase cb sha256 tlog archive signer id s

  abbrev pub Candidates : Type 0
  Candidates = Candidate cb sha256 tlog archive signer id s

  abbrev pub head_of : Candidates → TreeWithTimestamp
  head_of c = head cb sha256 tlog archive signer c

  abbrev bundled_of : Candidates → Map Bytes Object
  bundled_of c = bundled cb sha256 tlog archive signer c

  -- The lock's checkpoint is a new one, and the bundle of its tree is stored.
  abbrev pub LockedWithBundle : Option Bytes → Map Bytes Object → Type 0
  LockedWithBundle lock objects =
      (c : Candidates) × (checkpoint : Bytes) × (signer.sign_tree_head (head_of c) ≡ ok checkpoint)
      × (s.world.lock ≡ some s.log.lock_checkpoint)
      × (lock ≡ some checkpoint)
      × (lookup (staging_path (head_of c).tree) objects
          ≡ some (record { content = c.staged; options = opts_staging }))

  keys_of : (c : Candidates) → All IsTileUpload c.batch.tile_uploads
  keys_of c = (make_batch_entries cb sha256 tlog _ _ _ _ c.batch c.made).2

  bundle_there :
      (c : Candidates) (m : Map Bytes Object)
      → Partly c.batch.tile_uploads (bundled_of c) m
      → lookup (staging_path (head_of c).tree) m
        ≡ some (record { content = c.staged; options = opts_staging })
  bundle_there c m p =
      lookup-Partly _ _ _ m (staging_path_other (head_of c).tree) (keys_of c) p
      ∙ lookup-put_self (staging_path (head_of c).tree) c.staged opts_staging s.world.objects

  module _ (s' : State) where
    pub Phase-bundle :
        (r : Result)
        → InPhase r s'
        → (s'.world.lock ≡ s.world.lock) ⊎ LockedWithBundle s'.world.lock s'.world.objects
    Phase-bundle r (untouched _ _ f k l o) = inl l
    Phase-bundle r (staged _ _ c f k l o) = inl l
    Phase-bundle r (lost _ _ c checkpoint f k (sign, old, new) o) = inr (
      c,
      checkpoint,
      sign,
      old,
      new,
      rw (o)
          (lookup-put_self (staging_path (head_of c).tree) c.staged opts_staging s.world.objects),
    )
    Phase-bundle r (applying _ _ c checkpoint f k (sign, old, new) p) =
        inr (c, checkpoint, sign, old, new, bundle_there c _ p)
    Phase-bundle r (applied _ _ c checkpoint f k (sign, old, new) o) = inr (
      c,
      checkpoint,
      sign,
      old,
      new,
      rw (o) (bundle_there c _ (Partly-all c.batch.tile_uploads _)),
    )
    Phase-bundle r (published _ _ c checkpoint k (sign, old, new) o) = inr (
      c,
      checkpoint,
      sign,
      old,
      new,
      rw (o) (
          lookup-put_other checkpoint_key _ checkpoint opts_checkpoint _
            (λ h. staging_path-ne-checkpoint_key (head_of c).tree (sym h))
          ∙ bundle_there c _ (Partly-all c.batch.tile_uploads _)),
    )

  -- The published checkpoint is a new one, which the lock holds, and all tiles are stored.
  abbrev pub PublishedWithTiles : World → Type 0
  PublishedWithTiles w =
      (c : Candidates) × (checkpoint : Bytes) × (signer.sign_tree_head (head_of c) ≡ ok checkpoint)
      × (w.lock ≡ some checkpoint)
      × (w.objects
          ≡ put checkpoint_key checkpoint opts_checkpoint
              (store_all c.batch.tile_uploads (bundled_of c)))

  unpublished :
      (c : Candidates) (m : Map Bytes Object)
      → Partly c.batch.tile_uploads (bundled_of c) m
      → lookup checkpoint_key m ≡ lookup checkpoint_key s.world.objects
  unpublished c m p =
      lookup-Partly _ _ _ m checkpoint_key_other (keys_of c) p
      ∙ lookup-put_other _ checkpoint_key c.staged opts_staging s.world.objects
          (staging_path-ne-checkpoint_key (head_of c).tree)

  module _ (s' : State) where
    pub Phase-published :
        (r : Result)
        → InPhase r s'
        → (lookup checkpoint_key s'.world.objects ≡ lookup checkpoint_key s.world.objects)
          ⊎ PublishedWithTiles s'.world
    Phase-published r (untouched _ _ f k l o) = inl (ap (lookup checkpoint_key) o)
    Phase-published r (staged _ _ c f k l o) =
        inl (rw (o) (unpublished c _ (Partly-none c.batch.tile_uploads _)))
    Phase-published r (lost _ _ c checkpoint f k l o) =
        inl (rw (o) (unpublished c _ (Partly-none c.batch.tile_uploads _)))
    Phase-published r (applying _ _ c checkpoint f k l p) = inl (unpublished c _ p)
    Phase-published r (applied _ _ c checkpoint f k l o) =
        inl (rw (o) (unpublished c _ (Partly-all c.batch.tile_uploads _)))
    Phase-published r (published _ _ c checkpoint k (sign, old, new) o) =
        inr (c, checkpoint, sign, new, o)

  -- The log knows the head that its lock's checkpoint was signed from.
  abbrev pub IsSynced : State → Type 0
  IsSynced t =
      (signer.sign_tree_head t.log.tree ≡ ok t.log.lock_checkpoint)
      × (t.world.lock ≡ some t.log.lock_checkpoint)

  -- All tiles of a batch are stored, and perhaps its checkpoint.
  abbrev pub TilesStored : TreeWithTimestamp → Map Bytes Object → Type 0
  TilesStored tree objects =
      (c : Candidates) × (tree ≡ head_of c)
      × (checkpoint : Bytes) × (signer.sign_tree_head (head_of c) ≡ ok checkpoint)
      × ((objects ≡ store_all c.batch.tile_uploads (bundled_of c))
          ⊎ (objects
              ≡ put checkpoint_key checkpoint opts_checkpoint
                  (store_all c.batch.tile_uploads (bundled_of c))))

  pub grown :
      (c : Candidates) (t : TreeWithTimestamp)
      → t ≡ head_of c
      → (s.log.tree.time < t.time)
        × (t.n ≡ s.log.tree.n + length (pool_at s.log.pools id).pending_leaves)
  grown c t h = rw (h) (c.progress, (make_batch_entries cb sha256 tlog _ _ _ _ c.batch c.made).1)

  module _ (s' : State) where
    pub Phase-IsSynced :
        (r : Result) → InPhase r s' → ¬ Fatal checkpoint_not_replaced r → IsSynced s → IsSynced s'
    unfolding commit_batch
    Phase-IsSynced r (untouched _ _ f k l o) alive (sign, lock) = rw (k, l) (sign, lock)
    Phase-IsSynced r (staged _ _ c f k l o) alive (sign, lock) = rw (k, l) (sign, lock)
    Phase-IsSynced r (lost _ _ c checkpoint f k l o) alive synced = absurd (alive f)
    Phase-IsSynced r (applying _ _ c checkpoint f k (sign, old, new) p) alive synced =
        rw (k, new) (sign, refl)
    Phase-IsSynced r (applied _ _ c checkpoint f k (sign, old, new) o) alive synced =
        rw (k, new) (sign, refl)
    Phase-IsSynced r (published _ _ c checkpoint k (sign, old, new) o) alive synced =
        rw (k, new) (sign, refl)

    -- The log is what it was, or it agrees with the lock on a tree of now.
    pub Phase-signed :
        (r : Result)
        → InPhase r s'
        → ((s'.log.tree ≡ s.log.tree) × (s'.log.lock_checkpoint ≡ s.log.lock_checkpoint))
          ⊎ (IsSynced s' × (s'.log.tree.time ≡ s.world.now))
    unfolding commit_batch
    Phase-signed r (untouched _ _ f k l o) = inl (rw (k) (refl, refl))
    Phase-signed r (staged _ _ c f k l o) = inl (rw (k) (refl, refl))
    Phase-signed r (lost _ _ c checkpoint f k l o) = inl (rw (k) (refl, refl))
    Phase-signed r (applying _ _ c checkpoint f k (sign, old, new) p) =
        inr (rw (k, new) ((sign, refl), refl))
    Phase-signed r (applied _ _ c checkpoint f k (sign, old, new) o) =
        inr (rw (k, new) ((sign, refl), refl))
    Phase-signed r (published _ _ c checkpoint k (sign, old, new) o) =
        inr (rw (k, new) ((sign, refl), refl))

    pub Phase-tiles :
        (r : Result)
        → InPhase r s'
        → ¬ Fatal tile_not_uploaded r
        → (s'.log.tree ≡ s.log.tree) ⊎ TilesStored s'.log.tree s'.world.objects
    unfolding commit_batch
    Phase-tiles r (untouched _ _ f k l o) alive = inl (ap (λ x. x.tree) k)
    Phase-tiles r (staged _ _ c f k l o) alive = inl (ap (λ x. x.tree) k)
    Phase-tiles r (lost _ _ c checkpoint f k l o) alive = inl (ap (λ x. x.tree) k)
    Phase-tiles r (applying _ _ c checkpoint f k l p) alive = absurd (alive f)
    Phase-tiles r (applied _ _ c checkpoint f k l o) alive =
        inr (c, ap (λ x. x.tree) k, checkpoint, l.0, inl o)
    Phase-tiles r (published _ _ c checkpoint k l o) alive =
        inr (c, ap (λ x. x.tree) k, checkpoint, l.0, inr o)

    pub Phase-grows :
        (r : Result)
        → InPhase r s'
        → (s'.log.tree ≡ s.log.tree)
          ⊎ ((s.log.tree.time < s'.log.tree.time)
              × (s'.log.tree.n ≡ s.log.tree.n + length (pool_at s.log.pools id).pending_leaves))
    unfolding commit_batch
    Phase-grows r (untouched _ _ f k l o) = inl (ap (λ x. x.tree) k)
    Phase-grows r (staged _ _ c f k l o) = inl (ap (λ x. x.tree) k)
    Phase-grows r (lost _ _ c checkpoint f k l o) = inl (ap (λ x. x.tree) k)
    Phase-grows r (applying _ _ c checkpoint f k l p) = inr (grown c _ (ap (λ x. x.tree) k))
    Phase-grows r (applied _ _ c checkpoint f k l o) = inr (grown c _ (ap (λ x. x.tree) k))
    Phase-grows r (published _ _ c checkpoint k l o) = inr (grown c _ (ap (λ x. x.tree) k))

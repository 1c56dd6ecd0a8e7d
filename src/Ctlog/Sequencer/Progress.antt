-- ===== src/Ctlog/Sequencer/Progress.antt =====
-- Every run of `sequencePool` (ctlog.go) ends in one of the phases.
use sunlight.Prelude.{
  ℕ, ◌≡◌, refl, sym, ◌∙◌, ap, List, Option, none, some, Outcome, ok, err, panic, inl, inr, ◌⊎◌,
}
use sunlight.Prelude.Maps.{Map, bytes_eq}
use sunlight.Errors.{
  LogError, checkpoint_not_replaced, tile_not_uploaded, staging_not_uploaded, checkpoint_not_signed,
  checkpoint_not_uploaded,
}
use sunlight.Cryptobyte.{Cryptobyte}
use sunlight.Cryptobyte.Wire.{Bytes}
use sunlight.Ctlog.Action.{wrap, continue, pure}
use sunlight.Ctlog.World.{World, Object, CacheRow}
use sunlight.Ctlog.World.Frames.{call_cases, put, upload_cases, lock_replace_cases}
use sunlight.Ctlog.Entries.{put_rows, commit_rows, cache_put}
use sunlight.Ctlog.Types.{Tlog, TreeWithTimestamp}
use sunlight.Ctlog.Paths.{staging_path, checkpoint_key}
use sunlight.Ctlog.Pool.{State, caught}
use sunlight.Ctlog.Staging.{Archive}
use sunlight.Ctlog.Staging.Bundle.{store_all, upload_all_cases, apply-marshal_staged_uploads}
use sunlight.Ctlog.Sequencer.{
  CheckpointSigner, opts_staging, opts_checkpoint, commit_batch, publish, record_entries,
  upload_checkpoint, apply_batch, commit_and_apply, sign_and_publish, upload_bundle,
}
use sunlight.Ctlog.Sequencer.Phases.{
  Result, Failed, Fatal, renamed_cases, Candidate, head, bundled, tiled, Locked, Committed, Phase,
  untouched, staged, lost, applying, applied, published,
}

pub failed : {r : Result} {e : LogError} → Fatal e r → Failed r
failed (inl h) = inl (_, h)
failed (inr h) = inr h

commit_rows_cases :
    (Q : Result × World → Type 0) (table : Option (List CacheRow)) (w : World)
    → ((r : Result) (w' : World) → w'.lock ≡ w.lock → w'.objects ≡ w.objects → Q (r, w'))
    → Q (commit_rows table w)
unfolding commit_rows
commit_rows_cases Q none w k = k _ w refl refl
commit_rows_cases Q (some table) w k =
    call_cases _ _ Q w (λ r. k r _ refl refl) (λ r. k r _ refl refl)

put_rows_cases :
    (Q : Result × World → Type 0) (rows : Outcome LogError (List CacheRow)) (w : World)
    → ((r : Result) (w' : World) → w'.lock ≡ w.lock → w'.objects ≡ w.objects → Q (r, w'))
    → Q (put_rows rows w)
unfolding put_rows
put_rows_cases Q (ok rows) w k = commit_rows_cases Q _ w k
put_rows_cases Q (err e) w k = k _ w refl refl
put_rows_cases Q panic w k = k _ w refl refl

module _ {Builder : Type 0} (cb : Cryptobyte Builder) (sha256 : Bytes → Bytes) (tlog : Tlog)
    (archive : Archive) (signer : CheckpointSigner) (id : ℕ) (s : State)
    (c : Candidate cb sha256 tlog archive signer id s) where
  abbrev IsPhase : Result × State → Type 0
  IsPhase x = Phase cb sha256 tlog archive signer id s x.0 x.1

  abbrev candidate_head : TreeWithTimestamp
  candidate_head = head cb sha256 tlog archive signer c

  abbrev with_bundle : Map Bytes Object
  with_bundle = bundled cb sha256 tlog archive signer c

  abbrev with_tiles : Map Bytes Object
  with_tiles = tiled cb sha256 tlog archive signer c

  module _ (checkpoint : Bytes) (s₁ : State)
      (commit : Committed cb sha256 tlog archive signer c checkpoint s₁)
      (lock : Locked cb sha256 tlog archive signer c checkpoint s₁) where
    abbrev relock :
        {l : Option Bytes}
        → l ≡ s₁.world.lock
        → (signer.sign_tree_head candidate_head ≡ ok checkpoint)
          × (s.world.lock ≡ some s.log.lock_checkpoint)
          × (l ≡ some checkpoint)
    relock same = (lock.0, lock.1, same ∙ lock.2)

    published_end :
        (r : Result) (w : World)
        → w.lock ≡ s₁.world.lock
        → w.objects ≡ put checkpoint_key checkpoint opts_checkpoint with_tiles
        → IsPhase (caught (r, record s₁ { world = w }) pure (λ _. pure tt))
    published_end (ok _) w l o = published _ _ c checkpoint commit (relock l) o
    published_end (err _) w l o = published _ _ c checkpoint commit (relock l) o
    published_end panic w l o = published _ _ c checkpoint commit (relock l) o

    record_entries-Phase :
        s₁.world.objects ≡ put checkpoint_key checkpoint opts_checkpoint with_tiles
        → IsPhase (record_entries cb sha256 tlog archive signer c.batch s₁)
    unfolding record_entries cache_put
    record_entries-Phase o =
        put_rows_cases (λ x. IsPhase (caught (x.0, record s₁ { world = x.1 }) pure (λ _. pure tt)))
          _ s₁.world (λ r w l o'. published_end r w l (o' ∙ o))

    -- An upload of the checkpoint that may have had its effect.
    uploaded_or_not :
        (r : Result) (w : World)
        → Failed r
        → w.lock ≡ s₁.world.lock
        → s₁.world.objects ≡ with_tiles
        → w.objects ≡ s₁.world.objects
          ⊎ w.objects ≡ put checkpoint_key checkpoint opts_checkpoint s₁.world.objects
        → IsPhase (r, record s₁ { world = w })
    uploaded_or_not r w failed l o (inl h) =
        applied _ _ c checkpoint failed commit (relock l) (h ∙ o)
    uploaded_or_not r w failed l o (inr h) =
        published _ _ c checkpoint commit (relock l)
          (h ∙ ap (put checkpoint_key checkpoint opts_checkpoint) o)

  upload_checkpoint-Phase :
      (checkpoint : Bytes) (s₁ : State)
      → Committed cb sha256 tlog archive signer c checkpoint s₁
      → Locked cb sha256 tlog archive signer c checkpoint s₁
      → s₁.world.objects ≡ with_tiles
      → IsPhase (upload_checkpoint cb sha256 tlog archive signer c.batch checkpoint s₁)
  unfolding upload_checkpoint
  upload_checkpoint-Phase checkpoint s₁ commit lock o =
      upload_cases checkpoint_key checkpoint opts_checkpoint
        (λ x. IsPhase (
          continue (wrap checkpoint_not_uploaded (x.0, record s₁ { world = x.1 }))
            (λ _. record_entries cb sha256 tlog archive signer c.batch)))
        s₁.world
        (λ w l o'.
          record_entries-Phase checkpoint (record s₁ { world = w }) commit
            (relock checkpoint s₁ commit lock l)
            (o' ∙ ap (put checkpoint_key checkpoint opts_checkpoint) o))
        (λ w l h. uploaded_or_not checkpoint s₁ commit lock _ w (inl (_, refl)) l o h)
        (λ w l h. uploaded_or_not checkpoint s₁ commit lock _ w (inr refl) l o h)

  apply_batch-Phase :
      (checkpoint : Bytes) (s₁ : State)
      → Committed cb sha256 tlog archive signer c checkpoint s₁
      → Locked cb sha256 tlog archive signer c checkpoint s₁
      → s₁.world.objects ≡ with_bundle
      → IsPhase (apply_batch cb sha256 tlog archive signer c.batch c.staged checkpoint s₁)
  unfolding apply_batch
  apply_batch-Phase checkpoint s₁ commit lock o =
      rw (apply-marshal_staged_uploads archive c.batch.tile_uploads c.staged s₁.world c.marshalled)
        (upload_all_cases
          (λ x. IsPhase (
            continue (wrap tile_not_uploaded (x.0, record s₁ { world = x.1 }))
              (λ _. upload_checkpoint cb sha256 tlog archive signer c.batch checkpoint)))
          c.batch.tile_uploads s₁.world
          (λ w l o'.
            upload_checkpoint-Phase checkpoint (record s₁ { world = w }) commit
              (relock checkpoint s₁ commit lock l) (o' ∙ ap (store_all c.batch.tile_uploads) o))
          (λ e w l p.
            applying _ _ c checkpoint (inl refl) commit (relock checkpoint s₁ commit lock l)
              (rw o at p))
          (λ w l p.
            applying _ _ c checkpoint (inr refl) commit (relock checkpoint s₁ commit lock l)
              (rw o at p)))

  -- A replacement of the lock that failed, or was the last thing done.
  replaced_or_not :
      (r : Result) (checkpoint : Bytes) (s₁ : State) (w : World)
      → Fatal checkpoint_not_replaced r
      → signer.sign_tree_head candidate_head ≡ ok checkpoint
      → s₁.log ≡ s.log
      → s₁.world.lock ≡ s.world.lock
      → w.objects ≡ with_bundle
      → w.lock ≡ s₁.world.lock
        ⊎ (s₁.world.lock ≡ some s₁.log.lock_checkpoint × w.lock ≡ some checkpoint)
      → IsPhase (r, record s₁ { world = w })
  replaced_or_not r checkpoint s₁ w fatal signed g l o (inl h) =
      staged _ _ c (failed fatal) g (h ∙ l) o
  replaced_or_not r checkpoint s₁ w fatal signed g l o (inr h) =
      lost _ _ c checkpoint fatal g
        (signed, sym l ∙ (h.0 ∙ ap (λ x. some x.lock_checkpoint) g), h.1) o

  publish-Phase :
      (checkpoint : Bytes) (s₁ : State)
      → signer.sign_tree_head candidate_head ≡ ok checkpoint
      → s₁.log ≡ s.log
      → s₁.world.lock ≡ s.world.lock
      → s₁.world.objects ≡ with_bundle
      → IsPhase
          (publish cb sha256 tlog archive signer id candidate_head c.batch c.staged checkpoint s₁)
  unfolding publish commit_and_apply commit_batch
  publish-Phase checkpoint s₁ signed g l o =
      lock_replace_cases s₁.log.lock_checkpoint checkpoint
        (λ x. IsPhase (
          continue (wrap checkpoint_not_replaced (x.0, record s₁ { world = x.1 })) (
            commit_and_apply cb sha256 tlog archive signer id candidate_head c.batch c.staged
              checkpoint)))
        s₁.world
        (λ w o' old new.
          apply_batch-Phase checkpoint
            (commit_batch id candidate_head checkpoint c.batch (record s₁ { world = w }))
            (ap
              (λ x. (commit_batch id candidate_head checkpoint c.batch (record s { log = x })).log)
              g)
            (signed, sym l ∙ (old ∙ ap (λ x. some x.lock_checkpoint) g), new) (o' ∙ o))
        (λ w o' h. replaced_or_not _ checkpoint s₁ w (inl refl) signed g l (o' ∙ o) h)
        (λ w o' h. replaced_or_not _ checkpoint s₁ w (inr refl) signed g l (o' ∙ o) h)

  sign_and_publish-Phase :
      (s₁ : State)
      → s₁.log ≡ s.log
      → s₁.world.lock ≡ s.world.lock
      → s₁.world.objects ≡ with_bundle
      → IsPhase
          (sign_and_publish cb sha256 tlog archive signer id candidate_head c.batch c.staged s₁)
  unfolding sign_and_publish
  sign_and_publish-Phase s₁ g l o =
      renamed_cases IsPhase _ s₁ checkpoint_not_signed _
        (λ checkpoint signed. publish-Phase checkpoint s₁ signed g l o)
        (λ e. staged _ _ c (inl (_, refl)) g l o) (staged _ _ c (inr refl) g l o)

  bundle_or_not :
      (r : Result) (w : World)
      → Failed r
      → w.lock ≡ s.world.lock
      → w.objects ≡ s.world.objects ⊎ w.objects ≡ with_bundle
      → IsPhase (r, record s { world = w })
  bundle_or_not r w failed l (inl o) = untouched _ _ failed refl l o
  bundle_or_not r w failed l (inr o) = staged _ _ c failed refl l o

  pub upload_bundle-Phase :
      IsPhase (upload_bundle cb sha256 tlog archive signer id candidate_head c.batch c.staged s)
  unfolding upload_bundle
  upload_bundle-Phase =
      upload_cases (staging_path candidate_head.tree) c.staged opts_staging
        (λ x. IsPhase (
          continue (wrap staging_not_uploaded (x.0, record s { world = x.1 })) (λ _.
            sign_and_publish cb sha256 tlog archive signer id candidate_head c.batch c.staged)))
        s.world (λ w l o. sign_and_publish-Phase (record s { world = w }) refl l o)
        (λ w l h. bundle_or_not _ w (inl (_, refl)) l h) (λ w l h. bundle_or_not _ w (inr refl) l h)

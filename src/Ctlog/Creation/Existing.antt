-- ===== src/Ctlog/Creation/Existing.antt =====
-- `CreateLog` (ctlog.go) where there is a log already.
use sunlight.Prelude.{◌≡◌, ◌≢◌, refl, ◌∙◌, some, Outcome, ok, err, panic, true}
use sunlight.Errors.{
  LogError, cache_failed, log_exists, checkpoint_present, backend_failed, lock_failed,
  checkpoint_not_signed, tree_head_not_computed, checkpoint_not_uploaded,
}
use sunlight.Cryptobyte.Wire.{Bytes}
use sunlight.Ctlog.Action.{renamed, continue, wrap, or_else}
use sunlight.Ctlog.World.{
  World, call, ask, upload, first_fault, fetch, lock_fetch, lock_create, is_some,
}
use sunlight.Ctlog.World.Frames.{call_cases, perform_cases}
use sunlight.Ctlog.Types.{Tlog}
use sunlight.Ctlog.Sequencer.{CheckpointSigner, tree_head, opts_checkpoint}
use sunlight.Ctlog.Paths.{checkpoint_key}
use sunlight.Ctlog.Creation.{
  unless_fetched, lock_and_publish, sign_and_lock, create_empty, open_cache_and_create,
  create_unpublished, create_log,
}

abbrev pub Result : Type 0
Result = Outcome LogError (Unit {0})

-- No success, and neither the lock nor the object storage has changed.
abbrev pub IsRefused : World → Result × World → Type 0
IsRefused w x = (x.0 ≢ ok tt) × (x.1.lock ≡ w.lock) × (x.1.objects ≡ w.objects)

ask_cases :
    {A : Type 0} (r : World → Outcome LogError A) (e : LogError)
    (Q : Outcome LogError A × World → Type 0) (w : World)
    → ((x : Outcome LogError A) (w' : World)
        → w'.lock ≡ w.lock
        → w'.objects ≡ w.objects
        → Q (x, w'))
    → Q (ask r e w)
unfolding ask
ask_cases r e Q w k = called
  where
    after_call :
        (x : Result) (w' : World)
        → w'.lock ≡ w.lock
        → w'.objects ≡ w.objects
        → Q (continue (x, w') (λ _ v. (r v, v)))
    after_call (ok _) w' l o = k _ w' l o
    after_call (err f) w' l o = k (err f) w' l o
    after_call panic w' l o = k panic w' l o

    called : Q (continue (call (λ v. v) e w) (λ _ v. (r v, v)))
    called =
        call_cases (λ v. v) e (λ x. Q (continue x (λ _ v. (r v, v)))) w
          (λ x. after_call x _ refl refl) (λ x. after_call x _ refl refl)

module _ (tlog : Tlog) (signer : CheckpointSigner) (w : World) (b : Bytes)
    (there : w.lock ≡ some b) where
  lock_and_publish-IsRefused :
      (checkpoint : Bytes) (v : World)
      → v.lock ≡ w.lock
      → v.objects ≡ w.objects
      → IsRefused w (lock_and_publish tlog signer checkpoint v)
  unfolding lock_and_publish lock_create ask call
  lock_and_publish-IsRefused checkpoint v l o =
      let held : is_some v.lock ≡ true = rw (l, there) refl in
      rw (held) (
        perform_cases (λ u. u) lock_failed
          (λ (x : Result × World). IsRefused w (
            continue {A = Unit {0}} {B = Unit {0}}
              (wrap lock_failed
                (continue {A = Unit {0}} {B = Unit {0}} x (λ _ u. (err lock_failed, u))))
              (λ _.
                or_else checkpoint_not_uploaded
                  (upload checkpoint_key checkpoint opts_checkpoint))))
          _ (first_fault v.faults) ((λ h. cc h), l, o) ((λ h. cc h), l, o) ((λ h. cc h), l, o)
          ((λ h. cc h), l, o) ((λ h. cc h), l, o))

  sign_and_lock-IsRefused :
      (r : Outcome LogError Bytes) (v : World)
      → v.lock ≡ w.lock
      → v.objects ≡ w.objects
      → IsRefused w (continue (renamed checkpoint_not_signed r, v) (lock_and_publish tlog signer))
  sign_and_lock-IsRefused (ok c) v l o = lock_and_publish-IsRefused c v l o
  sign_and_lock-IsRefused (err e) v l o = ((λ h. cc h), l, o)
  sign_and_lock-IsRefused panic v l o = ((λ h. cc h), l, o)

  create_empty-IsRefused :
      (r : Outcome LogError Bytes) (v : World)
      → v.lock ≡ w.lock
      → v.objects ≡ w.objects
      → IsRefused w (
          continue
            (renamed tree_head_not_computed r, v)
            (λ hash u. sign_and_lock tlog signer (tree_head 0 hash v.now) u))
  unfolding sign_and_lock
  create_empty-IsRefused (ok c) v l o = sign_and_lock-IsRefused _ v l o
  create_empty-IsRefused (err e) v l o = ((λ h. cc h), l, o)
  create_empty-IsRefused panic v l o = ((λ h. cc h), l, o)

  opened-IsRefused :
      (r : Result) (v : World)
      → v.lock ≡ w.lock
      → v.objects ≡ w.objects
      → IsRefused w (continue (r, v) (λ _. create_empty tlog signer))
  unfolding create_empty
  opened-IsRefused (ok _) v l o = create_empty-IsRefused _ v l o
  opened-IsRefused (err e) v l o = ((λ h. cc h), l, o)
  opened-IsRefused panic v l o = ((λ h. cc h), l, o)

  open_cache-IsRefused :
      (v : World)
      → v.lock ≡ w.lock
      → v.objects ≡ w.objects
      → IsRefused w (open_cache_and_create tlog signer v)
  unfolding open_cache_and_create
  open_cache-IsRefused v l o =
      call_cases (λ u. u) cache_failed
        (λ x. IsRefused w (continue x (λ _. create_empty tlog signer))) v
        (λ r. opened-IsRefused r _ l o) (λ r. opened-IsRefused r _ l o)

  unpublished-IsRefused :
      (r : Outcome LogError Bytes) (v : World)
      → v.lock ≡ w.lock
      → v.objects ≡ w.objects
      → IsRefused w (unless_fetched (r, v) checkpoint_present (open_cache_and_create tlog signer))
  unpublished-IsRefused (ok c) v l o = ((λ h. cc h), l, o)
  unpublished-IsRefused (err e) v l o = open_cache-IsRefused v l o
  unpublished-IsRefused panic v l o = ((λ h. cc h), l, o)

  create_unpublished-IsRefused :
      (r : Outcome LogError Bytes) (v : World)
      → v.lock ≡ w.lock
      → v.objects ≡ w.objects
      → IsRefused w (unless_fetched (r, v) log_exists (create_unpublished tlog signer))
  unfolding create_unpublished fetch
  create_unpublished-IsRefused (ok c) v l o = ((λ h. cc h), l, o)
  create_unpublished-IsRefused (err e) v l o =
      ask_cases _ backend_failed
        (λ x. IsRefused w (unless_fetched x checkpoint_present (open_cache_and_create tlog signer)))
        v (λ r u l' o'. unpublished-IsRefused r u (l' ∙ l) (o' ∙ o))
  create_unpublished-IsRefused panic v l o = ((λ h. cc h), l, o)

  -- Where the lock has a checkpoint, the creation of a log does not succeed, and changes neither the
  -- lock nor the object storage, whatever calls fail, those included that look for the log.
  pub create_log-IsRefused : IsRefused w (create_log tlog signer w)
  unfolding create_log lock_fetch
  create_log-IsRefused =
      ask_cases _ lock_failed
        (λ x. IsRefused w (unless_fetched x log_exists (create_unpublished tlog signer))) w
        (λ r v l o. create_unpublished-IsRefused r v l o)

-- ===== src/Ctlog/World/Frames.antt =====
-- What a call of a backend can come to, whatever its fault: the cases in which proofs about the
-- callers go.
use sunlight.Prelude.{
  ◌≡◌, refl, Option, none, some, true, Outcome, ok, err, panic, inl, inr, ◌⊎◌, Bool-cases, ap,
}
use sunlight.Prelude.Maps.{Map, insert, bytes_eq, bytes_beq_iff}
use sunlight.Errors.{LogError, backend_failed, lock_failed}
use sunlight.Cryptobyte.Wire.{Bytes}
use sunlight.Ctlog.Action.{pure, continue}
use sunlight.Ctlog.World.{
  ask, UploadOptions, Object, Fault, works, fails_before, fails_after, dies_before, dies_after,
  World, perform, call, upload, lock_replace, holds, first_fault, rest_faults,
}

-- The objects after an upload that had its effect.
abbrev pub put : Bytes → Bytes → UploadOptions → Map Bytes Object → Map Bytes Object
put key content options = insert key (record { content = content; options = options })

module _ (f : World → World) (e : LogError) (Q : Outcome LogError (Unit {0}) × World → Type 0)
    (w : World) where
  pub perform_cases :
      (x : Fault)
      → Q (ok tt, f w)
      → Q (err e, w)
      → Q (err e, f w)
      → Q (panic, w)
      → Q (panic, f w)
      → Q (perform x f e w)
  unfolding perform
  perform_cases works a b c d g = a
  perform_cases fails_before a b c d g = b
  perform_cases fails_after a b c d g = c
  perform_cases dies_before a b c d g = d
  perform_cases dies_after a b c d g = g

module _ (key content : Bytes) (options : UploadOptions)
    (Q : Outcome LogError (Unit {0}) × World → Type 0) (w : World) where
  pub upload_cases :
      ((w' : World)
        → w'.lock ≡ w.lock
        → w'.objects ≡ put key content options w.objects
        → Q (ok tt, w'))
      → ((w' : World)
          → w'.lock ≡ w.lock
          → w'.objects ≡ w.objects ⊎ w'.objects ≡ put key content options w.objects
          → Q (err backend_failed, w'))
      → ((w' : World)
          → w'.lock ≡ w.lock
          → w'.objects ≡ w.objects ⊎ w'.objects ≡ put key content options w.objects
          → Q (panic, w'))
      → Q (upload key content options w)
  unfolding upload call
  upload_cases good bad dead =
      perform_cases _ _ Q _ (first_fault w.faults) (good _ refl refl) (bad _ refl (inl refl))
        (bad _ refl (inr refl)) (dead _ refl (inl refl)) (dead _ refl (inr refl))

holds-some : (l : Option Bytes) (old : Bytes) → holds l old ≡ true → l ≡ some old
holds-some none old h = absurd (cc h)
holds-some (some b) old h = ap some ((bytes_beq_iff b old).0 h)

module _ (old new : Bytes) (Q : Outcome LogError Bytes × World → Type 0) (w : World) where
  pub lock_replace_cases :
      ((w' : World)
        → w'.objects ≡ w.objects
        → w.lock ≡ some old
        → w'.lock ≡ some new
        → Q (ok new, w'))
      → ((w' : World)
          → w'.objects ≡ w.objects
          → w'.lock ≡ w.lock ⊎ (w.lock ≡ some old × w'.lock ≡ some new)
          → Q (err lock_failed, w'))
      → ((w' : World)
          → w'.objects ≡ w.objects
          → w'.lock ≡ w.lock ⊎ (w.lock ≡ some old × w'.lock ≡ some new)
          → Q (panic, w'))
      → Q (lock_replace old new w)
  unfolding lock_replace ask call
  lock_replace_cases good bad dead = elim (Bool-cases (holds w.lock old)) [
    | inl h ↦
        let old_lock = holds-some w.lock old h in
        rw (h) (
          perform_cases _ _ (λ x. Q (continue x (λ _. pure new))) _ (first_fault w.faults)
            (good _ refl old_lock refl) (bad _ refl (inl refl)) (bad _ refl (inr (old_lock, refl)))
            (dead _ refl (inl refl)) (dead _ refl (inr (old_lock, refl))))
    | inr h ↦ rw (h) (
        perform_cases _ _ (λ x. Q (continue x (λ _ v. (err lock_failed, v)))) _
          (first_fault w.faults) (bad _ refl (inl refl)) (bad _ refl (inl refl))
          (bad _ refl (inl refl)) (dead _ refl (inl refl)) (dead _ refl (inl refl)))
  ]

module _ (f : World → World) (e : LogError) (Q : Outcome LogError (Unit {0}) × World → Type 0)
    (w : World) where
  pub call_cases :
      ((r : Outcome LogError (Unit {0})) → Q (r, record w { faults = rest_faults w.faults }))
      → ((r : Outcome LogError (Unit {0})) → Q (r, f (record w { faults = rest_faults w.faults })))
      → Q (call f e w)
  unfolding call
  call_cases before after =
      perform_cases f e Q _ (first_fault w.faults) (after _) (before _) (after _) (before _)
        (after _)

-- ===== src/Ctlog/Locks/Abstract.antt =====
-- The lock of the log's world (ctlog.go, `LockBackend`), against what the lock backends promise.
use sunlight.Prelude.{
  true, false, err, ◌≡◌, refl, ◌∙◌, ap, inl, inr, [], ◌∷◌, Option, none, some, Bool-cases,
  Option-cases,
}
use sunlight.Prelude.Maps.{Map, lookup, insert, bytes_eq, bytes_beq_iff}
use sunlight.Errors.{LogError, lock_failed, not_found}
use sunlight.Cryptobyte.Wire.{Bytes}
use sunlight.Ctlog.Action.{pure}
use sunlight.Ctlog.World.Frames.{call_cases}
use sunlight.Ctlog.World.{
  World, Fault, works, fails_before, fails_after, dies_before, dies_after, perform, call, ask,
  holds, is_some, lock_fetch, lock_replace, lock_create, first_fault, rest_faults, locked,
}
use sunlight.Ctlog.Locks.{
  is_ok, Called, worked, failed, Fetched, found, missing, Replaced, swapped, refused, Created,
  created, exists,
}
use sunlight.Ctlog.Locks.Calls.{Called-continue, Called-refuse}

abbrev row : Bytes → Option Bytes → Map Bytes Bytes
row id none = []
row id (some b) = (id, b) ∷ []

-- The store of a lock backend with the one log `id`
abbrev pub cells_of : Bytes → World → Map Bytes Bytes
cells_of id w = row id w.lock

lookup-row : (id : Bytes) (o : Option Bytes) → lookup id (row id o) ≡ o
unfolding lookup
lookup-row id none = refl
lookup-row id (some b) = rw ((bytes_beq_iff id id).1 refl) refl

insert-row : (id b : Bytes) (o : Option Bytes) → insert id b (row id o) ≡ row id (some b)
unfolding insert
insert-row id b none = refl
insert-row id b (some a) = rw ((bytes_beq_iff id id).1 refl) refl

perform-Called :
    (id : Bytes) (x : Fault) (f : World → World) (e : LogError) (w : World)
    → Called
        (cells_of id w)
        (cells_of id (f w))
        tt
        (perform x f e w).0
        (cells_of id (perform x f e w).1)
unfolding perform
perform-Called id works f e w = worked refl refl
perform-Called id fails_before f e w = failed refl (inl refl)
perform-Called id fails_after f e w = failed refl (inr refl)
perform-Called id dies_before f e w = failed refl (inl refl)
perform-Called id dies_after f e w = failed refl (inr refl)

abbrev counted : World → World
counted w = record w { faults = rest_faults w.faults }

call-Called :
    (id : Bytes) (f : World → World) (e : LogError) (w : World)
    → Called
        (cells_of id w)
        (cells_of id (f (counted w)))
        tt
        (call f e w).0
        (cells_of id (call f e w).1)
unfolding call
call-Called id f e w = perform-Called id (first_fault w.faults) f e (counted w)

idle-lock : (e : LogError) (w : World) → (call (λ v. v) e w).1.lock ≡ w.lock
idle-lock e w = call_cases (λ v. v) e (λ x. x.1.lock ≡ w.lock) w (λ r. refl) (λ r. refl)

fetch_case :
    (id : Bytes) (w : World)
    → Fetched (λ b. b) id (cells_of id w) (lock_fetch w).0 (cells_of id (lock_fetch w).1)
unfolding lock_fetch ask
fetch_case id w =
    let m = call (λ v. v) lock_failed w in
    let called = call-Called id (λ v. v) lock_failed w in
    let lock = idle-lock lock_failed w in
    elim (Option-cases w.lock) [
      | inl unlocked ↦
          let (refusal, same) =
            Called-refuse (cells_of id) not_found m (λ _ v. (locked v.lock, v))
              (λ k. rw (lock, unlocked) refl) refl called in
          missing (lookup-row id w.lock ∙ unlocked) refusal same
      | inr (b, held) ↦ found b (lookup-row id w.lock ∙ held) (
          Called-continue (cells_of id) m (λ _ v. (locked v.lock, v)) (λ k. rw (lock, held) refl)
            called)
    ]

-- A call that is refused if it works
refused_call :
    (A : Type 0) (id : Bytes) (w : World)
    → (let m = ask {A = A} (λ _. err lock_failed) lock_failed w in
        (is_ok m.0 ≡ false) × (cells_of id m.1 ≡ cells_of id w))
unfolding ask
refused_call A id w =
    Called-refuse (cells_of id) lock_failed (call (λ v. v) lock_failed w)
      (λ _ v. (err lock_failed, v)) (λ k. refl) refl (call-Called id (λ v. v) lock_failed w)

replace_case :
    (id old new : Bytes) (w : World)
    → Replaced
        (λ b. b)
        id
        old
        new
        (cells_of id w)
        (lock_replace old new w).0
        (cells_of id (lock_replace old new w).1)
unfolding lock_replace ask
replace_case id old new w =
    let f : World → World = λ v. record v { lock = some new } in
    elim (Bool-cases (holds w.lock old)) [
      | inl held ↦ swapped (ap (λ o. holds o old) (lookup-row id w.lock) ∙ held) (
          rw (held, insert-row id new w.lock)
            (Called-continue (cells_of id) (call f lock_failed w) (λ _. pure new) (λ k. refl)
              (call-Called id f lock_failed w)))
      | inr not_held ↦
          let (refusal, same) = refused_call Bytes id w in
          refused (ap (λ o. holds o old) (lookup-row id w.lock) ∙ not_held) (rw (not_held) refusal)
            (rw (not_held) same)
    ]

create_case :
    (id new : Bytes) (w : World)
    → Created id new (cells_of id w) (lock_create new w).0 (cells_of id (lock_create new w).1)
unfolding lock_create ask
create_case id new w =
    let f : World → World = λ v. record v { lock = some new } in
    elim (Option-cases w.lock) [
      | inl unlocked ↦
          created (lookup-row id w.lock ∙ unlocked)
            (rw (ap is_some unlocked, insert-row id new w.lock) (call-Called id f lock_failed w))
      | inr (b, held) ↦
          let (refusal, same) = refused_call (Unit {0}) id w in
          let there : is_some w.lock ≡ true = ap is_some held in
          exists b (lookup-row id w.lock ∙ held) (rw (there) refusal) (rw (there) same)
    ]

-- The lock that the theorems on the log stand on does what `LockBackend` promises, on a store with
-- the one log.
lock-refines :
    (id old new : Bytes) (w : World)
    → (let m = lock_fetch w in Fetched (λ b. b) id (cells_of id w) m.0 (cells_of id m.1))
      × (let m = lock_replace old new w in
          Replaced (λ b. b) id old new (cells_of id w) m.0 (cells_of id m.1))
      × (let m = lock_create new w in Created id new (cells_of id w) m.0 (cells_of id m.1))
lock-refines id old new w = (fetch_case id w, replace_case id old new w, create_case id new w)

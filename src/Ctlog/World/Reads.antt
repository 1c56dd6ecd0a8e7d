-- ===== src/Ctlog/World/Reads.antt =====
-- Calls of a backend that read: they change nothing but the script of faults, and a call that
-- succeeds has read what is there.
use sunlight.Prelude.{◌≡◌, refl, sym, ◌∙◌, ap, Option, none, some, Outcome, ok, err, panic}
use sunlight.Prelude.Maps.{lookup, bytes_eq}
use sunlight.Errors.{LogError}
use sunlight.Cryptobyte.Wire.{Bytes}
use sunlight.Ctlog.Action.{Act, continue, wrap}
use sunlight.Ctlog.World.{
  World, call, ask, fetch, lock_fetch, object_content, locked, first_fault, rest_faults,
}
use sunlight.Ctlog.World.Frames.{perform_cases}

-- The same world, but for the script.
pub record IsSame (w w' : World) : Type 0 where
  pub objects : w'.objects ≡ w.objects
  pub lock : w'.lock ≡ w.lock
  pub cache : w'.cache ≡ w.cache
  pub now : w'.now ≡ w.now

pub IsSame-refl : (w : World) → IsSame w w
IsSame-refl w = record { objects = refl; lock = refl; cache = refl; now = refl }

pub IsSame-trans : {u v w : World} → IsSame u v → IsSame v w → IsSame u w
IsSame-trans a b = record {
  objects = b.objects ∙ a.objects;
  lock = b.lock ∙ a.lock;
  cache = b.cache ∙ a.cache;
  now = b.now ∙ a.now;
}

not_ok :
    {S A B : Type 0} {e : LogError} {a : A} (s s' : S)
    → ◌≡◌ {A = Outcome LogError A × S} (err e, s) (ok a, s')
    → B
not_ok s s' h = absurd (cc (ap (λ x. x.0) h))

not_panic :
    {S A B : Type 0} {a : A} (s s' : S) → ◌≡◌ {A = Outcome LogError A × S} (panic, s) (ok a, s') → B
not_panic s s' h = absurd (cc (ap (λ x. x.0) h))

-- Inversion of a sequence of actions that succeeded.
pub continue-eq-ok :
    {S A B : Type 0} (x : Outcome LogError A × S) (k : A → Act S B) {b : B} {s' : S}
    → continue x k ≡ (ok b, s')
    → (a : A) × (s : S) × (x ≡ (ok a, s)) × (k a s ≡ (ok b, s'))
continue-eq-ok (ok a, s) k h = (a, s, refl, h)
continue-eq-ok (err e, s) k h = not_ok _ _ h
continue-eq-ok (panic, s) k h = not_panic _ _ h

-- Inversion of a value that was lifted.
pub lifted-eq-ok :
    {S A B : Type 0} (r : Outcome LogError A) (s : S) (k : A → Act S B) {b : B} {s' : S}
    → continue (r, s) k ≡ (ok b, s')
    → (a : A) × (r ≡ ok a) × (k a s ≡ (ok b, s'))
lifted-eq-ok (ok a) s k h = (a, refl, h)
lifted-eq-ok (err e) s k h = not_ok _ _ h
lifted-eq-ok panic s k h = not_panic _ _ h

-- `or_else` passes a success on.
pub wrap-eq-ok :
    {S A : Type 0} (e : LogError) (x : Outcome LogError A × S) {a : A} {s' : S}
    → wrap e x ≡ (ok a, s')
    → x ≡ (ok a, s')
wrap-eq-ok e (ok a, s) h = h
wrap-eq-ok e (err f, s) h = not_ok _ _ h
wrap-eq-ok e (panic, s) h = not_panic _ _ h

module _ {A : Type 0} (r : World → Outcome LogError A) (e : LogError) (w : World) where
  pub ask-eq-ok : {a : A} {w' : World} → ask r e w ≡ (ok a, w') → IsSame w w' × (r w' ≡ ok a)
  unfolding ask call
  ask-eq-ok {a} {w'} =
      perform_cases (λ v. v) e
        (λ x. continue x (λ _ v. (r v, v)) ≡ (ok a, w') → IsSame w w' × (r w' ≡ ok a))
        (record w { faults = rest_faults w.faults }) (first_fault w.faults)
        (λ h.
          let same = ap (λ x. x.1) h in
          rw (← same)
            (record { objects = refl; lock = refl; cache = refl; now = refl }, ap (λ x. x.0) h))
        (λ h. not_ok _ _ h) (λ h. not_ok _ _ h) (λ h. not_panic _ _ h) (λ h. not_panic _ _ h)

locked-eq-ok : (l : Option Bytes) {c : Bytes} → locked l ≡ ok c → l ≡ some c
locked-eq-ok none h = absurd (cc h)
locked-eq-ok (some b) h = cc h

pub fetch-eq-ok :
    (key : Bytes) (w : World) {c : Bytes} {w' : World}
    → fetch key w ≡ (ok c, w')
    → IsSame w w' × (object_content (lookup key w.objects) ≡ ok c)
unfolding fetch
fetch-eq-ok key w h = let (same, found) = ask-eq-ok _ _ w h in (same, rw (same.objects) at found)

pub lock_fetch-eq-ok :
    (w : World) {c : Bytes} {w' : World}
    → lock_fetch w ≡ (ok c, w')
    → IsSame w w' × (w.lock ≡ some c)
unfolding lock_fetch
lock_fetch-eq-ok w h =
    let (same, found) = ask-eq-ok _ _ w h in (same, sym same.lock ∙ locked-eq-ok _ found)

-- A call without effect that succeeds changes nothing.
pub idle-eq-ok :
    (e : LogError) (w : World) {x : Unit {0}} {w' : World}
    → call (λ v. v) e w ≡ (ok x, w')
    → IsSame w w'
unfolding call
idle-eq-ok e w {x} {w'} =
    perform_cases (λ v. v) e (λ y. y ≡ (ok x, w') → IsSame w w')
      (record w { faults = rest_faults w.faults }) (first_fault w.faults)
      (λ h.
        let same = ap (λ y. y.1) h in
        rw (← same) (record { objects = refl; lock = refl; cache = refl; now = refl }))
      (λ h. not_ok _ _ h) (λ h. not_ok _ _ h) (λ h. not_panic _ _ h) (λ h. not_panic _ _ h)

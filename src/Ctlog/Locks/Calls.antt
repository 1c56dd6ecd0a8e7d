-- ===== src/Ctlog/Locks/Calls.antt =====
-- What a method of a lock backend (sqlite.go, dynamodb.go, etag.go) comes to, from what its call of
-- the database came to.
use sunlight.Prelude.{◌≡◌, ◌⊎◌, refl, ◌∙◌, ap, inl, inr, true, false, Outcome, ok, err, panic}
use sunlight.Errors.{LogError}
use sunlight.Ctlog.Action.{Act, continue, wrap}
use sunlight.Ctlog.Locks.{is_ok, Called, worked, failed}

module _ {D S A : Type 0} (cells : D → S) {before effect : S} {a : A} where
  pub Called-wrap :
      (e : LogError) (m : Outcome LogError A × D)
      → Called before effect a m.0 (cells m.1)
      → Called before effect a (wrap e m).0 (cells (wrap e m).1)
  Called-wrap e (ok x, d) c = c
  Called-wrap e (err x, d) (worked r h) = absurd (cc r)
  Called-wrap e (err x, d) (failed r h) = failed refl h
  Called-wrap e (panic, d) c = c

  -- The method answers what the call's answer gives.
  pub Called-continue :
      {B : Type 0} {b : B} (m : Outcome LogError A × D) (next : A → Act D B)
      → (is_ok m.0 ≡ true → next a m.1 ≡ (ok b, m.1))
      → Called before effect a m.0 (cells m.1)
      → Called before effect b (continue m next).0 (cells (continue m next).1)
  Called-continue (ok x, d) next k (worked r h) =
      let at_a : next x d ≡ (ok _, d) = ap (λ y. next y d) (cc r) ∙ k refl in
      worked (ap (λ y. y.0) at_a) (ap (λ y. cells y.1) at_a ∙ h)
  Called-continue (ok x, d) next k (failed r h) = absurd (cc r)
  Called-continue (err x, d) next k (worked r h) = absurd (cc r)
  Called-continue (err x, d) next k (failed r h) = failed refl h
  Called-continue (panic, d) next k (worked r h) = absurd (cc r)
  Called-continue (panic, d) next k (failed r h) = failed refl h

  -- The method refuses what the call answered.
  pub Called-refuse :
      {B : Type 0} (e : LogError) (m : Outcome LogError A × D) (next : A → Act D B)
      → (is_ok m.0 ≡ true → next a m.1 ≡ (err e, m.1))
      → effect ≡ before
      → Called before effect a m.0 (cells m.1)
      → (is_ok (continue m next).0 ≡ false) × (cells (continue m next).1 ≡ before)
  Called-refuse e (ok x, d) next k same (worked r h) =
      let at_a : next x d ≡ (err e, d) = ap (λ y. next y d) (cc r) ∙ k refl in
      (ap (λ y. is_ok y.0) at_a, ap (λ y. cells y.1) at_a ∙ (h ∙ same))
  Called-refuse e (ok x, d) next k same (failed r h) = absurd (cc r)
  Called-refuse e (err x, d) next k same (worked r h) = absurd (cc r)
  Called-refuse e (err x, d) next k same (failed r (inl h)) = (refl, h)
  Called-refuse e (err x, d) next k same (failed r (inr h)) = (refl, h ∙ same)
  Called-refuse e (panic, d) next k same (worked r h) = absurd (cc r)
  Called-refuse e (panic, d) next k same (failed r (inl h)) = (refl, h)
  Called-refuse e (panic, d) next k same (failed r (inr h)) = (refl, h ∙ same)

  -- The method may still fail after the call has worked.
  pub Called-either :
      {B : Type 0} {b : B} (r' : Outcome LogError B) (m : Outcome LogError A × D)
      (next : A → Act D B)
      → (is_ok m.0 ≡ true → next a m.1 ≡ (r', m.1))
      → (r' ≡ ok b) ⊎ (is_ok r' ≡ false)
      → Called before effect a m.0 (cells m.1)
      → Called before effect b (continue m next).0 (cells (continue m next).1)
  Called-either r' m next k (inl same) called =
      Called-continue m next (λ h. k h ∙ ap (λ r. (r, m.1)) same) called
  Called-either r' (ok x, d) next k (inr bad) (worked r h) =
      let at_a : next x d ≡ (r', d) = ap (λ y. next y d) (cc r) ∙ k refl in
      failed (ap (λ y. is_ok y.0) at_a ∙ bad) (inr (ap (λ y. cells y.1) at_a ∙ h))
  Called-either r' (ok x, d) next k (inr bad) (failed r h) = absurd (cc r)
  Called-either r' (err x, d) next k (inr bad) (worked r h) = absurd (cc r)
  Called-either r' (err x, d) next k (inr bad) (failed r h) = failed refl h
  Called-either r' (panic, d) next k (inr bad) (worked r h) = absurd (cc r)
  Called-either r' (panic, d) next k (inr bad) (failed r h) = failed refl h

module _ {D S A : Type 0} (cells : D → S) {before : S} where
  -- A call that failed without effect is all that the method does.
  pub refused-continue :
      {B : Type 0} (e : LogError) (m : Outcome LogError A × D) (next : A → Act D B)
      → is_ok m.0 ≡ false
      → cells m.1 ≡ before
      → (is_ok (continue (wrap e m) next).0 ≡ false) × (cells (continue (wrap e m) next).1 ≡ before)
  refused-continue e (ok x, d) next r h = absurd (cc r)
  refused-continue e (err x, d) next r h = (refl, h)
  refused-continue e (panic, d) next r h = (refl, h)

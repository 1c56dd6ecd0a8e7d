-- ===== src/Ctlog/Action.antt =====
-- Methods that change a state and may fail: what was changed before an error stays changed, so the
-- state comes back beside the error, and beside a panic, which stands for the end of the process.
use sunlight.Prelude.{◌≡◌, Outcome, ok, err, panic}
use sunlight.Errors.{LogError, CodecError, codec}

abbrev pub Act : Type 0 → Type 0 → Type 0
Act S A = S → Outcome LogError A × S

module _ {S A : Type 0} where
  abbrev pub pure : A → Act S A
  pure a s = (ok a, s)

  abbrev pub raise : LogError → Act S A
  raise e s = (err e, s)

  abbrev pub lift : Outcome LogError A → Act S A
  lift r s = (r, s)

  -- `if err != nil { return fmtErrorf("...: %w", err) }`: an error is wrapped in another.
  abbrev pub wrap : LogError → Outcome LogError A × S → Outcome LogError A × S
  wrap e (ok a, s) = (ok a, s)
  wrap e (err _, s) = (err e, s)
  wrap e (panic, s) = (panic, s)

  abbrev pub or_else : LogError → Act S A → Act S A
  or_else e m s = wrap e (m s)

abbrev pub gets : {S A : Type 0} → (S → A) → Act S A
gets f s = (ok (f s), s)

abbrev pub modify : {S : Type 0} → (S → S) → Act S (Unit {0})
modify f s = (ok tt, f s)

module _ {S A B : Type 0} where
  abbrev pub continue : Outcome LogError A × S → (A → Act S B) → Outcome LogError B × S
  continue (ok a, s) f = f a s
  continue (err e, s) f = (err e, s)
  continue (panic, s) f = (panic, s)

infixl 10 ◌>>=◌ ◌>>◌
abbrev pub ◌>>=◌ : {S A B : Type 0} → Act S A → (A → Act S B) → Act S B
◌>>=◌ m f s = continue (m s) f

abbrev pub ◌>>◌ : {S A B : Type 0} → Act S A → Act S B → Act S B
◌>>◌ m k s = continue (m s) (λ _. k)

-- An outcome of the codec, whose panics are the process's.
abbrev pub of_codec : {A : Type 0} → Outcome CodecError A → Outcome LogError A
of_codec (ok a) = ok a
of_codec (err e) = err (codec e)
of_codec panic = panic

-- An error is reported under another name.
abbrev pub renamed : {A : Type 0} → LogError → Outcome LogError A → Outcome LogError A
renamed e (ok a) = ok a
renamed e (err _) = err e
renamed e panic = panic

pub of_codec-eq-ok : {A : Type 0} (m : Outcome CodecError A) {a : A} → of_codec m ≡ ok a → m ≡ ok a
of_codec-eq-ok (ok a) h = cc h
of_codec-eq-ok (err e) h = absurd (cc h)
of_codec-eq-ok panic h = absurd (cc h)

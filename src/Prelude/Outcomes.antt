-- ===== src/Prelude/Outcomes.antt =====
-- Go's (value, error) pairs and panics as values. `E` is the type of the errors.
use mathlib.Core.Path.{◌≡◌, refl}
use mathlib.Core.Logic.{◌⊎◌, inl, inr}
use mathlib.Core.Bool.{Bool, true, false}
use mathlib.Core.Option.{Option, none, some}
use sunlight.Prelude.Tests.{if◌then◌else◌}

pub data Outcome {ℓ} (E : Type 0) (A : Type ℓ) : Type ℓ where
  ok : A → Outcome E A
  err : E → Outcome E A
  panic : Outcome E A

infixl 5 ◌>>=◌
abbrev pub ◌>>=◌ {ℓ κ} :
    {E : Type 0} {A : Type ℓ} {B : Type κ} → Outcome E A → (A → Outcome E B) → Outcome E B
ok a >>= f = f a
err e >>= f = err e
panic >>= f = panic

abbrev pub and_then {ℓ κ} :
    {E : Type 0} {A : Type ℓ} {B : Type κ} → Outcome E A → (A → Outcome E B) → Outcome E B
and_then m f = m >>= f

-- `if !read(&x) { return err }`
abbrev pub or_err {ℓ} : {E : Type 0} {A : Type ℓ} → Option A → E → Outcome E A
or_err none e = err e
or_err (some a) e = ok a

-- Inversion of a successful bind.
pub >>=-eq-ok {ℓ κ} :
    {E : Type 0} {A : Type ℓ} {B : Type κ} (first : Outcome E A) (next : A → Outcome E B)
    {result : B}
    → first >>= next ≡ ok result
    → (value : A) × (first ≡ ok value) × (next value ≡ ok result)
>>=-eq-ok panic next done = absurd (cc done)
>>=-eq-ok (err e) next done = absurd (cc done)
>>=-eq-ok (ok value) next done = (value, refl, done)

pub or_err-eq-ok {ℓ} :
    {E : Type 0} {A : Type ℓ} (o : Option A) (e : E) {a : A} → or_err o e ≡ ok a → o ≡ some a
or_err-eq-ok none e h = cc
or_err-eq-ok (some a) e h = cc

-- The branch that made a conditional succeed.
pub if-eq-ok {ℓ} :
    {E : Type 0} {A : Type ℓ} (b : Bool) (m n : Outcome E A) {a : A}
    → (if b then m else n) ≡ ok a
    → ((b ≡ true) × (m ≡ ok a)) ⊎ ((b ≡ false) × (n ≡ ok a))
if-eq-ok true m n h = inl (refl, h)
if-eq-ok false m n h = inr (refl, h)

pub Outcome-cases {ℓ} :
    {E : Type 0} {A : Type ℓ} (m : Outcome E A)
    → ((a : A) × (m ≡ ok a)) ⊎ (((e : E) × (m ≡ err e)) ⊎ (m ≡ panic))
Outcome-cases (ok a) = inl (a, refl)
Outcome-cases (err e) = inr (inl (e, refl))
Outcome-cases panic = inr (inr refl)

module _ {ℓ κ} {E : Type 0} {A : Type ℓ} {B : Type κ} where
  pub >>=-ext :
      (m : Outcome E A) (f g : A → Outcome E B) → ((a : A) → f a ≡ g a) → (m >>= f) ≡ (m >>= g)
  >>=-ext (ok a) f g h = h a
  >>=-ext (err e) f g h = refl
  >>=-ext panic f g h = refl

  pub >>=_assoc {ι} :
      {C : Type ι} (m : Outcome E A) (f : A → Outcome E B) (g : B → Outcome E C)
      → ((m >>= f) >>= g) ≡ (m >>= λ a. f a >>= g)
  >>=_assoc (ok a) f g = refl
  >>=_assoc (err e) f g = refl
  >>=_assoc panic f g = refl

pub >>=-ok {ℓ} : {E : Type 0} {A : Type ℓ} (m : Outcome E A) → (m >>= λ a. ok a) ≡ m
>>=-ok (ok a) = refl
>>=-ok (err e) = refl
>>=-ok panic = refl

pub if-eq-ok_left {ℓ} :
    {E : Type 0} {A : Type ℓ} (b : Bool) (x : A) {a : A}
    → ◌≡◌ {A = Outcome E A} (if b then ok x else panic) (ok a)
    → (b ≡ true) × (a ≡ x)
if-eq-ok_left true x h = (refl, cc)
if-eq-ok_left false x h = cc

-- Inversion of a chain that succeeded, for the rest of a proof: `step` has the value that was read.
pub after_read {ℓ κ ι} :
    {E : Type 0} {A : Type ℓ} {B : Type κ} {P : Type ι} (o : Option A) (e : E) (f : A → Outcome E B)
    {b : B}
    → (or_err o e >>= f) ≡ ok b
    → ((a : A) → o ≡ some a → f a ≡ ok b → P)
    → P
after_read none e f h step = cc
after_read (some a) e f h step = step a refl h

pub after_ok {ℓ κ ι} :
    {E : Type 0} {A : Type ℓ} {B : Type κ} {P : Type ι} (m : Outcome E A) (f : A → Outcome E B)
    {b : B}
    → (m >>= f) ≡ ok b
    → ((a : A) → m ≡ ok a → f a ≡ ok b → P)
    → P
after_ok (ok a) f h step = step a refl h
after_ok (err e) f h step = cc
after_ok panic f h step = cc

-- `if test { return err }` that did not return.
pub after_guard {ℓ ι} :
    {E : Type 0} {A : Type ℓ} {P : Type ι} (b : Bool) (e : E) (m : Outcome E A) {a : A}
    → (if b then err e else m) ≡ ok a
    → (b ≡ false → m ≡ ok a → P)
    → P
after_guard true e m h step = cc
after_guard false e m h step = step refl h

-- `if test { return x, nil }` before an error.
pub after_test {ℓ} :
    {E : Type 0} {A : Type ℓ} (b : Bool) (e : E) (x : A) {a : A}
    → ◌≡◌ {A = Outcome E A} (if b then ok x else err e) (ok a)
    → (b ≡ true) × (a ≡ x)
after_test true e x h = (refl, cc)
after_test false e x h = cc

pub ok-injective {ℓ} :
    {E : Type 0} {A : Type ℓ} (a b : A) → ◌≡◌ {A = Outcome E A} (ok a) (ok b) → a ≡ b
ok-injective a b h = cc

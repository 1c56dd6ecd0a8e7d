-- ===== src/Ctlog/S3/Requests.antt =====
-- The requests of an upload to the object storage (s3.go): hedged or not, they are one call.
use sunlight.Prelude.{
  ◌≡◌, refl, ◌∙◌, ap, ◌⊎◌, inl, inr, [], ◌∷◌, ◌++◌, true, false, Outcome, ok, err, panic, arith,
  Bool-cases,
}
use sunlight.Prelude.Maps.{Map, insert, bytes_eq, bytes_beq, bytes_beq_iff}
use sunlight.Errors.{LogError}
use sunlight.Cryptobyte.Wire.{Bytes}
use sunlight.Ctlog.Action.{wrap}
use sunlight.Ctlog.Locks.{is_ok, Called, worked, failed}
use sunlight.Ctlog.S3.{
  Stored, PutObjectInput, Client, Gzip, Race, no_hedge, request_first, hedge_first, behind_first,
  both, put_hedged,
}

-- An insertion that is done twice
pub insert_again :
    (k : Bytes) (v : Stored) (m : Map Bytes Stored) → insert k v (insert k v m) ≡ insert k v m
unfolding insert
insert_again k v [] = rw ((bytes_beq_iff k k).1 refl) refl
insert_again k v ((j, w) ∷ m) = elim (Bool-cases (bytes_beq j k)) [
  | inl same ↦ rw (same, (bytes_beq_iff k k).1 refl) refl
  | inr other ↦ rw (other) (rw (other) (ap (λ rows. (j, w) ∷ rows) (insert_again k v m)))
]

pub keys_differ : (p a b : Bytes) → bytes_beq a b ≡ false → bytes_beq (p ++ a) (p ++ b) ≡ false
keys_differ [] a b h = h
keys_differ (x ∷ p) a b h = ground (arith, keys_differ p a b h)

pub is_ok-eq-true : {A : Type 0} (r : Outcome LogError A) → is_ok r ≡ true → (a : A) × (r ≡ ok a)
is_ok-eq-true (ok a) h = (a, refl)
is_ok-eq-true (err e) h = absurd (cc h)
is_ok-eq-true panic h = absurd (cc h)

module _ {Db : Type 0} (c : Client Db) (i : PutObjectInput) where
  -- The objects with the one that is put
  abbrev with_put : Map Bytes Stored → Map Bytes Stored
  with_put m = insert i.key i.stored m

  -- A second request leaves the objects with the one that is put, if the first may have.
  second-objects :
      (d : Db) (m : Map Bytes Stored)
      → c.objects d ≡ with_put m
      → c.objects (c.put_object i d).1 ≡ with_put m
  second-objects d m h = elim (c.put_object-Called i d) [
    | worked r e ↦ e ∙ (ap with_put h ∙ insert_again i.key i.stored m)
    | failed r (inl e) ↦ e ∙ h
    | failed r (inr e) ↦ e ∙ (ap with_put h ∙ insert_again i.key i.stored m)
  ]

  second-either :
      (d : Db) (m : Map Bytes Stored)
      → (c.objects d ≡ m) ⊎ (c.objects d ≡ with_put m)
      → (c.objects (c.put_object i d).1 ≡ m) ⊎ (c.objects (c.put_object i d).1 ≡ with_put m)
  second-either d m (inr h) = inr (second-objects d m h)
  second-either d m (inl h) = elim (c.put_object-Called i d) [
    | worked r e ↦ inr (e ∙ ap with_put h)
    | failed r (inl e) ↦ inl (e ∙ h)
    | failed r (inr e) ↦ inr (e ∙ ap with_put h)
  ]

  -- Both requests together, as one call
  both-Called :
      (d : Db)
      → Called
          (c.objects d)
          (with_put (c.objects d))
          tt
          (both (c.put_object i d) (c.put_object i)).0
          (c.objects (both (c.put_object i d) (c.put_object i)).1)
  both-Called d = of_first (c.put_object i d) (c.put_object-Called i d)
    where
      m : Map Bytes Stored
      m = c.objects d

      stored :
          (x : Outcome LogError (Unit {0}) × Db)
          → c.objects x.1 ≡ with_put m
          → Called m
              (with_put m)
              tt
              (behind_first (ok tt) x).0
              (c.objects (behind_first (ok tt) x).1)
      stored (ok _, e) h = worked refl h
      stored (err _, e) h = worked refl h
      stored (panic, e) h = failed refl (inr h)

      perhaps :
          (f : LogError) (x : Outcome LogError (Unit {0}) × Db)
          → (c.objects x.1 ≡ m) ⊎ (c.objects x.1 ≡ with_put m)
          → Called m
              (with_put m)
              tt
              (behind_first (err f) x).0
              (c.objects (behind_first (err f) x).1)
      perhaps f (ok _, e) h = failed refl h
      perhaps f (err _, e) h = failed refl h
      perhaps f (panic, e) h = failed refl h

      of_first :
          (x : Outcome LogError (Unit {0}) × Db)
          → Called m (with_put m) tt x.0 (c.objects x.1)
          → Called m
              (with_put m)
              tt
              (both x (c.put_object i)).0
              (c.objects (both x (c.put_object i)).1)
      of_first (ok _, e) (worked r h) = stored (c.put_object i e) (second-objects e m h)
      of_first (ok _, e) (failed r h) = absurd (cc r)
      of_first (err f, e) (worked r h) = absurd (cc r)
      of_first (err f, e) (failed r h) = perhaps f (c.put_object i e) (second-either e m h)
      of_first (panic, e) h = h

  -- Hedged or not, an upload is one call, as far as can be seen.
  pub put_hedged-Called :
      {Reader : Type 0} (gz : Gzip Reader) (key_prefix : Bytes) (race : Race) (d : Db)
      → Called
          (c.objects d)
          (with_put (c.objects d))
          tt
          (put_hedged c gz key_prefix race i d).0
          (c.objects (put_hedged c gz key_prefix race i d).1)
  unfolding put_hedged
  put_hedged-Called gz key_prefix no_hedge d = c.put_object-Called i d
  put_hedged-Called gz key_prefix request_first d = both-Called d
  put_hedged-Called gz key_prefix hedge_first d = both-Called d

  -- An upload fails only if a request does.
  both-not_ok :
      (x : Outcome LogError (Unit {0}) × Db) (d : Db)
      → c.put_object i d ≡ x
      → is_ok (both x (c.put_object i)).0 ≡ false
      → (e : Db) × (is_ok (c.put_object i e).0 ≡ false)
  both-not_ok (ok _, v) d h bad = (v, of_second (c.put_object i v) bad)
    where
      of_second :
          (y : Outcome LogError (Unit {0}) × Db)
          → is_ok (behind_first (ok tt) y).0 ≡ false
          → is_ok y.0 ≡ false
      of_second (ok _, u) k = k
      of_second (err f, u) k = absurd (cc k)
      of_second (panic, u) k = k
  both-not_ok (err f, v) d h bad = (d, ap (λ y. is_ok y.0) h)
  both-not_ok (panic, v) d h bad = (d, ap (λ y. is_ok y.0) h)

  pub put_hedged-not_ok :
      {Reader : Type 0} (gz : Gzip Reader) (key_prefix : Bytes) (race : Race) (d : Db)
      → is_ok (put_hedged c gz key_prefix race i d).0 ≡ false
      → (e : Db) × (is_ok (c.put_object i e).0 ≡ false)
  unfolding put_hedged
  put_hedged-not_ok gz key_prefix no_hedge d bad = (d, bad)
  put_hedged-not_ok gz key_prefix request_first d bad = both-not_ok _ d refl bad
  put_hedged-not_ok gz key_prefix hedge_first d bad = both-not_ok _ d refl bad

pub wrap-not_ok :
    {S A : Type 0} (e : LogError) (x : Outcome LogError A × S)
    → is_ok (wrap e x).0 ≡ false
    → is_ok x.0 ≡ false
wrap-not_ok e (ok a, s) h = h
wrap-not_ok e (err f, s) h = refl
wrap-not_ok e (panic, s) h = refl

-- ===== src/Ctlog/S3/Backend.antt =====
-- The object storage of s3.go is a `Backend`: it maps keys to the contents that were uploaded, whether
-- they were compressed or not.
use sunlight.Prelude.{
  ◌≡◌, refl, sym, ◌∙◌, ap, subst, ◌⊎◌, inl, inr, ◌++◌, false, Option, none, some, Outcome, ok, err,
  panic,
}
use sunlight.Prelude.Maps.{Map, lookup, insert, bytes_eq}
use sunlight.Errors.{LogError, object_not_uploaded, object_not_fetched}
use sunlight.Cryptobyte.Wire.{Bytes}
use sunlight.Ctlog.Action.{continue, wrap}
use sunlight.Ctlog.World.{UploadOptions}
use sunlight.Ctlog.Locks.{is_ok, Called, worked, failed}
use sunlight.Ctlog.Locks.Calls.{Called-wrap}
use sunlight.Ctlog.S3.{
  Stored, GetOutput, Client, Gzip, Race, compressed, put_input, put_hedged, s3_upload, read_body,
  s3_fetch,
}
use sunlight.Ctlog.S3.Requests.{put_hedged-Called, put_hedged-not_ok, wrap-not_ok}
use sunlight.Ctlog.S3.Contents.{
  content_of, Shows, absent, present, Represents, Represents-put, read_answer,
}

module _ {Db Reader : Type 0} (c : Client Db) (gz : Gzip Reader) (key_prefix : Bytes) where
  -- The content is not compressed, or a request for it fails.
  abbrev pub IsFailing : Bytes → Bytes → Option UploadOptions → Type 0
  IsFailing key content opts =
      (is_ok (compressed c gz key_prefix opts content) ≡ false)
      ⊎ ((body : Bytes) × (e : Db) × (is_ok
              (c.put_object (put_input c gz key_prefix key opts body) e).0
            ≡ false))

  -- What `Backend.Upload` may come to: it fails only with the compression or a request.
  pub data Uploaded (key content : Bytes) (opts : Option UploadOptions) (m : Map Bytes Bytes)
      (r : Outcome LogError (Unit {0})) (after : Map Bytes Stored) : Type 0 where
    uploaded :
        r ≡ ok tt
        → Represents c gz key_prefix after (insert key content m)
        → Uploaded key content opts m r after
    not_uploaded :
        is_ok r ≡ false
        → IsFailing key content opts
        → Represents c gz key_prefix after m
          ⊎ Represents c gz key_prefix after (insert key content m)
        → Uploaded key content opts m r after

  -- A request that failed, or whose answer breaks off
  abbrev pub IsBroken : Outcome LogError GetOutput → Type 0
  IsBroken x = (is_ok x ≡ false) ⊎ ((out : GetOutput) × (x ≡ ok out) × (is_ok out.body ≡ false))

  -- What `Backend.Fetch` may come to: it fails only with the request.
  pub data Fetched (key : Bytes) (m : Map Bytes Bytes) (x : Outcome LogError GetOutput)
      (r : Outcome LogError Bytes) : Type 0 where
    found :
        (b : Bytes)
        → lookup key m ≡ some b
        → (r ≡ ok b) ⊎ ((is_ok r ≡ false) × IsBroken x)
        → Fetched key m x r
    missing : lookup key m ≡ none → is_ok r ≡ false → Fetched key m x r

  Uploaded-Called :
      (key content body : Bytes) (opts : Option UploadOptions) (before after : Map Bytes Stored)
      (m : Map Bytes Bytes) (r : Outcome LogError (Unit {0}))
      → compressed c gz key_prefix opts content ≡ ok body
      → Represents c gz key_prefix before m
      → Called before
          (insert (key_prefix ++ key) (put_input c gz key_prefix key opts body).stored before)
          tt
          r
          after
      → (is_ok r ≡ false → IsFailing key content opts)
      → Uploaded key content opts m r after
  Uploaded-Called key content body opts before after m r h rep (worked done e) fails =
      uploaded done (
        subst (λ o. Represents c gz key_prefix o (insert key content m)) (sym e)
          (Represents-put c gz key_prefix key content body opts before m h rep))
  Uploaded-Called key content body opts before after m r h rep (failed done (inl e)) fails =
      not_uploaded done (fails done) (inl (subst (λ o. Represents c gz key_prefix o m) (sym e) rep))
  Uploaded-Called key content body opts before after m r h rep (failed done (inr e)) fails =
      not_uploaded done (fails done) (
        inr (
          subst (λ o. Represents c gz key_prefix o (insert key content m)) (sym e)
            (Represents-put c gz key_prefix key content body opts before m h rep)))

  upload-Uploaded :
      (race : Race) (key content : Bytes) (opts : Option UploadOptions) (d : Db)
      (m : Map Bytes Bytes)
      → Represents c gz key_prefix (c.objects d) m
      → let (r, d') = s3_upload c gz key_prefix race key content opts d in
        Uploaded key content opts m r (c.objects d')
  unfolding s3_upload
  upload-Uploaded race key content opts d m rep =
      of_body (compressed c gz key_prefix opts content) refl
    where
      of_body :
          (x : Outcome LogError Bytes)
          → compressed c gz key_prefix opts content ≡ x
          → let (r, d') =
              continue
                (x, d)
                (λ body v.
                  wrap object_not_uploaded (
                    put_hedged c gz key_prefix race (put_input c gz key_prefix key opts body) v)) in
            Uploaded key content opts m r (c.objects d')
      of_body (ok body) h =
          Uploaded-Called key content body opts (c.objects d) _ m _ h rep
            (Called-wrap c.objects object_not_uploaded _
              (put_hedged-Called c (put_input c gz key_prefix key opts body) gz key_prefix race d))
            (λ bad.
              let (e, refused) =
                put_hedged-not_ok c (put_input c gz key_prefix key opts body) gz key_prefix race d
                  (wrap-not_ok object_not_uploaded _ bad) in
              inr (body, e, refused))
      of_body (err e) h = not_uploaded refl (inl (ap is_ok h)) (inl rep)
      of_body panic h = not_uploaded refl (inl (ap is_ok h)) (inl rep)

  fetch-Fetched :
      (key : Bytes) (d : Db) (m : Map Bytes Bytes)
      → Represents c gz key_prefix (c.objects d) m
      → Fetched key m (c.get_object (key_prefix ++ key) d).0 (s3_fetch c gz key_prefix key d).0
  unfolding s3_fetch
  fetch-Fetched key d m rep = of_shows (rep key)
    where
      at_key : Bytes
      at_key = key_prefix ++ key

      answered :
          (b : Bytes) (s : Stored) (x : Outcome LogError GetOutput × Db)
          → c.get_object at_key d ≡ x
          → lookup at_key (c.objects d) ≡ some s
          → content_of c gz key_prefix s ≡ ok b
          → (continue (wrap object_not_fetched x) (λ out v. (read_body c gz key_prefix out, v))).0
              ≡ ok b
            ⊎ ((is_ok
                    (continue
                      (wrap object_not_fetched x)
                      (λ out v. (read_body c gz key_prefix out, v))).0
                  ≡ false)
                × IsBroken x.0)
      answered b s (ok out, e) h there shows =
          let (o, held, answer) = c.get_object-IsAnswer at_key d out (ap (λ y. y.0) h) in
          let same : s ≡ o = cc (there, held) in
          elim (read_answer c gz key_prefix out o b answer
            (ap (content_of c gz key_prefix) (sym same) ∙ shows)) [
              | inl read ↦ inl read
              | inr (unread, broken) ↦ inr (unread, inr (out, refl, broken))
            ]
      answered b s (err f, e) h there shows = inr (refl, inl refl)
      answered b s (panic, e) h there shows = inr (refl, inl refl)

      nothing :
          (x : Outcome LogError GetOutput × Db)
          → c.get_object at_key d ≡ x
          → lookup at_key (c.objects d) ≡ none
          → is_ok
              (continue (wrap object_not_fetched x) (λ out v. (read_body c gz key_prefix out, v))).0
            ≡ false
      nothing (ok out, e) h missed =
          let (o, held, _) = c.get_object-IsAnswer at_key d out (ap (λ y. y.0) h) in
          absurd (cc (missed, held))
      nothing (err f, e) h missed = refl
      nothing (panic, e) h missed = refl

      of_shows :
          Shows c gz key_prefix (lookup key m) (lookup at_key (c.objects d))
          → Fetched key m (c.get_object (key_prefix ++ key) d).0 (s3_fetch c gz key_prefix key d).0
      of_shows (absent no_content missed) = missing no_content (nothing _ refl missed)
      of_shows (present b s content there shows) = found b content (answered b s _ refl there shows)

  fetch-objects :
      (key : Bytes) (d : Db) → c.objects (s3_fetch c gz key_prefix key d).1 ≡ c.objects d
  unfolding s3_fetch
  fetch-objects key d =
      kept (c.get_object (key_prefix ++ key) d) (c.get_object-objects (key_prefix ++ key) d)
    where
      kept :
          (x : Outcome LogError GetOutput × Db)
          → c.objects x.1 ≡ c.objects d
          → c.objects
              (continue (wrap object_not_fetched x) (λ out v. (read_body c gz key_prefix out, v))).1
            ≡ c.objects d
      kept (ok out, e) h = h
      kept (err f, e) h = h
      kept (panic, e) h = h

  -- Of a bucket whose objects show the contents `m` of the backend's keys, compressed or not: an
  -- upload that succeeds leaves it showing `m` with the new content, whatever its options are and
  -- whether it was hedged or not, and one that fails, which it does only if the compression or a
  -- request does, leaves it showing `m` or that; a fetch leaves the objects as they are, and gives the
  -- content of the key, unless there is none, or the request fails or its answer breaks off.
  pub s3-refines :
      (race : Race) (key content : Bytes) (opts : Option UploadOptions) (d : Db)
      (m : Map Bytes Bytes)
      → Represents c gz key_prefix (c.objects d) m
      → Uploaded key content opts m
          (s3_upload c gz key_prefix race key content opts d).0
          (c.objects (s3_upload c gz key_prefix race key content opts d).1)
        × Fetched key m (c.get_object (key_prefix ++ key) d).0 (s3_fetch c gz key_prefix key d).0
        × (c.objects (s3_fetch c gz key_prefix key d).1 ≡ c.objects d)
  s3-refines race key content opts d m rep = (
    upload-Uploaded race key content opts d m rep,
    fetch-Fetched key d m rep,
    fetch-objects key d,
  )

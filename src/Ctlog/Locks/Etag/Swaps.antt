-- ===== src/Ctlog/Locks/Etag/Swaps.antt =====
-- The lock backend of etag.go is a compare-and-swap.
use sunlight.Prelude.{
  ◌≡◌, refl, ◌∙◌, ap, ◌⊎◌, inl, inr, [], ◌∷◌, false, Option, none, some, Outcome, ok, err, panic,
  Bool-cases, Option-cases, arith,
}
use sunlight.Prelude.Maps.{lookup, bytes_eq, bytes_beq_iff}
use sunlight.Errors.{LogError, lock_failed}
use sunlight.Cryptobyte.Wire.{Bytes}
use sunlight.Ctlog.Action.{wrap}
use sunlight.Ctlog.World.{holds}
use sunlight.Ctlog.Paths.{hex}
use sunlight.Ctlog.Locks.{
  is_ok, Fetched, found, missing, Replaced, swapped, refused, Created, created, exists,
}
use sunlight.Ctlog.Locks.Calls.{Called-wrap, Called-continue, Called-either, refused-continue}
use sunlight.Ctlog.Locks.Etag.{
  GetObjectOutput, matches, IsOutput, Bucket, with_tag, read_checkpoint, etag_fetch, etag_replace,
  etag_create, etag_checkpoint,
}

module _ {Db : Type 0} (c : Bucket Db) where
  -- Entity tags are compared as the contents would be.
  matches-holds :
      (old : Bytes) (o : Option Bytes) → matches c.etag_of (c.etag_of old) o ≡ holds o old
  matches-holds old o = by_tag (c.etag_of old) refl o
    where
      by_tag :
          (tag : Bytes)
          → c.etag_of old ≡ tag
          → (o : Option Bytes) → matches c.etag_of tag o ≡ holds o old
      by_tag [] h o = absurd (c.etag_of-ne old h)
      by_tag (x ∷ tag) h none = refl
      by_tag (x ∷ tag) h (some b) = ground (
        arith,
        h,
        c.etag_of-injective b old,
        (bytes_beq_iff (c.etag_of b) (x ∷ tag)).0,
        (bytes_beq_iff (c.etag_of b) (x ∷ tag)).1,
        (bytes_beq_iff b old).0,
        (bytes_beq_iff b old).1,
        ap c.etag_of {x = b} {y = old},
      )

  checkpoint_read :
      (key b : Bytes) (out : GetObjectOutput)
      → IsOutput c.etag_of b out
      → (with_tag lock_failed out.etag (λ tag. read_checkpoint key tag out.body)
          ≡ ok (etag_checkpoint c.etag_of key b))
        ⊎ (is_ok (with_tag lock_failed out.etag (λ tag. read_checkpoint key tag out.body)) ≡ false)
  checkpoint_read key b out (inl no_tag, whole) = inr (rw (no_tag) refl)
  checkpoint_read key b out (inr tag, inl whole) = inl (rw (tag, whole) refl)
  checkpoint_read key b out (inr tag, inr broken) = inr (rw (tag) (of_broken out.body broken))
    where
      of_broken :
          (r : Outcome LogError Bytes)
          → is_ok r ≡ false
          → is_ok (read_checkpoint key (c.etag_of b) r) ≡ false
      of_broken (ok x) h = absurd (cc h)
      of_broken (err e) h = refl
      of_broken panic h = refl

  fetch_case :
      (id : Bytes) (d : Db)
      → Fetched
          (etag_checkpoint c.etag_of (hex id))
          (hex id)
          (c.objects d)
          (etag_fetch c id d).0
          (c.objects (etag_fetch c id d).1)
  unfolding etag_fetch
  fetch_case id d =
      let got = c.get_object (hex id) d in
      elim (Option-cases (lookup (hex id) (c.objects d))) [
        | inl no_object ↦
            let (refusal, same) = c.get_object_missing (hex id) d no_object in
            let (still, kept) = refused-continue c.objects lock_failed got _ refusal same in
            missing no_object still kept
        | inr (b, object) ↦
            let (out, is_output, called) = c.get_object-Called (hex id) b d object in
            found b object (
              Called-either c.objects _ (wrap lock_failed got) _ (λ k. refl)
                (checkpoint_read (hex id) b out is_output)
                (Called-wrap c.objects lock_failed got called))
      ]

  replace_case :
      (id old new : Bytes) (d : Db)
      → let m = etag_replace c (etag_checkpoint c.etag_of (hex id) old) new d in
        Replaced
          (etag_checkpoint c.etag_of (hex id))
          (hex id)
          old
          new
          (c.objects d)
          m.0
          (c.objects m.1)
  unfolding etag_replace
  replace_case id old new d =
      let put = c.put_object (hex id) new (c.etag_of old) d in
      let same_test = matches-holds old (lookup (hex id) (c.objects d)) in
      elim (Bool-cases (holds (lookup (hex id) (c.objects d)) old)) [
        | inl held ↦
            let (out, tag, called) =
              c.put_object-Called (hex id) new (c.etag_of old) d (same_test ∙ held) in
            swapped held (
              Called-either c.objects _ (wrap lock_failed put) _ (λ k. refl)
                (elim tag [
                  | inl no_tag ↦ inr (rw (no_tag) refl)
                  | inr is_tag ↦ inl (rw (is_tag) refl)
                ])
                (Called-wrap c.objects lock_failed put called))
        | inr not_held ↦
            let (refusal, same) =
              c.put_object_unmatched (hex id) new (c.etag_of old) d (same_test ∙ not_held) in
            let (still, kept) = refused-continue c.objects lock_failed put _ refusal same in
            refused not_held still kept
      ]

  create_case :
      (id new : Bytes) (d : Db)
      → Created
          (hex id)
          new
          (c.objects d)
          (etag_create c id new d).0
          (c.objects (etag_create c id new d).1)
  unfolding etag_create
  create_case id new d =
      let put = c.put_object (hex id) new [] d in
      elim (Option-cases (lookup (hex id) (c.objects d))) [
        | inl no_object ↦
            let (out, tag, called) = c.put_object-Called (hex id) new [] d (rw (no_object) refl) in
            created no_object (
              Called-continue c.objects (wrap lock_failed put) _ (λ k. refl)
                (Called-wrap c.objects lock_failed put called))
        | inr (b, object) ↦
            let (refusal, same) = c.put_object_unmatched (hex id) new [] d (rw (object) refl) in
            let (still, kept) = refused-continue c.objects lock_failed put _ refusal same in
            exists b object still kept
      ]

  -- The ETag backend refines the lock of the log: on the checkpoints by the key of their log, each of
  -- its methods does what `LockBackend` promises, whichever of its calls fail or come back without an
  -- entity tag.
  pub etag-refines :
      (id old new : Bytes) (d : Db)
      → (let m = etag_fetch c id d in
          Fetched (etag_checkpoint c.etag_of (hex id)) (hex id) (c.objects d) m.0 (c.objects m.1))
        × (let m = etag_replace c (etag_checkpoint c.etag_of (hex id) old) new d in
            Replaced
              (etag_checkpoint c.etag_of (hex id))
              (hex id)
              old
              new
              (c.objects d)
              m.0
              (c.objects m.1))
        × (let m = etag_create c id new d in Created (hex id) new (c.objects d) m.0 (c.objects m.1))
  etag-refines id old new d = (fetch_case id d, replace_case id old new d, create_case id new d)

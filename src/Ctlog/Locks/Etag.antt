-- ===== src/Ctlog/Locks/Etag.antt =====
-- The lock backend of etag.go, over the S3 client of the AWS SDK and a storage that honours `If-Match`.
pub mod Swaps
use sunlight.Prelude.{
  ◌≡◌, ◌≢◌, ◌⊎◌, [], ◌∷◌, Bool, true, false, not, Option, none, some, Outcome, ok, err,
}
use sunlight.Prelude.Maps.{Map, lookup, insert, bytes_eq, bytes_beq}
use sunlight.Errors.{LogError, lock_failed, not_found}
use sunlight.Cryptobyte.Wire.{Bytes}
use sunlight.Ctlog.Action.{Act, continue, wrap}
use sunlight.Ctlog.World.{is_some}
use sunlight.Ctlog.Paths.{hex}
use sunlight.Ctlog.Locks.{is_ok, Called}

pub record EtagCheckpoint : Type 0 where
  pub key : Bytes
  pub body : Bytes
  pub etag : Bytes

-- `GetObjectOutput`, with what reading its body to the end comes to
pub record GetObjectOutput : Type 0 where
  pub body : Outcome LogError Bytes
  pub etag : Option Bytes

-- An `If-Match` header that is empty asks for an object that does not exist; any other asks for an
-- object of that entity tag.
abbrev pub matches : (Bytes → Bytes) → Bytes → Option Bytes → Bool
matches etag_of [] o = not (is_some o)
matches etag_of (x ∷ tag) none = false
matches etag_of (x ∷ tag) (some b) = bytes_beq (etag_of b) (x ∷ tag)

-- What an answer says of the object with these bytes: it may lack the tag, or break off.
abbrev pub IsTag : (Bytes → Bytes) → Bytes → Option Bytes → Type 0
IsTag etag_of b tag = (tag ≡ none) ⊎ (tag ≡ some (etag_of b))

abbrev pub IsOutput : (Bytes → Bytes) → Bytes → GetObjectOutput → Type 0
IsOutput etag_of b out = IsTag etag_of b out.etag × ((out.body ≡ ok b) ⊎ (is_ok out.body ≡ false))

-- A client of one bucket: `GetObject`, and `PutObject` with an `If-Match` header, whose answer is the
-- entity tag. The laws are the documented behaviour of entity tags and conditional requests: a tag
-- identifies the content of an object.
pub record Bucket (Db : Type 0) : Type 0 where
  pub objects : Db → Map Bytes Bytes
  pub etag_of : Bytes → Bytes
  pub get_object : Bytes → Act Db GetObjectOutput
  pub put_object : Bytes → Bytes → Bytes → Act Db (Option Bytes)
  pub etag_of-injective : (a b : Bytes) → etag_of a ≡ etag_of b → a ≡ b
  pub etag_of-ne : (a : Bytes) → etag_of a ≢ []
  pub get_object-Called :
      (key b : Bytes) (d : Db)
      → lookup key (objects d) ≡ some b
      → (out : GetObjectOutput) × IsOutput etag_of b out
        × Called (objects d) (objects d) out (get_object key d).0 (objects (get_object key d).1)
  pub get_object_missing :
      (key : Bytes) (d : Db)
      → lookup key (objects d) ≡ none
      → (is_ok (get_object key d).0 ≡ false) × (objects (get_object key d).1 ≡ objects d)
  pub put_object-Called :
      (key new tag : Bytes) (d : Db)
      → matches etag_of tag (lookup key (objects d)) ≡ true
      → (out : Option Bytes) × IsTag etag_of new out
        × Called
            (objects d)
            (insert key new (objects d))
            out
            (put_object key new tag d).0
            (objects (put_object key new tag d).1)
  pub put_object_unmatched :
      (key new tag : Bytes) (d : Db)
      → matches etag_of tag (lookup key (objects d)) ≡ false
      → (is_ok (put_object key new tag d).0 ≡ false)
        × (objects (put_object key new tag d).1 ≡ objects d)

-- After the tests for a nil `ETag`
abbrev pub with_tag :
    {A : Type 0} → LogError → Option Bytes → (Bytes → Outcome LogError A) → Outcome LogError A
with_tag e none next = err e
with_tag e (some tag) next = next tag

abbrev pub read_checkpoint :
    Bytes → Bytes → Outcome LogError Bytes → Outcome LogError EtagCheckpoint
read_checkpoint key tag (ok content) = ok (record { key = key; body = content; etag = tag })
read_checkpoint key tag _ = err lock_failed

module _ {Db : Type 0} (c : Bucket Db) where
  -- `ETagBackend.Fetch`
  unfoldable pub etag_fetch : Bytes → Act Db EtagCheckpoint
  unfolding hex
  etag_fetch log_id d =
      let key = hex log_id in
      continue (wrap lock_failed (c.get_object key d))
        λ out v. (with_tag lock_failed out.etag (λ tag. read_checkpoint key tag out.body), v)

  -- `ETagBackend.Replace`
  unfoldable pub etag_replace : EtagCheckpoint → Bytes → Act Db EtagCheckpoint
  etag_replace o new d = continue (wrap lock_failed (c.put_object o.key new o.etag d)) λ out v.
      (with_tag lock_failed out (λ tag. ok (record { key = o.key; body = new; etag = tag })), v)

  -- `ETagBackend.Create`
  unfoldable pub etag_create : Bytes → Bytes → Act Db (Unit {0})
  unfolding hex
  etag_create log_id new d =
      continue (wrap lock_failed (c.put_object (hex log_id) new [] d)) λ _ v. (ok tt, v)

abbrev pub etag_checkpoint : (Bytes → Bytes) → Bytes → Bytes → EtagCheckpoint
etag_checkpoint etag_of key b = record { key = key; body = b; etag = etag_of b }

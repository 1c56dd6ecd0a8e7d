-- ===== src/Ctlog/S3.antt =====
-- The object storage of s3.go, over the S3 client of the AWS SDK and compress/gzip.
pub mod Requests
pub mod Contents
pub mod Backend
mod Tests
use sunlight.Prelude.{
  ◌≡◌, List, [], ◌∷◌, ◌++◌, Bool, true, false, if◌then◌else◌, Option, none, some, Outcome, ok, err,
  panic, ◌>>=◌,
}
use sunlight.Prelude.Maps.{Map, lookup, insert, bytes_eq, bytes_beq, codes}
use sunlight.Errors.{
  LogError, not_compressed, object_not_uploaded, object_not_fetched, not_decompressed,
  body_not_read,
}
use sunlight.Cryptobyte.Wire.{Bytes}
use sunlight.Ctlog.Action.{Act, continue, wrap, renamed}
use sunlight.Ctlog.World.{UploadOptions}
use sunlight.Ctlog.Locks.{is_ok, Called}

-- An object, with the headers that it was put with
pub record Stored : Type 0 where
  pub body : Bytes
  pub content_type : Bytes
  pub content_encoding : Option Bytes
  pub cache_control : Option Bytes

-- `PutObjectInput`, in the bucket of the client
pub record PutObjectInput : Type 0 where
  pub key : Bytes
  pub stored : Stored

-- `GetObjectOutput`, with what reading its body to the end comes to
pub record GetOutput : Type 0 where
  pub body : Outcome LogError Bytes
  pub content_encoding : Option Bytes

-- What an answer says of an object: its body may break off.
abbrev pub IsAnswer : Stored → GetOutput → Type 0
IsAnswer o out =
    (out.content_encoding ≡ o.content_encoding) × ((b : Bytes) → out.body ≡ ok b → b ≡ o.body)

-- A client of one bucket. The laws are its documentation: a request that is answered has had its
-- effect, and one that fails may have had it.
pub record Client (Db : Type 0) : Type 0 where
  pub objects : Db → Map Bytes Stored
  pub put_object : PutObjectInput → Act Db (Unit {0})
  pub get_object : Bytes → Act Db GetOutput
  pub put_object-Called :
      (i : PutObjectInput) (d : Db)
      → Called
          (objects d)
          (insert i.key i.stored (objects d))
          tt
          (put_object i d).0
          (objects (put_object i d).1)
  pub get_object-objects : (key : Bytes) (d : Db) → objects (get_object key d).1 ≡ objects d
  pub get_object-IsAnswer :
      (key : Bytes) (d : Db) (out : GetOutput)
      → (get_object key d).0 ≡ ok out
      → (o : Stored) × (lookup key (objects d) ≡ some o) × IsAnswer o out

-- `gzip.NewWriter` with its `Write` and `Close`; `gzip.NewReader` on a body, which may break off, and
-- `io.ReadAll` on the reader. What was compressed is read back, and a body that breaks off is not.
pub record Gzip (Reader : Type 0) : Type 0 where
  pub compress : Bytes → Outcome LogError Bytes
  pub new_reader : Outcome LogError Bytes → Outcome LogError Reader
  pub read_all : Reader → Outcome LogError Bytes
  pub read-compress :
      (content z : Bytes)
      → compress content ≡ ok z
      → (reader : Reader) × (new_reader (ok z) ≡ ok reader) × (read_all reader ≡ ok content)
  pub read_broken :
      (body : Outcome LogError Bytes) (reader : Reader) (b : Bytes)
      → new_reader body ≡ ok reader
      → read_all reader ≡ ok b
      → is_ok body ≡ true

-- How the request of `Upload` and its hedge, which is sent if the first one is slow, end
pub data Race : Type 0 where
  no_hedge request_first hedge_first : Race

-- A type of its own, or the default
abbrev pub content_type_of : Bytes → Bytes
content_type_of [] = codes "application/octet-stream"
content_type_of (x ∷ t) = x ∷ t

abbrev pub type_of : Option UploadOptions → Bytes
type_of none = codes "application/octet-stream"
type_of (some o) = content_type_of o.content_type

abbrev pub encoding_of : Option UploadOptions → Option Bytes
encoding_of none = none
encoding_of (some o) = if o.compress then some (codes "gzip") else none

abbrev pub cache_control_of : Option UploadOptions → Option Bytes
cache_control_of none = none
cache_control_of (some o) =
    if o.immutable then some (codes "public, max-age=604800, immutable") else none

abbrev pub is_gzip : Option Bytes → Bool
is_gzip none = false
is_gzip (some e) = bytes_beq e (codes "gzip")

module _ {Db : Type 0} where
  -- The result of the second request is not looked at.
  abbrev pub behind_first :
      Outcome LogError (Unit {0})
      → Outcome LogError (Unit {0}) × Db
      → Outcome LogError (Unit {0}) × Db
  behind_first r (panic, d) = (panic, d)
  behind_first r (ok _, d) = (r, d)
  behind_first r (err _, d) = (r, d)

  abbrev pub both :
      Outcome LogError (Unit {0}) × Db → Act Db (Unit {0}) → Outcome LogError (Unit {0}) × Db
  both (panic, d) second = (panic, d)
  both (ok _, d) second = behind_first (ok tt) (second d)
  both (err e, d) second = behind_first (err e) (second d)

module _ {Db Reader : Type 0} (c : Client Db) (gz : Gzip Reader) (key_prefix : Bytes) where
  abbrev pub compressed : Option UploadOptions → Bytes → Outcome LogError Bytes
  compressed none content = ok content
  compressed (some o) content =
      if o.compress then renamed not_compressed (gz.compress content) else ok content

  -- The request of an upload; bucket and length are those of the client and of the body.
  abbrev pub put_input : Bytes → Option UploadOptions → Bytes → PutObjectInput
  put_input key opts body = record {
    key = key_prefix ++ key;
    stored = record {
      body = body;
      content_type = type_of opts;
      content_encoding = encoding_of opts;
      cache_control = cache_control_of opts;
    };
  }

  -- The request and its hedge: the result is that of the one that ends first, and the other, which is
  -- canceled, may have its effect all the same.
  unfoldable pub put_hedged : Race → PutObjectInput → Act Db (Unit {0})
  put_hedged no_hedge i d = c.put_object i d
  put_hedged request_first i d = both (c.put_object i d) (c.put_object i)
  put_hedged hedge_first i d = both (c.put_object i d) (c.put_object i)

  -- `S3Backend.Upload`
  unfoldable pub s3_upload : Race → Bytes → Bytes → Option UploadOptions → Act Db (Unit {0})
  unfolding put_hedged
  s3_upload race key content opts d =
      continue (compressed opts content, d)
        λ body v. wrap object_not_uploaded (put_hedged race (put_input key opts body) v)

  abbrev pub read_body : GetOutput → Outcome LogError Bytes
  read_body out =
      if is_gzip out.content_encoding
      then (renamed not_decompressed (gz.new_reader out.body) >>= λ reader.
          renamed body_not_read (gz.read_all reader))
      else renamed body_not_read out.body

  -- `S3Backend.Fetch`
  unfoldable pub s3_fetch : Bytes → Act Db Bytes
  s3_fetch key d =
      continue (wrap object_not_fetched (c.get_object (key_prefix ++ key) d))
        λ out v. (read_body out, v)

-- ===== src/Ctlog/S3/Contents.antt =====
-- What the objects of a bucket (s3.go) show of the contents that were uploaded, compressed or not.
use sunlight.Prelude.{
  ◌≡◌, refl, sym, ◌∙◌, ap, ◌⊎◌, inl, inr, ◌++◌, true, false, Option, none, some, Outcome, ok,
  >>=-eq-ok, ok-injective, Bool-cases,
}
use sunlight.Prelude.Maps.{Map, lookup, insert, lookup-insert, bytes_eq, bytes_beq, bytes_beq_iff}
use sunlight.Errors.{LogError, not_compressed, not_decompressed, body_not_read}
use sunlight.Cryptobyte.Wire.{Bytes}
use sunlight.Ctlog.Action.{renamed}
use sunlight.Ctlog.Batch.Entries.{renamed-eq-ok}
use sunlight.Ctlog.World.{UploadOptions}
use sunlight.Ctlog.Locks.{is_ok}
use sunlight.Ctlog.S3.{
  Stored, GetOutput, IsAnswer, Client, Gzip, compressed, put_input, read_body, is_gzip,
}
use sunlight.Ctlog.S3.Requests.{keys_differ, is_ok-eq-true}

module _ {Db Reader : Type 0} (c : Client Db) (gz : Gzip Reader) (key_prefix : Bytes) where
  -- What a whole answer says of an object
  abbrev pub content_of : Stored → Outcome LogError Bytes
  content_of o =
      read_body c gz key_prefix (record { body = ok o.body; content_encoding = o.content_encoding })

  -- An object shows a content, or neither is there.
  pub data Shows (content : Option Bytes) (o : Option Stored) : Type 0 where
    absent : content ≡ none → o ≡ none → Shows content o
    present :
        (b : Bytes) (s : Stored)
        → content ≡ some b
        → o ≡ some s
        → content_of s ≡ ok b
        → Shows content o

  -- The objects behind the prefix show the contents `m`.
  abbrev pub Represents : Map Bytes Stored → Map Bytes Bytes → Type 0
  Represents objects m = (key : Bytes) → Shows (lookup key m) (lookup (key_prefix ++ key) objects)

  -- What is put shows what was uploaded.
  content-put :
      (key content body : Bytes) (opts : Option UploadOptions)
      → compressed c gz key_prefix opts content ≡ ok body
      → content_of (put_input c gz key_prefix key opts body).stored ≡ ok content
  content-put key content body none h = ap ok (sym (ok-injective {E = LogError} content body h))
  content-put key content body (some o) h = elim (Bool-cases o.compress) [
    | inl packed ↦
        let (reader, opened, read) =
          gz.read-compress content body (renamed-eq-ok not_compressed _ (rw (packed) at h)) in
        rw (packed, opened, read) refl
    | inr plain ↦
        let same : ◌≡◌ {A = Outcome LogError Bytes} (ok content) (ok body) = rw (plain) at h in
        rw (plain) (ap ok (sym (ok-injective _ _ same)))
  ]

  pub Represents-put :
      (key content body : Bytes) (opts : Option UploadOptions) (objects : Map Bytes Stored)
      (m : Map Bytes Bytes)
      → compressed c gz key_prefix opts content ≡ ok body
      → Represents objects m
      → Represents
          (insert (key_prefix ++ key) (put_input c gz key_prefix key opts body).stored objects)
          (insert key content m)
  Represents-put key content body opts objects m h rep other =
      elim (Bool-cases (bytes_beq key other)) [
        | inl same ↦
            let at_key : key_prefix ++ key ≡ key_prefix ++ other =
              ap (λ k. key_prefix ++ k) ((bytes_beq_iff key other).0 same) in
            present content (put_input c gz key_prefix key opts body).stored
              (lookup-insert key other content m ∙ rw (same) refl)
              (lookup-insert (key_prefix ++ key) (key_prefix ++ other) _ objects
                ∙ rw ((bytes_beq_iff (key_prefix ++ key) (key_prefix ++ other)).1 at_key) refl)
              (content-put key content body opts h)
        | inr differ ↦
            let apart : bytes_beq (key_prefix ++ key) (key_prefix ++ other) ≡ false =
              keys_differ key_prefix key other differ in
            rw (lookup-insert, differ, lookup-insert, apart) (rep other)
      ]

  -- Only a body that is whole is read.
  read_body-ok :
      (out : GetOutput) (b : Bytes) → read_body c gz key_prefix out ≡ ok b → is_ok out.body ≡ true
  read_body-ok out b h = elim (Bool-cases (is_gzip out.content_encoding)) [
    | inl packed ↦
        let (reader, opened, read) =
          >>=-eq-ok (renamed not_decompressed (gz.new_reader out.body)) _ (rw (packed) at h) in
        gz.read_broken out.body reader b (renamed-eq-ok _ _ opened) (renamed-eq-ok _ _ read)
    | inr plain ↦ ap is_ok (renamed-eq-ok body_not_read out.body {a = b} (rw (plain) at h))
  ]

  pub read_answer :
      (out : GetOutput) (o : Stored) (b : Bytes)
      → IsAnswer o out
      → content_of o ≡ ok b
      → (read_body c gz key_prefix out ≡ ok b)
        ⊎ ((is_ok (read_body c gz key_prefix out) ≡ false) × (is_ok out.body ≡ false))
  read_answer out o b (encoding, whole) shows = elim (Bool-cases (is_ok out.body)) [
    | inl answered ↦
        let (z, body) = is_ok-eq-true out.body answered in
        let same : out.body ≡ ok o.body = body ∙ ap ok (whole z body) in
        inl (rw (same, encoding) shows)
    | inr broken ↦ inr (unread (Bool-cases (is_ok (read_body c gz key_prefix out))) broken, broken)
  ]
    where
      unread :
          (is_ok (read_body c gz key_prefix out) ≡ true)
            ⊎ (is_ok (read_body c gz key_prefix out) ≡ false)
          → is_ok out.body ≡ false
          → is_ok (read_body c gz key_prefix out) ≡ false
      unread (inl read) broken =
          let (b', e) = is_ok-eq-true (read_body c gz key_prefix out) read in
          absurd (cc (read_body-ok out b' e, broken))
      unread (inr h) broken = h

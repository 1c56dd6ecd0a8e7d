-- ===== src/Ctlog/S3/Tests.antt =====
-- The object storage of s3.go on concrete input, over a client whose requests fail when a script says so.
use sunlight.Prelude.{
  ◌≡◌, refl, sym, ◌∙◌, ap, map, inl, List, [], ◌∷◌, Bool, true, false, Option, none, some, Outcome,
  ok, err, panic, ok-injective,
}
use sunlight.Prelude.Maps.{Map, lookup, insert, bytes_eq, codes}
use sunlight.Errors.{LogError, backend_failed, not_found, object_not_uploaded}
use sunlight.Cryptobyte.Wire.{Bytes}
use sunlight.Ctlog.Action.{Act}
use sunlight.Ctlog.Batch.{opts_data_tile}
use sunlight.Ctlog.Locks.{is_ok, Called, worked, failed}
use sunlight.Ctlog.S3.{
  Stored, PutObjectInput, GetOutput, Client, Gzip, IsAnswer, hedge_first, put_hedged, s3_upload,
  s3_fetch,
}
use sunlight.Ctlog.S3.Contents.{absent}
use sunlight.Ctlog.S3.Backend.{Uploaded, Fetched, s3-refines}

-- The objects, and for each request to come whether it fails
abbrev Store : Type 0
Store = Map Bytes Stored × List Bool

abbrev put : PutObjectInput → Act Store (Unit {0})
put i (objects, []) = (ok tt, (insert i.key i.stored objects, []))
put i (objects, false ∷ script) = (ok tt, (insert i.key i.stored objects, script))
put i (objects, true ∷ script) = (err backend_failed, (objects, script))

put-Called :
    (i : PutObjectInput) (d : Store)
    → Called d.0 (insert i.key i.stored d.0) tt (put i d).0 (put i d).1.0
put-Called i (objects, []) = worked refl refl
put-Called i (objects, false ∷ script) = worked refl refl
put-Called i (objects, true ∷ script) = failed refl (inl refl)

abbrev get_of : Option Stored → Outcome LogError GetOutput
get_of none = err not_found
get_of (some o) = ok (record { body = ok o.body; content_encoding = o.content_encoding })

get_of-IsAnswer :
    (o : Option Stored) (out : GetOutput)
    → get_of o ≡ ok out
    → (s : Stored) × (o ≡ some s) × IsAnswer s out
get_of-IsAnswer none out h = absurd (cc h)
get_of-IsAnswer (some o) out h =
    let same = ok-injective {E = LogError} _ _ h in
    (
      o,
      refl,
      (
        ap (λ (x : GetOutput). x.content_encoding) (sym same),
        λ b whole. of_body b (ap (λ (x : GetOutput). x.body) same ∙ whole),
      ),
    )
  where
    of_body : (b : Bytes) → ◌≡◌ {A = Outcome LogError Bytes} (ok o.body) (ok b) → b ≡ o.body
    of_body b e = sym (ok-injective _ _ e)

abbrev store_client : Client Store
store_client = record {
  objects = λ d. d.0;
  put_object = put;
  get_object = λ key d. (get_of (lookup key d.0), d);
  put_object-Called = put-Called;
  get_object-objects = λ key d. refl;
  get_object-IsAnswer = λ key d out h. get_of-IsAnswer (lookup key d.0) out h;
}

-- A compressed string has a header of one byte.
abbrev reader_of : Outcome LogError Bytes → Outcome LogError Bytes
reader_of (ok (x ∷ b)) = ok b
reader_of (ok []) = err backend_failed
reader_of (err e) = err e
reader_of panic = panic

reader_of-ok :
    (body : Outcome LogError Bytes) (b : Bytes) → reader_of body ≡ ok b → is_ok body ≡ true
reader_of-ok (ok x) b h = refl
reader_of-ok (err e) b h = absurd (cc h)
reader_of-ok panic b h = absurd (cc h)

abbrev header_gzip : Gzip Bytes
header_gzip = record {
  compress = λ b. ok (31 ∷ b);
  new_reader = reader_of;
  read_all = λ b. ok b;
  read-compress = λ b z h. (b, ap reader_of (sym h), refl);
  read_broken = λ body reader b opened read. reader_of-ok body reader opened;
}

-- An empty bucket, in which the second request fails
abbrev empty_store : Store
empty_store = ([], false ∷ true ∷ [])

abbrev tile_key : Bytes
tile_key = codes "tile"

abbrev tile : Bytes
tile = 1 ∷ 2 ∷ 3 ∷ []

s3-refines_example :
    Uploaded store_client header_gzip
      (codes "log/")
      tile_key
      tile
      (some opts_data_tile)
      []
      (s3_upload store_client header_gzip
        (codes "log/")
        hedge_first
        tile_key
        tile
        (some opts_data_tile)
        empty_store).0
      (s3_upload store_client header_gzip
        (codes "log/")
        hedge_first
        tile_key
        tile
        (some opts_data_tile)
        empty_store).1.0
    × Fetched store_client header_gzip
        (codes "log/")
        tile_key
        []
        (store_client.get_object (codes "log/tile") empty_store).0
        (s3_fetch store_client header_gzip (codes "log/") tile_key empty_store).0
    × ((s3_fetch store_client header_gzip (codes "log/") tile_key empty_store).1.0 ≡ [])
unfolding lookup
s3-refines_example =
    s3-refines store_client header_gzip (codes "log/") hedge_first tile_key tile
      (some opts_data_tile) empty_store [] (λ key. absent refl refl)

abbrev uploaded_store : Outcome LogError (Unit {0}) × Store
uploaded_store =
    s3_upload store_client header_gzip (codes "log/") hedge_first tile_key tile
      (some opts_data_tile) empty_store

-- The content is compressed in the bucket, and fetched as it was.
fetched :
    (uploaded_store.0 ≡ ok tt)
    × ((s3_fetch store_client header_gzip (codes "log/") tile_key uploaded_store.1).0 ≡ ok tile)
    × (map (λ o. o.1.body) uploaded_store.1.0 ≡ (31 ∷ tile) ∷ [])
unfolding s3_upload put_hedged s3_fetch lookup insert
fetched = (refl, refl, refl)

-- A hedge that ends first and fails makes the upload fail, although the request itself works.
hedge_failed :
    let (r, d) =
      s3_upload store_client header_gzip
        (codes "log/")
        hedge_first
        tile_key
        tile
        none
        ([], true ∷ false ∷ []) in
    (r ≡ err object_not_uploaded) × (map (λ o. o.1.body) d.0 ≡ tile ∷ [])
unfolding s3_upload put_hedged insert
hedge_failed = (refl, refl)

-- ===== src/Ctlog/Locks/Plain.antt =====
-- Databases that never fail, for running the lock backends (sqlite.go, dynamodb.go, etag.go): the laws
-- hold of them.
use sunlight.Prelude.{
  ℕ, ◌≡◌, refl, inl, inr, [], ◌∷◌, Bool, true, false, Option, none, some, Outcome, ok, err,
}
use sunlight.Prelude.Maps.{Map, lookup, insert, bytes_eq}
use sunlight.Errors.{LogError, lock_failed, not_found}
use sunlight.Cryptobyte.Wire.{Bytes}
use sunlight.Ctlog.Action.{Act}
use sunlight.Ctlog.Locks.{is_ok, Called, worked}
use sunlight.Ctlog.Locks.Sqlite.{Sqlite, selected, effect, changed}
use sunlight.Ctlog.Locks.Dynamodb.{Dynamodb, meets}
use sunlight.Ctlog.Locks.Etag.{Bucket, GetObjectOutput, matches}

-- The table, and the changes of the last statement
abbrev pub plain_sqlite : Sqlite (Map Bytes Bytes × ℕ)
plain_sqlite = record {
  rows = λ d. d.0;
  exec = λ q d. (ok (selected q d.0), (effect q d.0, changed q d.0));
  changes = λ d. d.1;
  exec-Called = λ q d. worked refl refl;
  changes-exec = λ q d h. refl;
}

abbrev pub put_if : Bool → Bytes → Bytes → Act (Map Bytes Bytes) (Unit {0})
put_if true id new d = (ok tt, insert id new d)
put_if false id new d = (err lock_failed, d)

pub put_if-Called :
    (b : Bool) (id new : Bytes) (d : Map Bytes Bytes)
    → b ≡ true
    → Called d (insert id new d) tt (put_if b id new d).0 (put_if b id new d).1
put_if-Called true id new d h = worked refl refl
put_if-Called false id new d h = absurd (cc h)

pub put_if_not :
    (b : Bool) (id new : Bytes) (d : Map Bytes Bytes)
    → b ≡ false
    → (is_ok (put_if b id new d).0 ≡ false) × ((put_if b id new d).1 ≡ d)
put_if_not true id new d h = absurd (cc h)
put_if_not false id new d h = (refl, refl)

abbrev pub plain_dynamodb : Dynamodb (Map Bytes Bytes)
plain_dynamodb = record {
  items = λ d. d;
  get_item = λ id d. (ok (lookup id d), d);
  put_item = λ id new q d. put_if (meets q (lookup id d)) id new d;
  get_item-Called = λ id d. worked refl refl;
  put_item-Called = λ id new q d h. put_if-Called (meets q (lookup id d)) id new d h;
  put_item_unmet = λ id new q d h. put_if_not (meets q (lookup id d)) id new d h;
}

-- The entity tag is the content in quotes.
abbrev pub quoted : Bytes → Bytes
quoted b = 34 ∷ b

abbrev pub output : Bytes → GetObjectOutput
output b = record { body = ok b; etag = some (quoted b) }

abbrev pub get_of : Option Bytes → Outcome LogError GetObjectOutput
get_of none = err not_found
get_of (some b) = ok (output b)

abbrev pub tag_if : Bool → Bytes → Bytes → Act (Map Bytes Bytes) (Option Bytes)
tag_if true key new d = (ok (some (quoted new)), insert key new d)
tag_if false key new d = (err lock_failed, d)

pub tag_if-Called :
    (b : Bool) (key new : Bytes) (d : Map Bytes Bytes)
    → b ≡ true
    → Called d (insert key new d) (some (quoted new)) (tag_if b key new d).0 (tag_if b key new d).1
tag_if-Called true key new d h = worked refl refl
tag_if-Called false key new d h = absurd (cc h)

pub tag_if_not :
    (b : Bool) (key new : Bytes) (d : Map Bytes Bytes)
    → b ≡ false
    → (is_ok (tag_if b key new d).0 ≡ false) × ((tag_if b key new d).1 ≡ d)
tag_if_not true key new d h = absurd (cc h)
tag_if_not false key new d h = (refl, refl)

pub quoted-injective : (a b : Bytes) → quoted a ≡ quoted b → a ≡ b
quoted-injective a b h = cc

pub quoted-ne : (a : Bytes) → quoted a ≡ [] → ⊥
quoted-ne a h = cc h

abbrev pub plain_bucket : Bucket (Map Bytes Bytes)
plain_bucket = record {
  objects = λ d. d;
  etag_of = quoted;
  get_object = λ key d. (get_of (lookup key d), d);
  put_object = λ key new tag d. tag_if (matches quoted tag (lookup key d)) key new d;
  etag_of-injective = quoted-injective;
  etag_of-ne = quoted-ne;
  get_object-Called = λ key b d h. (output b, (inr refl, inl refl), rw (h) (worked refl refl));
  get_object_missing = λ key d h. (rw (h) refl, refl);
  put_object-Called = λ key new tag d h.
      (some (quoted new), inr refl, tag_if-Called (matches quoted tag (lookup key d)) key new d h);
  put_object_unmatched =
      λ key new tag d h. tag_if_not (matches quoted tag (lookup key d)) key new d h;
}

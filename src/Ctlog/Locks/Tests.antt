-- ===== src/Ctlog/Locks/Tests.antt =====
-- The lock backends (sqlite.go, dynamodb.go, etag.go) on concrete input.
use sunlight.Prelude.{◌≡◌, refl, [], ◌∷◌, some, ok}
use sunlight.Prelude.Maps.{Map, lookup, insert, bytes_eq}
use sunlight.Cryptobyte.Wire.{Bytes}
use sunlight.Ctlog.World.{World, fails_after}
use sunlight.Ctlog.Paths.{hex}
use sunlight.Ctlog.Locks.{Fetched, Replaced, Created}
use sunlight.Ctlog.Locks.Sqlite.{sqlite_fetch, sqlite_replace, sqlite_create, sqlite_checkpoint}
use sunlight.Ctlog.Locks.Sqlite.Swaps.{sqlite-refines}
use sunlight.Ctlog.Locks.Dynamodb.{
  dynamodb_fetch, dynamodb_replace, dynamodb_create, dynamodb_checkpoint,
}
use sunlight.Ctlog.Locks.Dynamodb.Swaps.{dynamodb-refines}
use sunlight.Ctlog.Locks.Etag.{etag_fetch, etag_replace, etag_create, etag_checkpoint}
use sunlight.Ctlog.Locks.Etag.Swaps.{etag-refines}
use sunlight.Ctlog.Locks.Plain.{plain_sqlite, plain_dynamodb, plain_bucket, quoted}

abbrev id : Bytes
id = 1 ∷ 2 ∷ []

abbrev old : Bytes
old = 10 ∷ []

abbrev new : Bytes
new = 11 ∷ []

-- The table of two logs
abbrev cells : Map Bytes Bytes
cells = (9 ∷ [], 50 ∷ []) ∷ (id, old) ∷ []

abbrev swapped_cells : Map Bytes Bytes
swapped_cells = (9 ∷ [], 50 ∷ []) ∷ (id, new) ∷ []

sqlite_swaps :
    sqlite_replace plain_sqlite (sqlite_checkpoint id old) new (cells, 0)
    ≡ (ok (sqlite_checkpoint id new), (swapped_cells, 1))
unfolding sqlite_replace lookup insert
sqlite_swaps = refl

sqlite-refines_example :
    (let m = sqlite_fetch plain_sqlite id (cells, 0) in
      Fetched (sqlite_checkpoint id) id cells m.0 m.1.0)
    × (let m = sqlite_replace plain_sqlite (sqlite_checkpoint id old) new (cells, 0) in
        Replaced (sqlite_checkpoint id) id old new cells m.0 m.1.0)
    × (let m = sqlite_create plain_sqlite id new (cells, 0) in Created id new cells m.0 m.1.0)
sqlite-refines_example = sqlite-refines plain_sqlite id old new (cells, 0)

dynamodb-refines_example :
    (let m = dynamodb_fetch plain_dynamodb id cells in
      Fetched (dynamodb_checkpoint id) id cells m.0 m.1)
    × (let m = dynamodb_replace plain_dynamodb (dynamodb_checkpoint id old) new cells in
        Replaced (dynamodb_checkpoint id) id old new cells m.0 m.1)
    × (let m = dynamodb_create plain_dynamodb id new cells in Created id new cells m.0 m.1)
dynamodb-refines_example = dynamodb-refines plain_dynamodb id old new cells

-- A bucket with an object under the key of the log
abbrev objects : Map Bytes Bytes
objects = (48 ∷ 49 ∷ 48 ∷ 50 ∷ [], old) ∷ []

etag-refines_example :
    (let m = etag_fetch plain_bucket id objects in
      Fetched (etag_checkpoint quoted (hex id)) (hex id) objects m.0 m.1)
    × (let m = etag_replace plain_bucket (etag_checkpoint quoted (hex id) old) new objects in
        Replaced (etag_checkpoint quoted (hex id)) (hex id) old new objects m.0 m.1)
    × (let m = etag_create plain_bucket id new objects in Created (hex id) new objects m.0 m.1)
etag-refines_example = etag-refines plain_bucket id old new objects

-- A world whose next call fails after its effect
abbrev failing : World
failing = record { objects = []; lock = some old; cache = []; now = 5; faults = fails_after ∷ [] }

-- ===== src/Ctlog/Locks.antt =====
-- The interface `LockBackend` of ctlog.go: what each of its methods may answer and leave behind, for
-- a store that maps the key of each log to the checkpoint it is locked at. The children are the
-- implementations, in sqlite.go, dynamodb.go and etag.go.
pub mod Calls
pub mod Sqlite
pub mod Dynamodb
pub mod Etag
pub mod Abstract
pub mod Plain
mod Tests
use sunlight.Prelude.{ℕ, ◌≡◌, ◌⊎◌, Bool, true, false, Option, none, some, Outcome, ok, err, panic}
use sunlight.Prelude.Maps.{Map, lookup, insert, bytes_eq}
use sunlight.Errors.{LogError}
use sunlight.Cryptobyte.Wire.{Bytes}
use sunlight.Ctlog.World.{holds}

abbrev pub is_ok : {A : Type 0} → Outcome LogError A → Bool
is_ok (ok a) = true
is_ok _ = false

-- A call of a database. It answers with `value` after its effect; or it fails, or the process ends,
-- before or after the effect.
pub data Called {S A : Type 0} (before effect : S) (value : A) (r : Outcome LogError A) (after : S)
    : Type 0 where
  worked : r ≡ ok value → after ≡ effect → Called before effect value r after
  failed :
      is_ok r ≡ false → (after ≡ before) ⊎ (after ≡ effect) → Called before effect value r after

-- The methods, on a store of checkpoints. `make` gives the checkpoint that the caller is handed for
-- the bytes that are stored.
module _ {C : Type 0} (make : Bytes → C) (key : Bytes) where
  pub data Fetched (cells : Map Bytes Bytes) (r : Outcome LogError C) (after : Map Bytes Bytes)
      : Type 0 where
    found :
        (b : Bytes)
        → lookup key cells ≡ some b
        → Called cells cells (make b) r after
        → Fetched cells r after
    missing : lookup key cells ≡ none → is_ok r ≡ false → after ≡ cells → Fetched cells r after

  -- A compare-and-swap
  pub data Replaced (old new : Bytes) (cells : Map Bytes Bytes) (r : Outcome LogError C)
      (after : Map Bytes Bytes) : Type 0 where
    swapped :
        holds (lookup key cells) old ≡ true
        → Called cells (insert key new cells) (make new) r after
        → Replaced old new cells r after
    refused :
        holds (lookup key cells) old ≡ false
        → is_ok r ≡ false
        → after ≡ cells
        → Replaced old new cells r after

pub data Created (key new : Bytes) (cells : Map Bytes Bytes) (r : Outcome LogError (Unit {0}))
    (after : Map Bytes Bytes) : Type 0 where
  created :
      lookup key cells ≡ none
      → Called cells (insert key new cells) tt r after
      → Created key new cells r after
  exists :
      (b : Bytes)
      → lookup key cells ≡ some b
      → is_ok r ≡ false
      → after ≡ cells
      → Created key new cells r after

-- ===== src/Ctlog/Locks/Dynamodb.antt =====
-- The lock backend of dynamodb.go, over the DynamoDB client of the AWS SDK.
pub mod Swaps
use sunlight.Prelude.{◌≡◌, ◌⊎◌, Bool, true, false, Option, none, some, Outcome, ok, err}
use sunlight.Prelude.Maps.{Map, lookup, insert, bytes_eq}
use sunlight.Errors.{LogError, lock_failed, not_found}
use sunlight.Cryptobyte.Wire.{Bytes}
use sunlight.Ctlog.Action.{Act, continue, wrap}
use sunlight.Ctlog.World.{holds, is_some}
use sunlight.Ctlog.Locks.{is_ok, Called}

pub record DynamodbCheckpoint : Type 0 where
  pub body : Bytes
  pub log_id : Bytes

-- The condition expressions of the backend
pub data Condition : Type 0 where
  -- checkpoint = :old
  checkpoint_is : Bytes → Condition
  -- attribute_not_exists(logID)
  log_id_not_exists : Condition

abbrev pub meets : Condition → Option Bytes → Bool
meets (checkpoint_is old) item = holds item old
meets log_id_not_exists none = true
meets log_id_not_exists (some b) = false

-- A client of a table whose items have the attributes `logID`, the key, and `checkpoint`: `GetItem`
-- with a consistent read, whose answer is the checkpoint of the item, if there is one, and `PutItem`
-- with a condition. The laws are the documented behaviour of conditional writes.
pub record Dynamodb (Db : Type 0) : Type 0 where
  pub items : Db → Map Bytes Bytes
  pub get_item : Bytes → Act Db (Option Bytes)
  pub put_item : Bytes → Bytes → Condition → Act Db (Unit {0})
  pub get_item-Called :
      (id : Bytes) (d : Db)
      → Called (items d) (items d) (lookup id (items d)) (get_item id d).0 (items (get_item id d).1)
  pub put_item-Called :
      (id new : Bytes) (q : Condition) (d : Db)
      → meets q (lookup id (items d)) ≡ true
      → Called
          (items d)
          (insert id new (items d))
          tt
          (put_item id new q d).0
          (items (put_item id new q d).1)
  pub put_item_unmet :
      (id new : Bytes) (q : Condition) (d : Db)
      → meets q (lookup id (items d)) ≡ false
      → (is_ok (put_item id new q d).0 ≡ false) × (items (put_item id new q d).1 ≡ items d)

abbrev checkpoint_of : Bytes → Option Bytes → Outcome LogError DynamodbCheckpoint
checkpoint_of id none = err not_found
checkpoint_of id (some b) = ok (record { body = b; log_id = id })

module _ {Db : Type 0} (c : Dynamodb Db) where
  -- `DynamoDBBackend.Fetch`
  unfoldable pub dynamodb_fetch : Bytes → Act Db DynamodbCheckpoint
  dynamodb_fetch id d = continue (c.get_item id d) λ item v. (checkpoint_of id item, v)

  -- `DynamoDBBackend.Replace`
  unfoldable pub dynamodb_replace : DynamodbCheckpoint → Bytes → Act Db DynamodbCheckpoint
  dynamodb_replace o new d =
      continue (wrap lock_failed (c.put_item o.log_id new (checkpoint_is o.body) d))
        λ _ v. (ok (record { body = new; log_id = o.log_id }), v)

  -- `DynamoDBBackend.Create`
  unfoldable pub dynamodb_create : Bytes → Bytes → Act Db (Unit {0})
  dynamodb_create id new d = c.put_item id new log_id_not_exists d

abbrev pub dynamodb_checkpoint : Bytes → Bytes → DynamodbCheckpoint
dynamodb_checkpoint id b = record { body = b; log_id = id }

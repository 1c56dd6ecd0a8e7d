-- ===== src/Ctlog/Locks/Sqlite.antt =====
-- The lock backend of sqlite.go, over the packages sqlite and sqlitex.
pub mod Swaps
use sunlight.Prelude.{
  ℕ, ◌≡◌, refl, sym, ◌∙◌, ap, ◌⊎◌, inl, inr, List, [], ◌∷◌, Bool, true, false, Option, none, some,
  Outcome, ok, err, panic, ◌==◌, if◌then◌else◌, Bool-cases, Option-cases,
}
use sunlight.Prelude.Maps.{Map, lookup, insert, bytes_eq}
use sunlight.Errors.{LogError, lock_failed, not_found}
use sunlight.Cryptobyte.Wire.{Bytes}
use sunlight.Ctlog.Action.{Act, continue, wrap}
use sunlight.Ctlog.World.{holds, is_some}
use sunlight.Ctlog.Locks.{
  is_ok, Called, worked, failed, Fetched, found, missing, Replaced, swapped, refused, Created,
  created, exists,
}

pub record SqliteCheckpoint : Type 0 where
  pub body : Bytes
  pub log_id : Bytes

-- The statements that the backend executes, with their parameters in order, on the table
-- `checkpoints (logID BLOB PRIMARY KEY, body TEXT)`
pub data Statement : Type 0 where
  -- SELECT body FROM checkpoints WHERE logID = ?
  select_body : Bytes → Statement
  -- UPDATE checkpoints SET body = ? WHERE logID = ? AND body = ?
  update_body : Bytes → Bytes → Bytes → Statement
  -- INSERT INTO checkpoints (logID, body) VALUES (?, ?) ON CONFLICT(logID) DO NOTHING
  insert_body : Bytes → Bytes → Statement

abbrev row_texts : Option Bytes → List Bytes
row_texts none = []
row_texts (some b) = b ∷ []

-- What the statements mean: the rows they give, and the table and the number of rows they leave.
abbrev pub selected : Statement → Map Bytes Bytes → List Bytes
selected (select_body id) rows = row_texts (lookup id rows)
selected _ rows = []

abbrev pub effect : Statement → Map Bytes Bytes → Map Bytes Bytes
effect (select_body id) rows = rows
effect (update_body new id old) rows =
    if holds (lookup id rows) old then insert id new rows else rows
effect (insert_body id new) rows = if is_some (lookup id rows) then rows else insert id new rows

abbrev pub changed : Statement → Map Bytes Bytes → ℕ
changed (select_body id) rows = 0
changed (update_body new id old) rows = if holds (lookup id rows) old then 1 else 0
changed (insert_body id new) rows = if is_some (lookup id rows) then 0 else 1

-- A connection in the state `Db`: `sqlitex.Exec`, with the texts that its callback is given, and
-- `conn.Changes`. The laws are SQL's.
pub record Sqlite (Db : Type 0) : Type 0 where
  pub rows : Db → Map Bytes Bytes
  pub exec : Statement → Act Db (List Bytes)
  pub changes : Db → ℕ
  pub exec-Called :
      (q : Statement) (d : Db)
      → Called (rows d) (effect q (rows d)) (selected q (rows d)) (exec q d).0 (rows (exec q d).1)
  pub changes-exec :
      (q : Statement) (d : Db)
      → is_ok (exec q d).0 ≡ true
      → changes (exec q d).1 ≡ changed q (rows d)

-- The variable that the callback assigns: the text of the last row
abbrev last_text : Option Bytes → List Bytes → Option Bytes
last_text body [] = body
last_text body (text ∷ texts) = last_text (some text) texts

abbrev checkpoint_of : Bytes → Option Bytes → Outcome LogError SqliteCheckpoint
checkpoint_of id none = err not_found
checkpoint_of id (some b) = ok (record { body = b; log_id = id })

module _ {Db : Type 0} (c : Sqlite Db) where
  -- `SQLiteBackend.Fetch`
  unfoldable pub sqlite_fetch : Bytes → Act Db SqliteCheckpoint
  sqlite_fetch id d =
      continue (c.exec (select_body id) d) λ texts v. (checkpoint_of id (last_text none texts), v)

  -- `SQLiteBackend.Replace`
  unfoldable pub sqlite_replace : SqliteCheckpoint → Bytes → Act Db SqliteCheckpoint
  sqlite_replace o new d =
      continue (wrap lock_failed (c.exec (update_body new o.log_id o.body) d)) λ _ v.
        if c.changes v == 0
        then (err lock_failed, v)
        else (ok (record { body = new; log_id = o.log_id }), v)

  -- `SQLiteBackend.Create`
  unfoldable pub sqlite_create : Bytes → Bytes → Act Db (Unit {0})
  sqlite_create id new d =
      continue (wrap lock_failed (c.exec (insert_body id new) d))
        λ _ v. if c.changes v == 0 then (err lock_failed, v) else (ok tt, v)

abbrev pub sqlite_checkpoint : Bytes → Bytes → SqliteCheckpoint
sqlite_checkpoint id b = record { body = b; log_id = id }

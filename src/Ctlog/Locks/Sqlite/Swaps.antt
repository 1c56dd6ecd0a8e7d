-- ===== src/Ctlog/Locks/Sqlite/Swaps.antt =====
-- The lock backend of sqlite.go is a compare-and-swap.
use sunlight.Prelude.{
  List, ◌≡◌, refl, inl, inr, true, Outcome, ok, err, panic, Bool-cases, Option-cases,
}
use sunlight.Prelude.Maps.{lookup, bytes_eq}
use sunlight.Errors.{LogError, lock_failed, not_found}
use sunlight.Cryptobyte.Wire.{Bytes}
use sunlight.Ctlog.Action.{wrap}
use sunlight.Ctlog.World.{holds}
use sunlight.Ctlog.Locks.{
  is_ok, Fetched, found, missing, Replaced, swapped, refused, Created, created, exists,
}
use sunlight.Ctlog.Locks.Calls.{Called-wrap, Called-continue, Called-refuse}
use sunlight.Ctlog.Locks.Sqlite.{
  Statement, select_body, update_body, insert_body, changed, Sqlite, sqlite_fetch, sqlite_replace,
  sqlite_create, sqlite_checkpoint,
}

module _ {Db : Type 0} (c : Sqlite Db) where
  -- `conn.Changes` after the error of a call was wrapped
  changes-wrap :
      (q : Statement) (d : Db)
      → is_ok (wrap lock_failed (c.exec q d)).0 ≡ true
      → c.changes (wrap lock_failed (c.exec q d)).1 ≡ changed q (c.rows d)
  changes-wrap q d = by_outcome (c.exec q d) (c.changes-exec q d)
    where
      by_outcome :
          (m : Outcome LogError (List Bytes) × Db)
          → (is_ok m.0 ≡ true → c.changes m.1 ≡ changed q (c.rows d))
          → is_ok (wrap lock_failed m).0 ≡ true
          → c.changes (wrap lock_failed m).1 ≡ changed q (c.rows d)
      by_outcome (ok x, v) h = h
      by_outcome (err x, v) h = λ k. absurd (cc k)
      by_outcome (panic, v) h = λ k. absurd (cc k)

  fetch_case :
      (id : Bytes) (d : Db)
      → Fetched
          (sqlite_checkpoint id)
          id
          (c.rows d)
          (sqlite_fetch c id d).0
          (c.rows (sqlite_fetch c id d).1)
  unfolding sqlite_fetch
  fetch_case id d =
      let called = c.exec-Called (select_body id) d in
      elim (Option-cases (lookup id (c.rows d))) [
        | inl no_row ↦
            let (refusal, same) =
              Called-refuse c.rows not_found (c.exec (select_body id) d) _ (λ k. rw (no_row) refl)
                refl called in
            missing no_row refusal same
        | inr (b, row) ↦
            found b row
              (Called-continue c.rows (c.exec (select_body id) d) _ (λ k. rw (row) refl) called)
      ]

  replace_case :
      (id old new : Bytes) (d : Db)
      → let m = sqlite_replace c (sqlite_checkpoint id old) new d in
        Replaced (sqlite_checkpoint id) id old new (c.rows d) m.0 (c.rows m.1)
  unfolding sqlite_replace
  replace_case id old new d =
      let q = update_body new id old in
      let m = wrap lock_failed (c.exec q d) in
      let called = Called-wrap c.rows lock_failed (c.exec q d) (c.exec-Called q d) in
      elim (Bool-cases (holds (lookup id (c.rows d)) old)) [
        | inl held ↦ swapped held (
            Called-continue c.rows m _ (λ k. rw (changes-wrap q d k, held) refl)
              (rw (held) at called))
        | inr not_held ↦
            let (refusal, same) =
              Called-refuse c.rows lock_failed m _ (λ k. rw (changes-wrap q d k, not_held) refl)
                (rw (not_held) refl) called in
            refused not_held refusal same
      ]

  create_case :
      (id new : Bytes) (d : Db)
      → Created id new (c.rows d) (sqlite_create c id new d).0 (c.rows (sqlite_create c id new d).1)
  unfolding sqlite_create
  create_case id new d =
      let q = insert_body id new in
      let m = wrap lock_failed (c.exec q d) in
      let called = Called-wrap c.rows lock_failed (c.exec q d) (c.exec-Called q d) in
      elim (Option-cases (lookup id (c.rows d))) [
        | inl no_row ↦ created no_row (
            Called-continue c.rows m _ (λ k. rw (changes-wrap q d k, no_row) refl)
              (rw (no_row) at called))
        | inr (b, row) ↦
            let (refusal, same) =
              Called-refuse c.rows lock_failed m _ (λ k. rw (changes-wrap q d k, row) refl)
                (rw (row) refl) called in
            exists b row refusal same
      ]

  -- The SQLite backend refines the lock of the log: on the checkpoints by log, each of its methods does
  -- what `LockBackend` promises, whichever of its calls fail. In particular `Replace` stores the new
  -- checkpoint only in place of the one it was given, and fails without effect otherwise.
  pub sqlite-refines :
      (id old new : Bytes) (d : Db)
      → (let m = sqlite_fetch c id d in
          Fetched (sqlite_checkpoint id) id (c.rows d) m.0 (c.rows m.1))
        × (let m = sqlite_replace c (sqlite_checkpoint id old) new d in
            Replaced (sqlite_checkpoint id) id old new (c.rows d) m.0 (c.rows m.1))
        × (let m = sqlite_create c id new d in Created id new (c.rows d) m.0 (c.rows m.1))
  sqlite-refines id old new d = (fetch_case id d, replace_case id old new d, create_case id new d)

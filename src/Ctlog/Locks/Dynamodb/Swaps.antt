-- ===== src/Ctlog/Locks/Dynamodb/Swaps.antt =====
-- The lock backend of dynamodb.go is a compare-and-swap.
use sunlight.Prelude.{refl, inl, inr, Bool-cases, Option-cases}
use sunlight.Prelude.Maps.{lookup, bytes_eq}
use sunlight.Errors.{lock_failed, not_found}
use sunlight.Cryptobyte.Wire.{Bytes}
use sunlight.Ctlog.Action.{wrap}
use sunlight.Ctlog.World.{holds}
use sunlight.Ctlog.Locks.{
  Fetched, found, missing, Replaced, swapped, refused, Created, created, exists,
}
use sunlight.Ctlog.Locks.Calls.{Called-wrap, Called-continue, Called-refuse, refused-continue}
use sunlight.Ctlog.Locks.Dynamodb.{
  checkpoint_is, log_id_not_exists, Dynamodb, dynamodb_fetch, dynamodb_replace, dynamodb_create,
  dynamodb_checkpoint,
}

module _ {Db : Type 0} (c : Dynamodb Db) where
  fetch_case :
      (id : Bytes) (d : Db)
      → Fetched
          (dynamodb_checkpoint id)
          id
          (c.items d)
          (dynamodb_fetch c id d).0
          (c.items (dynamodb_fetch c id d).1)
  unfolding dynamodb_fetch
  fetch_case id d =
      let called = c.get_item-Called id d in
      elim (Option-cases (lookup id (c.items d))) [
        | inl no_item ↦
            let (refusal, same) =
              Called-refuse c.items not_found (c.get_item id d) _ (λ k. rw (no_item) refl) refl
                called in
            missing no_item refusal same
        | inr (b, item) ↦
            found b item (Called-continue c.items (c.get_item id d) _ (λ k. rw (item) refl) called)
      ]

  replace_case :
      (id old new : Bytes) (d : Db)
      → let m = dynamodb_replace c (dynamodb_checkpoint id old) new d in
        Replaced (dynamodb_checkpoint id) id old new (c.items d) m.0 (c.items m.1)
  unfolding dynamodb_replace
  replace_case id old new d =
      let q = checkpoint_is old in
      let put = c.put_item id new q d in
      elim (Bool-cases (holds (lookup id (c.items d)) old)) [
        | inl held ↦ swapped held (
            Called-continue c.items (wrap lock_failed put) _ (λ k. refl)
              (Called-wrap c.items lock_failed put (c.put_item-Called id new q d held)))
        | inr not_held ↦
            let (refusal, same) = c.put_item_unmet id new q d not_held in
            let (still, kept) = refused-continue c.items lock_failed put _ refusal same in
            refused not_held still kept
      ]

  create_case :
      (id new : Bytes) (d : Db)
      → Created id new
          (c.items d)
          (dynamodb_create c id new d).0
          (c.items (dynamodb_create c id new d).1)
  unfolding dynamodb_create
  create_case id new d = elim (Option-cases (lookup id (c.items d))) [
    | inl no_item ↦
        created no_item (c.put_item-Called id new log_id_not_exists d (rw (no_item) refl))
    | inr (b, item) ↦
        let (refusal, same) = c.put_item_unmet id new log_id_not_exists d (rw (item) refl) in
        exists b item refusal same
  ]

  -- The DynamoDB backend refines the lock of the log: on the checkpoints by log, each of its methods
  -- does what `LockBackend` promises, whichever of its calls fail.
  pub dynamodb-refines :
      (id old new : Bytes) (d : Db)
      → (let m = dynamodb_fetch c id d in
          Fetched (dynamodb_checkpoint id) id (c.items d) m.0 (c.items m.1))
        × (let m = dynamodb_replace c (dynamodb_checkpoint id old) new d in
            Replaced (dynamodb_checkpoint id) id old new (c.items d) m.0 (c.items m.1))
        × (let m = dynamodb_create c id new d in Created id new (c.items d) m.0 (c.items m.1))
  dynamodb-refines id old new d = (fetch_case id d, replace_case id old new d, create_case id new d)

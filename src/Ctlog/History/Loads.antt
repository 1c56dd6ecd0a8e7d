-- ===== src/Ctlog/History/Loads.antt =====
-- `LoadLog` (ctlog.go) leaves the lock alone, whatever fails in it and wherever the process ends.
use sunlight.Prelude.{
  ℕ, ◌*◌, ◌≡◌, ◌∙◌, List, [], ◌∷◌, not, ◌&&◌, Outcome, ok, err, panic, ltb, ◌==◌,
}
use sunlight.Prelude.Int.{ℤ}
use sunlight.Prelude.Maps.{Map, bytes_beq}
use sunlight.Errors.{
  LogError, lock_not_fetched, checkpoint_not_opened, published_not_fetched, published_not_opened,
  staged_not_fetched, staged_not_applied, cache_failed, cache_not_opened, edge_not_fetched,
  data_tile_not_fetched,
}
use sunlight.Cryptobyte.{Cryptobyte}
use sunlight.Cryptobyte.Wire.{Bytes}
use sunlight.Ctlog.Action.{Act, continue, wrap, renamed}
use sunlight.Ctlog.World.{World, call, fetch, lock_fetch, first_fault, rest_faults}
use sunlight.Ctlog.World.Frames.{perform_cases}
use sunlight.Ctlog.Types.{Tlog, TlogTile, Tree, TreeWithTimestamp, TileWithBytes}
use sunlight.Ctlog.Paths.{tile_path, tile_width, staging_path, checkpoint_key}
use sunlight.Ctlog.Staging.{Archive, apply_staged_uploads}
use sunlight.Ctlog.Sequencer.{CheckpointSigner}
use sunlight.Ctlog.Loading.{
  read_tiles, save_tiles, load_data_tile, data_tile_at, level0_of, check_entries, edge_ids,
  load_edge, apply_bundle, catch_up, load_rest, load_published, load_log,
}
use sunlight.Ctlog.Loading.Recovery.{apply_staged_uploads-lock}
use sunlight.Ctlog.History.Frames.{ask-lock, fetch-lock, either-branch}

module _ (w : World) where
  -- The lock is that of `w` behind a call.
  abbrev Held : {A : Type 0} → Outcome LogError A × World → Type 0
  Held x = x.1.lock ≡ w.lock

  continue-Held :
      {A B : Type 0} (x : Outcome LogError A × World) (k : A → Act World B)
      → Held x
      → ((a : A) (v : World) → v.lock ≡ w.lock → Held (k a v))
      → Held (continue x k)
  continue-Held (ok a, v) k h rest = rest a v h
  continue-Held (err e, v) k h rest = h
  continue-Held (panic, v) k h rest = h

  wrap-Held :
      {A : Type 0} (e : LogError) (x : Outcome LogError A × World) → Held x → Held (wrap e x)
  wrap-Held e (ok a, v) h = h
  wrap-Held e (err f, v) h = h
  wrap-Held e (panic, v) h = h

  fetch-Held : (key : Bytes) (v : World) → v.lock ≡ w.lock → Held (fetch key v)
  fetch-Held key v h = fetch-lock key v ∙ h

  idle-Held : (e : LogError) (v : World) → v.lock ≡ w.lock → Held (call (λ u. u) e v)
  unfolding call
  idle-Held e v h =
      perform_cases (λ u. u) e Held (record v { faults = rest_faults v.faults })
        (first_fault v.faults) h h h h h

  module _ (tlog : Tlog) where
    read_tiles-Held :
        (ts : List TlogTile) (v : World) → v.lock ≡ w.lock → Held (read_tiles tlog ts v)
    unfolding read_tiles
    read_tiles-Held [] v h = h
    read_tiles-Held (t ∷ ts) v h =
        continue-Held (tile_path tlog t, v) _ h
          λ key u k.
            continue-Held (fetch key u) _ (fetch-Held key u k)
              λ b x l. continue-Held (read_tiles tlog ts x) _ (read_tiles-Held ts x l) λ bs y m. m

  module _ {Builder : Type 0} (cb : Cryptobyte Builder) (tlog : Tlog) where
    load_data_tile-Held :
        (edges : Map ℤ TileWithBytes) (v : World)
        → v.lock ≡ w.lock
        → Held (load_data_tile cb tlog edges v)
    unfolding load_data_tile
    load_data_tile-Held edges v h =
        let tile = data_tile_at edges in
        continue-Held (tile_path tlog tile, v) _ h
          λ key u k.
            continue-Held (wrap data_tile_not_fetched (fetch key u)) _
              (wrap-Held data_tile_not_fetched (fetch key u) (fetch-Held key u k))
              λ b x l.
                continue-Held
                  (check_entries cb tlog (level0_of edges) tile.w (tile_width * tile.n) b, x) _ l
                  λ _ y m. m

    load_edge-Held : (tree : Tree) (v : World) → v.lock ≡ w.lock → Held (load_edge cb tlog tree v)
    unfolding load_edge
    load_edge-Held tree v h =
        let tiles = tlog.edge_plan tree (edge_ids cb tlog tree) in
        either-branch (λ (x : Outcome LogError (Map ℤ TileWithBytes) × World). Held x) (tree.n == 0)
          h
          (continue-Held (wrap edge_not_fetched (read_tiles tlog tiles v)) _
            (wrap-Held edge_not_fetched (read_tiles tlog tiles v) (read_tiles-Held tlog tiles v h))
            λ bs u k.
              continue-Held
                (
                  renamed edge_not_fetched (tlog.edge_check tree (edge_ids cb tlog tree) tiles bs),
                  u,
                )
                _ k λ _ x l. load_data_tile-Held (save_tiles tiles bs []) x l)

  module _ (archive : Archive) where
    apply_bundle-Held :
        (tree : Tree) (v : World) → v.lock ≡ w.lock → Held (apply_bundle archive tree v)
    unfolding apply_bundle
    apply_bundle-Held tree v h =
        continue-Held (wrap staged_not_fetched (fetch (staging_path tree) v)) _
          (wrap-Held staged_not_fetched (fetch (staging_path tree) v)
            (fetch-Held (staging_path tree) v h))
          λ staged u k.
            wrap-Held staged_not_applied (apply_staged_uploads archive staged u)
              (apply_staged_uploads-lock archive staged u ∙ k)

    catch_up-Held : (a b : Tree) (v : World) → v.lock ≡ w.lock → Held (catch_up archive a b v)
    unfolding catch_up
    catch_up-Held a b v h =
        let P = λ (x : Outcome LogError (Unit {0}) × World). Held x in
        either-branch P ((a.n == b.n) && not (bytes_beq a.hash b.hash)) h (
          either-branch P (ltb b.n a.n) h
            (either-branch P (ltb a.n b.n) (apply_bundle-Held b v h) h))

module _ {Builder : Type 0} (cb : Cryptobyte Builder) (tlog : Tlog) (archive : Archive)
    (signer : CheckpointSigner) (pool_size : ℕ) (w : World) where
  load_rest-Held :
      (head : TreeWithTimestamp) (lock : Bytes) (v : World)
      → v.lock ≡ w.lock
      → Held w (load_rest cb tlog archive signer pool_size head lock v)
  unfolding load_rest
  load_rest-Held head lock v h =
      continue-Held w (wrap cache_not_opened (call (λ u. u) cache_failed v)) _
        (wrap-Held w cache_not_opened (call (λ u. u) cache_failed v) (idle-Held w cache_failed v h))
        λ _ u k.
          continue-Held w (load_edge cb tlog head.tree u) _ (load_edge-Held w cb tlog head.tree u k)
            λ edges x l. l

  load_published-Held :
      (head : TreeWithTimestamp) (lock : Bytes) (v : World)
      → v.lock ≡ w.lock
      → Held w (load_published cb tlog archive signer pool_size head lock v)
  unfolding load_published
  load_published-Held head lock v h =
      continue-Held w (wrap published_not_fetched (fetch checkpoint_key v)) _
        (wrap-Held w published_not_fetched (fetch checkpoint_key v)
          (fetch-Held w checkpoint_key v h))
        λ sth u k.
          continue-Held w (renamed published_not_opened (signer.open_checkpoint u.now sth), u) _ k
            λ published x l.
              continue-Held w (catch_up archive published.tree head.tree x) _
                (catch_up-Held w archive published.tree head.tree x l)
                λ _ y m. load_rest-Held head lock y m

  pub load_log-lock : (load_log cb tlog archive signer pool_size w).1.lock ≡ w.lock
  unfolding load_log lock_fetch
  load_log-lock =
      continue-Held w (wrap lock_not_fetched (lock_fetch w)) _
        (wrap-Held w lock_not_fetched (lock_fetch w) (ask-lock _ _ w))
        λ lock u k.
          continue-Held w (renamed checkpoint_not_opened (signer.open_checkpoint u.now lock), u) _ k
            λ head x l. load_published-Held head lock x l

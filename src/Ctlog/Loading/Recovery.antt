-- ===== src/Ctlog/Loading/Recovery.antt =====
-- What a log that was loaded (ctlog.go, `LoadLog`) agrees with, and that the bundle of its tree was
-- applied where the published checkpoint is older.
use sunlight.Prelude.{
  ◌*◌, ℕ, ◌<◌, ◌≡◌, refl, sym, ◌∙◌, ap, List, [], ◌∷◌, false, not, ◌&&◌, Option, none, some,
  Outcome, ok, err, panic, ltb, ltb→lt, ◌==◌, arith, Bool-cases, inl, inr, ok-injective,
}
use sunlight.Prelude.Int.{ℤ}
use sunlight.Prelude.Maps.{Map, lookup, bytes_eq, bytes_beq, bytes_beq_iff}
use sunlight.Errors.{
  LogError, lock_not_fetched, checkpoint_not_opened, published_not_fetched, published_not_opened,
  staged_not_fetched, staged_not_applied, cache_failed, cache_not_opened, edge_not_fetched,
  data_tile_not_fetched,
}
use sunlight.Cryptobyte.{Cryptobyte}
use sunlight.Cryptobyte.Wire.{Bytes}
use sunlight.Ctlog.Action.{continue, wrap, renamed}
use sunlight.Ctlog.World.{World, UploadOptions, call, fetch, lock_fetch, object_content, upload}
use sunlight.Ctlog.World.Frames.{upload_cases}
use sunlight.Ctlog.World.Reads.{
  IsSame, IsSame-refl, IsSame-trans, continue-eq-ok, lifted-eq-ok, wrap-eq-ok, fetch-eq-ok,
  lock_fetch-eq-ok, idle-eq-ok,
}
use sunlight.Ctlog.Types.{Tlog, TlogTile, Tree, TreeWithTimestamp, TileWithBytes, Log}
use sunlight.Ctlog.Paths.{tile_width, tile_path, staging_path, checkpoint_key}
use sunlight.Ctlog.Batch.Entries.{renamed-eq-ok}
use sunlight.Ctlog.Staging.{
  TarItem, TarFile, file, bad_header, bad_content, Archive, file_options, next_upload, apply_items,
  apply_staged_uploads,
}
use sunlight.Ctlog.Sequencer.{CheckpointSigner}
use sunlight.Ctlog.Loading.{
  read_tiles, load_data_tile, load_edge, apply_bundle, catch_up, loaded, load_rest, load_published,
  load_log, check_entries, save_tiles, level0_of, data_tile_at, edge_ids,
}

module _ (archive : Archive) where
  -- One file, whatever its upload comes to.
  file-lock :
      (f : TarFile) (items : List TarItem) (failed : Option LogError) (w : World)
      (r : Outcome LogError UploadOptions)
      → ((o : Option LogError) (v : World) → (apply_items archive items o v).1.lock ≡ v.lock)
      → (continue
          (r, w)
          (λ opts v.
            next_upload (upload f.name f.content opts v) failed (apply_items archive items))).1.lock
        ≡ w.lock
  file-lock f items failed w (err e) rest = refl
  file-lock f items failed w panic rest = refl
  file-lock f items failed w (ok opts) rest =
      upload_cases f.name f.content opts
        (λ x. (next_upload x failed (apply_items archive items)).1.lock ≡ w.lock) w
        (λ v l o. rest failed v ∙ l) (λ v l o. rest _ v ∙ l) (λ v l o. l)

  -- Applying any bundle leaves the lock alone.
  apply_items-lock :
      (items : List TarItem) (failed : Option LogError) (w : World)
      → (apply_items archive items failed w).1.lock ≡ w.lock
  unfolding apply_items
  apply_items-lock [] failed w = refl
  apply_items-lock (bad_header ∷ items) failed w = refl
  apply_items-lock (bad_content n o ∷ items) failed w = refl
  apply_items-lock (file f ∷ items) failed w =
      file-lock f items failed w (file_options archive f.opts) (apply_items-lock items)

module _ (tlog : Tlog) where
  read_tiles-IsSame :
      (ts : List TlogTile) (w : World) {bs : List Bytes} {w' : World}
      → read_tiles tlog ts w ≡ (ok bs, w')
      → IsSame w w'
  unfolding read_tiles
  read_tiles-IsSame [] w h = rw (← ap (λ x. x.1) h) (IsSame-refl w)
  read_tiles-IsSame (t ∷ ts) w {bs} {w'} h =
      let (key, _, h₁) = lifted-eq-ok (tile_path tlog t) w _ h in
      let (b, v, read, h₂) = continue-eq-ok (fetch key w) _ h₁ in
      let (bs', u, others, h₃) = continue-eq-ok (read_tiles tlog ts v) _ h₂ in
      let same = IsSame-trans (fetch-eq-ok key w read).0 (read_tiles-IsSame ts v others) in
      rw (← ap (λ x. x.1) h₃) same

module _ {Builder : Type 0} (cb : Cryptobyte Builder) (tlog : Tlog) where
  load_data_tile-IsSame :
      (edges : Map ℤ TileWithBytes) (w : World) {out : Map ℤ TileWithBytes} {w' : World}
      → load_data_tile cb tlog edges w ≡ (ok out, w')
      → IsSame w w'
  unfolding load_data_tile
  load_data_tile-IsSame edges w h =
      let t = data_tile_at edges in
      let (key, _, h₁) = lifted-eq-ok (tile_path tlog t) w _ h in
      let (b, v, read, h₂) = continue-eq-ok (wrap data_tile_not_fetched (fetch key w)) _ h₁ in
      let (_, _, h₃) =
        lifted-eq-ok (check_entries cb tlog (level0_of edges) t.w (tile_width * t.n) b) v _ h₂ in
      rw (← ap (λ x. x.1) h₃) (fetch-eq-ok key w (wrap-eq-ok _ _ read)).0

  load_edge-IsSame :
      (tree : Tree) (w : World) {out : Map ℤ TileWithBytes} {w' : World}
      → load_edge cb tlog tree w ≡ (ok out, w')
      → IsSame w w'
  unfolding load_edge
  load_edge-IsSame tree w {out} {w'} h = elim (Bool-cases (tree.n == 0)) [
    | inl empty ↦
        let done : ◌≡◌ {A = Outcome LogError (Map ℤ TileWithBytes) × World} (ok [], w)
            (ok out, w') =
          rw (empty) at h in
        rw (← ap (λ x. x.1) done) (IsSame-refl w)
    | inr more ↦
        let ids = edge_ids cb tlog tree in
        let tiles = tlog.edge_plan tree ids in
        let (bs, v, read, h₁) =
          continue-eq-ok (wrap edge_not_fetched (read_tiles tlog tiles w)) _ (rw (more) at h) in
        let (_, _, h₂) =
          lifted-eq-ok (renamed edge_not_fetched (tlog.edge_check tree ids tiles bs)) v _ h₁ in
        IsSame-trans (read_tiles-IsSame tlog tiles w (wrap-eq-ok _ _ read))
          (load_data_tile-IsSame (save_tiles tiles bs []) v h₂)
  ]

-- What was done about a published tree: nothing, where it is the tree of the lock, or the bundle of
-- the tree of the lock was applied, where it is smaller.
pub data CaughtUp (archive : Archive) (published locked : Tree) (w w' : World) : Type 0 where
  level :
      published.n ≡ locked.n
      → published.hash ≡ locked.hash
      → w'.objects ≡ w.objects
      → CaughtUp archive published locked w w'
  applied :
      published.n < locked.n
      → (staged : Bytes) (v : World) (x : Unit {0})
      → object_content (lookup (staging_path locked) w.objects) ≡ ok staged
      → IsSame w v
      → apply_staged_uploads archive staged v ≡ (ok x, w')
      → CaughtUp archive published locked w w'

pub apply_staged_uploads-lock :
    (archive : Archive) (staged : Bytes) (w : World)
    → (apply_staged_uploads archive staged w).1.lock ≡ w.lock
unfolding apply_staged_uploads
apply_staged_uploads-lock archive staged w =
    apply_items-lock archive (archive.read_tar staged) none w

apply_bundle-CaughtUp :
    (archive : Archive) (published locked : Tree) (w : World) {x : Unit {0}} {w' : World}
    → published.n < locked.n
    → apply_bundle archive locked w ≡ (ok x, w')
    → CaughtUp archive published locked w w' × (w'.lock ≡ w.lock)
unfolding apply_bundle
apply_bundle-CaughtUp archive published locked w {x} {w'} older h =
    let (staged, v, read, h₁) =
      continue-eq-ok (wrap staged_not_fetched (fetch (staging_path locked) w)) _ h in
    let (same, found) = fetch-eq-ok (staging_path locked) w (wrap-eq-ok _ _ read) in
    let done = wrap-eq-ok staged_not_applied (apply_staged_uploads archive staged v) h₁ in
    (
      applied older staged v x found same done,
      sym (ap (λ y. y.1.lock) done) ∙ (apply_staged_uploads-lock archive staged v ∙ same.lock),
    )

same_tree :
    (a b : Tree)
    → (a.n == b.n) && not (bytes_beq a.hash b.hash) ≡ false
    → ltb b.n a.n ≡ false
    → ltb a.n b.n ≡ false
    → (a.n ≡ b.n) × (a.hash ≡ b.hash)
same_tree a b h k l = ground (arith, (bytes_beq_iff a.hash b.hash).0)

catch_up-CaughtUp :
    (archive : Archive) (published locked : Tree) (w : World) {x : Unit {0}} {w' : World}
    → catch_up archive published locked w ≡ (ok x, w')
    → CaughtUp archive published locked w w' × (w'.lock ≡ w.lock)
unfolding catch_up
catch_up-CaughtUp archive a b w {x} {w'} h =
    elim (Bool-cases ((a.n == b.n) && not (bytes_beq a.hash b.hash))) [
      | inl differ ↦ absurd (cc (ap (λ y. y.0) (rw (differ) at h)))
      | inr agree ↦ elim (Bool-cases (ltb b.n a.n)) [
        | inl newer ↦ absurd (cc (ap (λ y. y.0) (rw (agree, newer) at h)))
        | inr not_newer ↦ elim (Bool-cases (ltb a.n b.n)) [
          | inl older ↦
              apply_bundle-CaughtUp archive a b w (ltb→lt a.n b.n older)
                (rw (agree, not_newer, older) at h)
          | inr level_with ↦
              let (n, hash) = same_tree a b agree not_newer level_with in
              let done : w ≡ w' = ap (λ y. y.1) (rw (agree, not_newer, level_with) at h) in
              (level n hash (ap (λ v. v.objects) (sym done)), ap (λ v. v.lock) (sym done))
        ]
      ]
    ]

-- What a log that was loaded has seen.
pub record IsLoaded (archive : Archive) (signer : CheckpointSigner) (w : World) (log : Log)
    (w' : World) : Type 0 where
  pub held : w.lock ≡ some log.lock_checkpoint
  pub kept : w'.lock ≡ w.lock
  pub opened : signer.open_checkpoint w.now log.lock_checkpoint ≡ ok log.tree
  pub sth : Bytes
  pub published : TreeWithTimestamp
  pub found : object_content (lookup checkpoint_key w.objects) ≡ ok sth
  pub published_opened : signer.open_checkpoint w.now sth ≡ ok published
  pub w₀ : World
  pub caught_from : IsSame w w₀
  pub w₁ : World
  pub caught_up : CaughtUp archive published.tree log.tree.tree w₀ w₁
  pub caught_to : IsSame w₁ w'

-- The steps of a load, together.
seen :
    (archive : Archive) (signer : CheckpointSigner) (w v u t w' : World) (log : Log)
    (lock sth : Bytes) (head pub_head : TreeWithTimestamp)
    → IsSame w v
    → w.lock ≡ some lock
    → signer.open_checkpoint v.now lock ≡ ok head
    → IsSame v u
    → object_content (lookup checkpoint_key v.objects) ≡ ok sth
    → signer.open_checkpoint u.now sth ≡ ok pub_head
    → CaughtUp archive pub_head.tree head.tree u t
    → t.lock ≡ u.lock
    → IsSame t w'
    → log.tree ≡ head
    → log.lock_checkpoint ≡ lock
    → IsLoaded archive signer w log w'
seen archive signer w v u t w' log lock sth head pub_head same held opened same_sth found pub_opened
      caught lock_kept rest tree_is lock_is =
    let before = IsSame-trans same same_sth in
    record {
      held = held ∙ ap some (sym lock_is);
      kept = rest.lock ∙ (lock_kept ∙ before.lock);
      opened =
          rw (lock_is, tree_is) (ap (λ n. signer.open_checkpoint n lock) (sym same.now) ∙ opened);
      sth = sth;
      published = pub_head;
      found = ap (λ m. object_content (lookup checkpoint_key m)) (sym same.objects) ∙ found;
      published_opened = ap (λ n. signer.open_checkpoint n sth) (sym before.now) ∙ pub_opened;
      w₀ = u;
      caught_from = before;
      w₁ = t;
      caught_up = rw (tree_is) caught;
      caught_to = rest;
    }

module _ {Builder : Type 0} (cb : Cryptobyte Builder) (tlog : Tlog) (archive : Archive)
    (signer : CheckpointSigner) (pool_size : ℕ) where
  load_rest-eq-ok :
      (head : TreeWithTimestamp) (lock : Bytes) (w : World) {log : Log} {w' : World}
      → load_rest cb tlog archive signer pool_size head lock w ≡ (ok log, w')
      → IsSame w w' × (log.tree ≡ head) × (log.lock_checkpoint ≡ lock)
  unfolding load_rest
  load_rest-eq-ok head lock w h =
      let (_, v, idle, h₁) =
        continue-eq-ok (wrap cache_not_opened (call (λ v. v) cache_failed w)) _ h in
      let (edges, u, edge, h₂) = continue-eq-ok (load_edge cb tlog head.tree v) _ h₁ in
      let same =
        IsSame-trans (idle-eq-ok cache_failed w (wrap-eq-ok _ _ idle))
          (load_edge-IsSame cb tlog head.tree v edge) in
      let log_is : loaded cb tlog archive signer pool_size head lock edges ≡ _ =
        ok-injective _ _ (ap (λ x. x.0) h₂) in
      (rw (← ap (λ x. x.1) h₂) same, rw (← log_is) refl, rw (← log_is) refl)

  -- A log is loaded only with the tree that the lock's checkpoint opens to, as of now; and the
  -- published checkpoint opens to the same tree, or to a smaller one: then the bundle of the lock's
  -- tree, as stored, was applied without error. The lock is left alone.
  pub load_log-IsLoaded :
      (w : World) (log : Log) (w' : World)
      → load_log cb tlog archive signer pool_size w ≡ (ok log, w')
      → IsLoaded archive signer w log w'
  unfolding load_log load_published
  load_log-IsLoaded w log w' h =
      let (lock, v, read_lock, h₁) = continue-eq-ok (wrap lock_not_fetched (lock_fetch w)) _ h in
      let (same, held) = lock_fetch-eq-ok w (wrap-eq-ok _ _ read_lock) in
      let (head, opened, h₂) =
        lifted-eq-ok (renamed checkpoint_not_opened (signer.open_checkpoint v.now lock)) v _ h₁ in
      let (sth, u, read_sth, h₃) =
        continue-eq-ok (wrap published_not_fetched (fetch checkpoint_key v)) _ h₂ in
      let (same_sth, found) = fetch-eq-ok checkpoint_key v (wrap-eq-ok _ _ read_sth) in
      let (pub_head, pub_opened, h₄) =
        lifted-eq-ok (renamed published_not_opened (signer.open_checkpoint u.now sth)) u _ h₃ in
      let (_, t, caught, h₅) = continue-eq-ok (catch_up archive pub_head.tree head.tree u) _ h₄ in
      let (caught_up, lock_kept) = catch_up-CaughtUp archive pub_head.tree head.tree u caught in
      let (same_rest, tree_is, lock_is) = load_rest-eq-ok head lock t h₅ in
      seen archive signer w v u t w' log lock sth head pub_head same held (renamed-eq-ok _ _ opened)
        same_sth found (renamed-eq-ok _ _ pub_opened) caught_up lock_kept same_rest tree_is lock_is

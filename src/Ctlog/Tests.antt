-- ===== src/Ctlog/Tests.antt =====
-- The log (ctlog.go) on concrete input: a batch that fills a data tile.
use sunlight.Prelude.{
  ◌≢◌, ◌≡◌, refl, List, [], ◌∷◌, none, some, true, false, Outcome, ok, err, panic, arith, ◌⊎◌,
  replicate,
}
use sunlight.Prelude.Int.{negsuc}
use sunlight.Prelude.Maps.{lookup, insert, bytes_eq, nat_eq, int_eq}
use sunlight.Cryptobyte.Wire.{Bytes, be, take_exact}
use sunlight.Cryptobyte.Plain.{plain}
use sunlight.Tile.{
  LogEntry, append_tile_leaf, merkle_tree_leaf, add_marshalled, add_extensions, add_signed_entry,
  add_fingerprints, add_submitted,
}
use sunlight.Extensions.{marshal_extensions, add_leaf_index, add_uint40}
use sunlight.Ctlog.Creation.{create_log}
use sunlight.Ctlog.Creation.Existing.{IsRefused, create_log-IsRefused}
use sunlight.Ctlog.Stubs.{
  plain_tlog, plain_archive, plain_signer, plain_sha256, marshal_options, unmarshal_options,
  write_file, write_files, read_part, read_opts, read_file, read_files,
}
use sunlight.Ctlog.World.{
  World, fails_after, fails_before, ask, upload, call, perform, lock_replace,
}
use sunlight.Ctlog.Types.{PendingLogEntry, WaitEntry, waits, Pool, new_pool, Log, UploadAction}
use sunlight.Ctlog.Entries.{
  cache_get, as_log_entry, cache_put, put_rows, commit_rows, insert_rows, select_row, cache_rows,
  cache_get, compute_cache_hash, prefix_of,
}
use sunlight.Ctlog.Paths.{
  tile_path, trim_prefix, cut_prefix, staging_path, size_chunks, hex, checkpoint_key,
}
use sunlight.Ctlog.Batch.{
  Batch, opts_data_tile, make_batch, sequence_leaves, sequence_leaf, start_batch, partial_data_tile,
  stage_partial, stage_data_tile, flush_data_tile, stage_tree_tiles, extend_edge, data_tile_of,
  hash_reader, read_hash, put_hashes,
}
use sunlight.Ctlog.Staging.{
  marshal_staged_uploads, tar_files, apply_staged_uploads, apply_items, file_options,
}
use sunlight.Ctlog.Pool.{
  blocked, State, pool_at, wait, Source, pool, add_under_lock, find_or_add, add_new_leaf, push_leaf,
}
use sunlight.Ctlog.Pool.Adding.{
  IsBounded, IsIndexed, add_under_lock-again, add_under_lock-IsBounded, add_under_lock-IsIndexed,
}
use sunlight.Errors.{LogError}
use sunlight.Ctlog.Entries.Hits.{cache_get-cache_put}
use sunlight.Ctlog.Staging.Bundle.{upload_all, apply-marshal_staged_uploads}
use sunlight.Ctlog.Sequencer.Crashes.{LockedWithBundle, PublishedWithTiles, IsSynced}
use sunlight.Ctlog.Sequencer.Guarantees.{
  sequence_pool-lock, sequence_pool-published, sequence_pool-IsSynced,
}
use sunlight.Ctlog.Sequencer.{
  sequence_pool, sequence_body, finish, close_pool_at, hash_and_publish, stage_and_publish,
  upload_bundle, sign_and_publish, publish, commit_and_apply, commit_batch, apply_batch,
  upload_checkpoint, record_entries, is_fatal,
}
use sunlight.Ctlog.Sequencer.Waiters.{Acknowledged, wait-sequence_pool, wait-ne-blocked}

abbrev final_leaf : PendingLogEntry
final_leaf = record {
  certificate = 1 ∷ 2 ∷ [];
  is_precert = false;
  issuer_key_hash = [];
  issuers = [];
  pre_certificate = [];
}

abbrev precert_leaf : PendingLogEntry
precert_leaf = record {
  certificate = 3 ∷ [];
  is_precert = true;
  issuer_key_hash = replicate 32 7;
  issuers = [];
  pre_certificate = 4 ∷ [];
}

abbrev two_leaves : Pool
two_leaves = record new_pool { pending_leaves = final_leaf ∷ precert_leaf ∷ [] }

-- The last leaf of a data tile is missing.
abbrev log_255 : Log
log_255 = record {
  pool_size = 2;
  tree = record { tree = record { n = 255; hash = [] }; time = 10 };
  lock_checkpoint = 255 ∷ 10 ∷ [];
  edge_tiles =
      (negsuc 0, record { tile = record { h = 8; l = negsuc 0; n = 0; w = 255 }; b = 5 ∷ [] }) ∷ [];
  pools = (1, two_leaves) ∷ [];
  current_pool = 2;
  in_sequencing = [];
  issuers = [];
}

abbrev world_20 : World
world_20 = record { objects = []; lock = some (255 ∷ 10 ∷ []); cache = []; now = 20; faults = [] }

abbrev start : State
start = record { log = log_255; world = world_20 }

abbrev run : Outcome LogError (Unit {0}) × State
run = sequence_pool plain plain_sha256 plain_tlog plain_archive plain_signer 1 start

run-ok : run.0 ≡ ok tt
unfolding sequence_pool sequence_body finish close_pool_at hash_and_publish stage_and_publish
    upload_bundle sign_and_publish publish commit_and_apply commit_batch apply_batch
    upload_checkpoint record_entries is_fatal wait pool_at as_log_entry make_batch sequence_leaves
    sequence_leaf start_batch partial_data_tile stage_partial stage_data_tile flush_data_tile
    stage_tree_tiles extend_edge data_tile_of hash_reader read_hash put_hashes tile_path trim_prefix
    cut_prefix staging_path size_chunks hex marshal_staged_uploads tar_files apply_staged_uploads
    apply_items file_options upload call perform lock_replace cache_put put_rows commit_rows
    insert_rows select_row cache_rows compute_cache_hash prefix_of lookup insert append_tile_leaf
    merkle_tree_leaf add_marshalled add_extensions add_signed_entry add_fingerprints add_submitted
    marshal_extensions add_leaf_index add_uint40 be take_exact marshal_options unmarshal_options
    write_file write_files read_part read_opts read_file read_files
run-ok = refl

abbrev sample_precert_entry : LogEntry
sample_precert_entry = as_log_entry plain_sha256 precert_leaf 256 20

wait-sequence_pool_example :
    Acknowledged plain plain_sha256 plain_tlog plain_archive plain_signer 1 start 1
      (as_log_entry plain_sha256 precert_leaf 256 20)
      (sequence_pool plain plain_sha256 plain_tlog plain_archive plain_signer 1 start).1.world
unfolding sequence_pool sequence_body finish close_pool_at hash_and_publish stage_and_publish
    upload_bundle sign_and_publish publish commit_and_apply commit_batch apply_batch
    upload_checkpoint record_entries is_fatal wait pool_at as_log_entry make_batch sequence_leaves
    sequence_leaf start_batch partial_data_tile stage_partial stage_data_tile flush_data_tile
    stage_tree_tiles extend_edge data_tile_of hash_reader read_hash put_hashes tile_path trim_prefix
    cut_prefix staging_path size_chunks hex marshal_staged_uploads tar_files apply_staged_uploads
    apply_items file_options upload call perform lock_replace cache_put put_rows commit_rows
    insert_rows select_row cache_rows compute_cache_hash prefix_of lookup insert append_tile_leaf
    merkle_tree_leaf add_marshalled add_extensions add_signed_entry add_fingerprints add_submitted
    marshal_extensions add_leaf_index add_uint40 be take_exact marshal_options unmarshal_options
    write_file write_files read_part read_opts read_file read_files
wait-sequence_pool_example =
    wait-sequence_pool plain plain_sha256 plain_tlog plain_archive plain_signer 1 start 1
      precert_leaf _ refl refl refl refl

run-ne-panic : run.0 ≢ panic
run-ne-panic h = absurd (cc (run-ok, h))

wait-ne-blocked_example :
    wait plain plain_sha256 false run.1.log.pools (waits 1 0 final_leaf) ≢ blocked
wait-ne-blocked_example =
    wait-ne-blocked plain plain_sha256 plain_tlog plain_archive plain_signer 1 start 0 final_leaf
      run-ne-panic

sequence_pool-lock_example :
    (run.1.world.lock ≡ start.world.lock)
    ⊎ LockedWithBundle plain plain_sha256 plain_tlog plain_archive plain_signer 1 start
        run.1.world.lock run.1.world.objects
sequence_pool-lock_example =
    sequence_pool-lock plain plain_sha256 plain_tlog plain_archive plain_signer 1 start

sequence_pool-published_example :
    (lookup checkpoint_key run.1.world.objects ≡ lookup checkpoint_key start.world.objects)
    ⊎ PublishedWithTiles plain plain_sha256 plain_tlog plain_archive plain_signer 1 start
        run.1.world
sequence_pool-published_example =
    sequence_pool-published plain plain_sha256 plain_tlog plain_archive plain_signer 1 start

sequence_pool-IsSynced_example :
    IsSynced plain plain_sha256 plain_tlog plain_archive plain_signer 1 start run.1
sequence_pool-IsSynced_example =
    sequence_pool-IsSynced plain plain_sha256 plain_tlog plain_archive plain_signer 1 start
      (refl, refl) run-ok

abbrev value_or : Batch → Outcome LogError Batch → Batch
value_or b (ok b') = b'
value_or b (err e) = b
value_or b panic = b

abbrev leaves_255 : List PendingLogEntry
leaves_255 = final_leaf ∷ precert_leaf ∷ []

abbrev begun : Batch
begun = start_batch 255 log_255.edge_tiles

abbrev with_leaves : Batch
with_leaves =
    value_or begun
      (sequence_leaves plain plain_sha256 plain_tlog log_255.edge_tiles 20 leaves_255 begun)

abbrev with_partial : Batch
with_partial = value_or begun (stage_partial plain_tlog 255 with_leaves)

abbrev whole_batch : Batch
whole_batch =
    value_or begun (make_batch plain plain_sha256 plain_tlog log_255.edge_tiles 255 20 leaves_255)

abbrev one_upload : List UploadAction
one_upload = record { key = 1 ∷ []; content = 2 ∷ []; options = opts_data_tile } ∷ []

-- The upload fails behind its effect.
abbrev flaky : World
flaky = record world_20 { faults = fails_after ∷ [] }

abbrev bundle : Bytes
bundle = 1 ∷ 1 ∷ 1 ∷ 1 ∷ 2 ∷ 1 ∷ 1 ∷ 1 ∷ 2 ∷ []

apply-marshal_staged_uploads_example :
    apply_staged_uploads plain_archive bundle flaky ≡ upload_all one_upload none flaky
unfolding marshal_staged_uploads tar_files marshal_options write_file write_files
apply-marshal_staged_uploads_example =
    apply-marshal_staged_uploads plain_archive one_upload bundle flaky refl

-- The current pool is new.
abbrev added_once : Outcome LogError (WaitEntry × Source) × State
added_once = add_under_lock plain plain_sha256 final_leaf start

add_under_lock-again_example :
    add_under_lock plain plain_sha256 final_leaf added_once.1
    ≡ (ok (waits 2 0 final_leaf, pool), added_once.1)
unfolding add_under_lock find_or_add add_new_leaf push_leaf pool_at lookup insert compute_cache_hash
    add_signed_entry prefix_of cache_get ask call perform select_row
add_under_lock-again_example =
    add_under_lock-again plain plain_sha256 final_leaf start (waits 2 0 final_leaf) refl

add_under_lock-IsBounded_example : IsBounded added_once.1
unfolding pool_at lookup
add_under_lock-IsBounded_example =
    add_under_lock-IsBounded plain plain_sha256 final_leaf start (λ h. omega arith)

add_under_lock-IsIndexed_example : IsIndexed added_once.1
unfolding pool_at lookup
add_under_lock-IsIndexed_example =
    add_under_lock-IsIndexed plain plain_sha256 final_leaf start (λ h f k. absurd (cc k))

-- Both fetches fail, so the log is not seen.
abbrev blind : World
blind = record world_20 { faults = fails_before ∷ fails_before ∷ [] }

create_log-IsRefused_example : IsRefused blind (create_log plain_tlog plain_signer blind)
create_log-IsRefused_example =
    create_log-IsRefused plain_tlog plain_signer blind (255 ∷ 10 ∷ []) refl

-- The cache behind a run that sequenced both leaves
abbrev put : Outcome LogError (Unit {0}) × World
put =
    cache_put plain plain_sha256
      (as_log_entry plain_sha256 final_leaf 255 20
        ∷ as_log_entry plain_sha256 precert_leaf 256 20
        ∷ [])
      (record start.world { faults = [] })

put-ok : put ≡ (ok tt, put.1)
unfolding cache_put put_rows commit_rows insert_rows select_row cache_rows compute_cache_hash
    prefix_of as_log_entry call perform add_signed_entry be
put-ok = refl

cache_get-cache_put_example :
    (cache_get plain plain_sha256 precert_leaf (record put.1 { faults = [] })).0
    ≡ ok (some (as_log_entry plain_sha256 precert_leaf 256 20))
cache_get-cache_put_example =
    cache_get-cache_put plain plain_sha256 (as_log_entry plain_sha256 final_leaf 255 20 ∷ []) []
      precert_leaf 256 20 (record start.world { faults = [] }) put.1 tt put-ok

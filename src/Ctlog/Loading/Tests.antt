-- ===== src/Ctlog/Loading/Tests.antt =====
-- The loading of a log (ctlog.go) on concrete input: the process ended right after the lock was
-- replaced, and the log is loaded again.
use sunlight.Prelude.{◌≡◌, refl, [], ◌∷◌, some, true, false, Outcome, ok, err, panic, replicate}
use sunlight.Prelude.Int.{negsuc}
use sunlight.Prelude.Maps.{lookup, insert, bytes_eq, nat_eq, int_eq}
use sunlight.Cryptobyte.Wire.{be, take_exact, read_be, be_value, read_prefixed}
use sunlight.Cryptobyte.Plain.{plain}
use sunlight.Tile.{
  append_tile_leaf, merkle_tree_leaf, add_marshalled, add_extensions, add_signed_entry,
  add_fingerprints, add_submitted, read_tile_leaf, read_entry, read_x509, read_precert,
  read_leaf_index, read_fingerprints,
}
use sunlight.Extensions.{
  marshal_extensions, add_leaf_index, add_uint40, parse_extensions, parse_extensions_loop,
  read_uint40, join40, parse_leaf_index,
}
use sunlight.Ctlog.Stubs.{
  plain_tlog, plain_archive, plain_signer, plain_sha256, marshal_options, unmarshal_options,
  write_file, write_files, read_part, read_opts, read_file, read_files,
}
use sunlight.Ctlog.World.{
  Object, World, works, dies_after, ask, fetch, lock_fetch, upload, call, perform, lock_replace,
}
use sunlight.Ctlog.Types.{PendingLogEntry, Pool, new_pool, Log}
use sunlight.Ctlog.Entries.{
  as_log_entry, cache_put, put_rows, commit_rows, insert_rows, select_row, cache_rows,
  compute_cache_hash, prefix_of,
}
use sunlight.Ctlog.Paths.{
  tile_path, trim_prefix, cut_prefix, staging_path, size_chunks, hex, checkpoint_key,
}
use sunlight.Ctlog.Batch.{
  opts_data_tile, make_batch, sequence_leaves, sequence_leaf, start_batch, partial_data_tile,
  stage_partial, stage_data_tile, flush_data_tile, stage_tree_tiles, extend_edge, data_tile_of,
  hash_reader, read_hash, put_hashes,
}
use sunlight.Ctlog.Staging.{
  marshal_staged_uploads, tar_files, apply_staged_uploads, apply_items, file_options,
}
use sunlight.Ctlog.Pool.{State, pool_at, wait}
use sunlight.Errors.{LogError}
use sunlight.Ctlog.Sequencer.{
  sequence_pool, sequence_body, finish, close_pool_at, hash_and_publish, stage_and_publish,
  upload_bundle, sign_and_publish, publish, commit_and_apply, commit_batch, apply_batch,
  upload_checkpoint, record_entries, is_fatal,
}
use sunlight.Ctlog.Loading.{
  load_log, load_published, load_rest, catch_up, apply_bundle, load_edge, load_data_tile,
  read_tiles, save_tiles, level0_of, check_entries,
}
use sunlight.Ctlog.Loading.Recovery.{IsLoaded, load_log-IsLoaded}
use sunlight.Ctlog.Loading.DataTile.{HoldsEntries, check_entries-HoldsEntries}
use sunlight.Ctlog.Types.{TileWithBytes}
use sunlight.Cryptobyte.Wire.{Bytes, IsByte}
use sunlight.Cryptobyte.Plain.{All-IsByte}
use sunlight.Prelude.{All}
use sunlight.Prelude.Int.{pos}
use sunlight.Errors.{CodecError}
use sunlight.Ctlog.Loading.Crashes.{restarted}

abbrev final_leaf : PendingLogEntry
final_leaf = record {
  certificate = 1 ∷ 2 ∷ [];
  is_precert = false;
  issuer_key_hash = [];
  issuers = [];
  pre_certificate = [];
}

abbrev precert_leaf : PendingLogEntry
precert_leaf = record {
  certificate = 3 ∷ [];
  is_precert = true;
  issuer_key_hash = replicate 32 7;
  issuers = [];
  pre_certificate = 4 ∷ [];
}

abbrev two_leaves : Pool
two_leaves = record new_pool { pending_leaves = final_leaf ∷ precert_leaf ∷ [] }

-- The last leaf of a data tile is missing.
abbrev log_255 : Log
log_255 = record {
  pool_size = 2;
  tree = record { tree = record { n = 255; hash = [] }; time = 10 };
  lock_checkpoint = 255 ∷ 10 ∷ [];
  edge_tiles =
      (negsuc 0, record { tile = record { h = 8; l = negsuc 0; n = 0; w = 255 }; b = 5 ∷ [] }) ∷ [];
  pools = (1, two_leaves) ∷ [];
  current_pool = 2;
  in_sequencing = [];
  issuers = [];
}

-- The tree before the run is published, and the process ends in the second call, behind its effect.
abbrev published_255 : Object
published_255 = record { content = 255 ∷ 10 ∷ []; options = opts_data_tile }

abbrev crashing : World
crashing = record {
  objects = (checkpoint_key, published_255) ∷ [];
  lock = some (255 ∷ 10 ∷ []);
  cache = [];
  now = 20;
  faults = works ∷ dies_after ∷ [];
}

abbrev start : State
start = record { log = log_255; world = crashing }

abbrev left : World
left = (sequence_pool plain plain_sha256 plain_tlog plain_archive plain_signer 1 start).1.world

abbrev load : Outcome LogError Log × World
load = load_log plain plain_tlog plain_archive plain_signer 2 (restarted 30 [] left)

abbrev bytes_of : Outcome CodecError Bytes → Bytes
bytes_of (ok b) = b
bytes_of _ = []

abbrev log_or : Log → Outcome LogError Log → Log
log_or log (ok l) = l
log_or log (err e) = log
log_or log panic = log

load-ok : load ≡ (ok (log_or log_255 load.0), load.1)
unfolding sequence_pool sequence_body finish close_pool_at hash_and_publish stage_and_publish
    upload_bundle sign_and_publish publish commit_and_apply commit_batch apply_batch
    upload_checkpoint record_entries is_fatal wait pool_at as_log_entry make_batch sequence_leaves
    sequence_leaf start_batch partial_data_tile stage_partial stage_data_tile flush_data_tile
    stage_tree_tiles extend_edge data_tile_of hash_reader read_hash put_hashes tile_path trim_prefix
    cut_prefix staging_path size_chunks hex marshal_staged_uploads tar_files apply_staged_uploads
    apply_items file_options upload call perform lock_replace cache_put put_rows commit_rows
    insert_rows select_row cache_rows compute_cache_hash prefix_of lookup insert append_tile_leaf
    merkle_tree_leaf add_marshalled add_extensions add_signed_entry add_fingerprints add_submitted
    marshal_extensions add_leaf_index add_uint40 be take_exact marshal_options unmarshal_options
    write_file write_files read_part read_opts read_file read_files load_log load_published
    load_rest catch_up apply_bundle load_edge load_data_tile read_tiles save_tiles level0_of
    check_entries read_tile_leaf read_entry read_x509 read_precert read_leaf_index read_fingerprints
    parse_extensions parse_extensions_loop parse_leaf_index read_uint40 join40 read_be be_value
    read_prefixed lock_fetch fetch ask
load-ok = refl

load_log-IsLoaded_example :
    IsLoaded plain_archive plain_signer (restarted 30 [] left) (log_or log_255 load.0) load.1
load_log-IsLoaded_example =
    load_log-IsLoaded plain plain_tlog plain_archive plain_signer 2 (restarted 30 [] left)
      (log_or log_255 load.0) load.1 load-ok

abbrev recovered : Log
recovered = log_or log_255 load.0

-- The data tile that the run left, with the one entry of its tree behind the first 256
abbrev data_tile : Bytes
data_tile = bytes_of (append_tile_leaf plain [] (as_log_entry plain_sha256 precert_leaf 256 20))

abbrev level_0 : TileWithBytes
level_0 = record { tile = record { h = 8; l = pos 0; n = 1; w = 1 }; b = 1 ∷ 1 ∷ [] }

data_tile_checked : check_entries plain plain_tlog level_0 1 256 data_tile ≡ ok tt
unfolding sequence_pool sequence_body finish close_pool_at hash_and_publish stage_and_publish
    upload_bundle sign_and_publish publish commit_and_apply commit_batch apply_batch
    upload_checkpoint record_entries is_fatal wait pool_at as_log_entry make_batch sequence_leaves
    sequence_leaf start_batch partial_data_tile stage_partial stage_data_tile flush_data_tile
    stage_tree_tiles extend_edge data_tile_of hash_reader read_hash put_hashes tile_path trim_prefix
    cut_prefix staging_path size_chunks hex marshal_staged_uploads tar_files apply_staged_uploads
    apply_items file_options upload call perform lock_replace cache_put put_rows commit_rows
    insert_rows select_row cache_rows compute_cache_hash prefix_of lookup insert append_tile_leaf
    merkle_tree_leaf add_marshalled add_extensions add_signed_entry add_fingerprints add_submitted
    marshal_extensions add_leaf_index add_uint40 be take_exact marshal_options unmarshal_options
    write_file write_files read_part read_opts read_file read_files load_log load_published
    load_rest catch_up apply_bundle load_edge load_data_tile read_tiles save_tiles level0_of
    check_entries read_tile_leaf read_entry read_x509 read_precert read_leaf_index read_fingerprints
    parse_extensions parse_extensions_loop parse_leaf_index read_uint40 join40 read_be be_value
    read_prefixed lock_fetch fetch ask
data_tile_checked = refl

data_tile-IsByte : All IsByte data_tile
unfolding sequence_pool sequence_body finish close_pool_at hash_and_publish stage_and_publish
    upload_bundle sign_and_publish publish commit_and_apply commit_batch apply_batch
    upload_checkpoint record_entries is_fatal wait pool_at as_log_entry make_batch sequence_leaves
    sequence_leaf start_batch partial_data_tile stage_partial stage_data_tile flush_data_tile
    stage_tree_tiles extend_edge data_tile_of hash_reader read_hash put_hashes tile_path trim_prefix
    cut_prefix staging_path size_chunks hex marshal_staged_uploads tar_files apply_staged_uploads
    apply_items file_options upload call perform lock_replace cache_put put_rows commit_rows
    insert_rows select_row cache_rows compute_cache_hash prefix_of lookup insert append_tile_leaf
    merkle_tree_leaf add_marshalled add_extensions add_signed_entry add_fingerprints add_submitted
    marshal_extensions add_leaf_index add_uint40 be take_exact marshal_options unmarshal_options
    write_file write_files read_part read_opts read_file read_files load_log load_published
    load_rest catch_up apply_bundle load_edge load_data_tile read_tiles save_tiles level0_of
    check_entries read_tile_leaf read_entry read_x509 read_precert read_leaf_index read_fingerprints
    parse_extensions parse_extensions_loop parse_leaf_index read_uint40 join40 read_be be_value
    read_prefixed lock_fetch fetch ask
data_tile-IsByte = All-IsByte data_tile refl

check_entries-HoldsEntries_example : HoldsEntries plain plain_tlog level_0 1 256 data_tile
check_entries-HoldsEntries_example =
    check_entries-HoldsEntries plain plain_tlog level_0 1 256 data_tile data_tile-IsByte
      data_tile_checked

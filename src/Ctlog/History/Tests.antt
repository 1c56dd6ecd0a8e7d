-- ===== src/Ctlog/History/Tests.antt =====
-- Histories and recovery of a log (ctlog.go) whose checkpoints are made and opened by `signTreeHead` and
-- `openCheckpoint`, on concrete input.
use sunlight.Checkpoint.{
  format_checkpoint, parse_checkpoint, count_newlines, ends, cut_line, split, extension_loop,
}
use sunlight.Checkpoint.Signature.{signature_timestamp}
use sunlight.Checkpoint.Verifier.{is_valid_name, contains_plus, key_hash, new_rfc6962_verifier}
use sunlight.Cryptobyte.Plain.{plain}
use sunlight.Cryptobyte.Wire.{be, take_exact, read_be, be_value, read_prefixed, Bytes}
use sunlight.Ctlog.Batch.{
  opts_data_tile, make_batch, sequence_leaves, sequence_leaf, start_batch, partial_data_tile,
  stage_partial, stage_data_tile, flush_data_tile, stage_tree_tiles, extend_edge, data_tile_of,
  hash_reader, read_hash, put_hashes,
}
use sunlight.Ctlog.Checkpoints.{
  find_signatures, grease_signatures, new_ed25519_signer, sign_tree_head, check_note,
  open_checkpoint,
}
use sunlight.Ctlog.Checkpoints.Heads.{sign_head, open_head}
use sunlight.Ctlog.Checkpoints.Plain.{has_newline, sign_plain_note, open_plain_note}
use sunlight.Ctlog.Checkpoints.PlainHeads.{bytes_of, plain_code_signer}
use sunlight.Ctlog.Creation.{
  nil_reader, lock_and_publish, sign_and_lock, create_empty, open_cache_and_create,
  create_unpublished, create_log,
}
use sunlight.Ctlog.Entries.{
  as_log_entry, cache_put, put_rows, commit_rows, insert_rows, select_row, cache_rows,
  compute_cache_hash, prefix_of,
}
use sunlight.Ctlog.History.{System, ticked, started, later, Reach, ticks, loads, here, next}
use sunlight.Ctlog.History.Created.{create_log-Reach}
use sunlight.Ctlog.History.Growth.{IsSound, Extends, Reach-IsSound}
use sunlight.Ctlog.Loading.{
  load_log, load_published, load_rest, catch_up, apply_bundle, load_edge, load_data_tile,
  read_tiles, save_tiles, level0_of, check_entries,
}
use sunlight.Ctlog.Loading.Crashes.{restarted, IsRecovered, load_log-sequence_pool}
use sunlight.Ctlog.Paths.{
  tile_path, trim_prefix, cut_prefix, staging_path, size_chunks, hex, checkpoint_key,
}
use sunlight.Ctlog.Pool.{State, pool_at, wait}
use sunlight.Ctlog.Sequencer.{
  sequence_pool, sequence_body, finish, close_pool_at, hash_and_publish, stage_and_publish,
  upload_bundle, sign_and_publish, publish, commit_and_apply, commit_batch, apply_batch,
  upload_checkpoint, record_entries, is_fatal, tree_head, sequence,
}
use sunlight.Ctlog.Signing.{digitally_sign, note_signature}
use sunlight.Ctlog.Signing.Plain.{sign_digest, plain_verification}
use sunlight.Ctlog.Staging.{
  marshal_staged_uploads, tar_files, apply_staged_uploads, apply_items, file_options,
}
use sunlight.Ctlog.Stubs.{
  plain_tlog, plain_archive, plain_sha256, marshal_options, unmarshal_options, write_file,
  write_files, read_part, read_opts, read_file, read_files,
}
use sunlight.Ctlog.Types.{PendingLogEntry, new_pool, Log, TreeWithTimestamp, Tlog}
use sunlight.Ctlog.World.{
  World, works, dies_after, ask, fetch, lock_fetch, upload, call, perform, lock_replace,
  lock_create,
}
use sunlight.Errors.{LogError}
use sunlight.Extensions.{
  marshal_extensions, add_leaf_index, add_uint40, parse_extensions, parse_extensions_loop,
  read_uint40, join40, parse_leaf_index,
}
use sunlight.Prelude.{
  ◌≡◌, refl, [], ◌∷◌, some, false, Outcome, ok, err, panic, arith, replicate, ℕ, none, inl, ◌++◌,
}
use sunlight.Prelude.Int.{negsuc}
use sunlight.Prelude.Maps.{lookup, insert, bytes_eq, nat_eq, int_eq}
use sunlight.Rfc6979.Hash.{hash_to_nat, take}
use sunlight.Rfc6979.Nonce.{draw, fill, sample, new_drbg, random_point}
use sunlight.Rfc6979.Plain.{bits}
use sunlight.Rfc6979.Shift.{right_shift, shift_after}
use sunlight.Rfc6979.Signing.{
  encode_signature, finish_signature, add_asn1_int_bytes, sign_nistec, sign,
}
use sunlight.Tile.{
  append_tile_leaf, merkle_tree_leaf, add_marshalled, add_extensions, add_signed_entry,
  add_fingerprints, add_submitted, read_tile_leaf, read_entry, read_x509, read_precert,
  read_leaf_index, read_fingerprints,
}

-- Root hashes of 32 bytes
abbrev tlog_32 : Tlog
tlog_32 = record plain_tlog { tree_hash = λ n reader. ok (replicate 30 0 ++ be 2 n) }

abbrev leaf : PendingLogEntry
leaf = record {
  certificate = 1 ∷ 2 ∷ [];
  is_precert = false;
  issuer_key_hash = [];
  issuers = [];
  pre_certificate = [];
}

abbrev tree_255 : TreeWithTimestamp
tree_255 = record { tree = record { n = 255; hash = replicate 31 0 ++ (255 ∷ []) }; time = 10 }

abbrev signed_255 : Bytes
signed_255 = bytes_of (plain_code_signer.sign_tree_head tree_255)

signed_255-ok : plain_code_signer.sign_tree_head tree_255 ≡ ok signed_255
unfolding sign_head open_head sign_tree_head note_signature digitally_sign sign_digest
    plain_verification sign sign_nistec finish_signature random_point sample draw fill take bits
    be_value hash_to_nat right_shift shift_after new_drbg encode_signature add_asn1_int_bytes be
    new_rfc6962_verifier is_valid_name contains_plus key_hash new_ed25519_signer grease_signatures
    has_newline format_checkpoint sign_plain_note
signed_255-ok = refl

abbrev log_255 : Log
log_255 = record {
  pool_size = 2;
  tree = tree_255;
  lock_checkpoint = signed_255;
  edge_tiles =
      (negsuc 0, record { tile = record { h = 8; l = negsuc 0; n = 0; w = 255 }; b = 5 ∷ [] }) ∷ [];
  pools =
      (0, record new_pool { pending_leaves = leaf ∷ record leaf { certificate = 3 ∷ [] } ∷ [] })
      ∷ [];
  current_pool = 0;
  in_sequencing = [];
  issuers = [];
}

-- The bundle is stored, and the process ends behind the replacement of the lock.
abbrev crashing : World
crashing = record {
  objects = (checkpoint_key, record { content = signed_255; options = opts_data_tile }) ∷ [];
  lock = some signed_255;
  cache = [];
  now = 20;
  faults = works ∷ dies_after ∷ [];
}

abbrev start : State
start = record { log = log_255; world = crashing }

abbrev before : System
before = record { world = crashing; logs = log_255 ∷ [] }

abbrev crashed : System
crashed =
    later 30 []
      (ticked [] [] (sequence plain plain_sha256 tlog_32 plain_archive plain_code_signer start))

abbrev reloaded : System
reloaded =
    later 40 [] (
      started crashed.logs (load_log plain tlog_32 plain_archive plain_code_signer 2 crashed.world))

abbrev history : Reach plain plain_sha256 tlog_32 plain_archive plain_code_signer before reloaded
history =
    next (next here (ticks 30 [] [] [] log_255 (omega arith) refl refl))
      (loads 40 [] 2 (omega arith) refl)

Reach-IsSound_example :
    (u : TreeWithTimestamp) × IsSound plain plain_sha256 tlog_32 plain_archive plain_code_signer
      reloaded u
    × Extends tree_255 u
Reach-IsSound_example =
    Reach-IsSound plain plain_sha256 tlog_32 plain_archive plain_code_signer before reloaded
      tree_255 ((signed_255, refl, signed_255-ok, omega arith), ((signed_255-ok, inl refl), tt))
      history

abbrev left : World
left = (sequence_pool plain plain_sha256 tlog_32 plain_archive plain_code_signer 0 start).1.world

abbrev load : Outcome LogError Log × World
load = load_log plain tlog_32 plain_archive plain_code_signer 2 (restarted 30 [] left)

abbrev log_or : Log → Outcome LogError Log → Log
log_or log (ok l) = l
log_or log (err e) = log
log_or log panic = log

abbrev recovered : Log
recovered = log_or log_255 load.0

load-ok : load ≡ (ok recovered, load.1)
unfolding sequence_pool sequence_body finish close_pool_at hash_and_publish stage_and_publish
    upload_bundle sign_and_publish publish commit_and_apply commit_batch apply_batch
    upload_checkpoint record_entries is_fatal wait pool_at as_log_entry make_batch sequence_leaves
    sequence_leaf start_batch partial_data_tile stage_partial stage_data_tile flush_data_tile
    stage_tree_tiles extend_edge data_tile_of hash_reader read_hash put_hashes tile_path trim_prefix
    cut_prefix staging_path size_chunks hex marshal_staged_uploads tar_files apply_staged_uploads
    apply_items file_options upload call perform lock_replace cache_put put_rows commit_rows
    insert_rows select_row cache_rows compute_cache_hash prefix_of lookup insert append_tile_leaf
    merkle_tree_leaf add_marshalled add_extensions add_signed_entry add_fingerprints add_submitted
    marshal_extensions add_leaf_index add_uint40 be take_exact marshal_options unmarshal_options
    write_file write_files read_part read_opts read_file read_files load_log load_published
    load_rest catch_up apply_bundle load_edge load_data_tile read_tiles save_tiles level0_of
    check_entries read_tile_leaf read_entry read_x509 read_precert read_leaf_index read_fingerprints
    parse_extensions parse_extensions_loop parse_leaf_index read_uint40 join40 read_be be_value
    read_prefixed lock_fetch fetch ask sign_head open_head sign_tree_head note_signature
    digitally_sign sign_digest plain_verification sign sign_nistec finish_signature random_point
    sample draw fill take bits hash_to_nat right_shift shift_after new_drbg encode_signature
    add_asn1_int_bytes new_rfc6962_verifier is_valid_name contains_plus key_hash new_ed25519_signer
    grease_signatures has_newline format_checkpoint sign_plain_note open_checkpoint check_note
    find_signatures signature_timestamp open_plain_note parse_checkpoint count_newlines ends
    cut_line split extension_loop
load-ok = refl

load_log-sequence_pool_example :
    (plain_code_signer.sign_tree_head recovered.tree ≡ ok recovered.lock_checkpoint)
    × (load.1.lock ≡ some recovered.lock_checkpoint)
    × IsRecovered plain plain_sha256 tlog_32 plain_archive plain_code_signer 0 start 30 2 []
        recovered.tree load.1.objects
load_log-sequence_pool_example =
    load_log-sequence_pool plain plain_sha256 tlog_32 plain_archive plain_code_signer 0 start 30 2
      [] recovered load.1 (signed_255-ok, refl) (omega arith) (omega arith) load-ok

-- A log is created where there is nothing, and a process loads it.
abbrev nothing : World
nothing = record { objects = []; lock = none; cache = []; now = 5; faults = [] }

abbrev created : Outcome LogError (Unit {0}) × World
created = create_log tlog_32 plain_code_signer nothing

created-ok : created ≡ (ok tt, created.1)
unfolding create_log create_unpublished open_cache_and_create create_empty sign_and_lock
    lock_and_publish lock_create lock_fetch fetch upload ask call perform lookup sign_head open_head
    sign_tree_head note_signature digitally_sign sign_digest plain_verification sign sign_nistec
    finish_signature random_point sample draw fill take bits be_value hash_to_nat right_shift
    shift_after new_drbg encode_signature add_asn1_int_bytes be new_rfc6962_verifier is_valid_name
    contains_plus key_hash new_ed25519_signer grease_signatures has_newline format_checkpoint
    sign_plain_note
created-ok = refl

created_now : created.1.now ≡ 5
unfolding create_log create_unpublished open_cache_and_create create_empty sign_and_lock
    lock_and_publish lock_create lock_fetch fetch upload ask call perform lookup sign_head open_head
    sign_tree_head note_signature digitally_sign sign_digest plain_verification sign sign_nistec
    finish_signature random_point sample draw fill take bits be_value hash_to_nat right_shift
    shift_after new_drbg encode_signature add_asn1_int_bytes be new_rfc6962_verifier is_valid_name
    contains_plus key_hash new_ed25519_signer grease_signatures has_newline format_checkpoint
    sign_plain_note
created_now = refl

abbrev loaded : System
loaded =
    later 30 [] (started [] (load_log plain tlog_32 plain_archive plain_code_signer 2 created.1))

create_log-Reach_example :
    (hash : Bytes) × (time : ℕ) × (tlog_32.tree_hash 0 nil_reader ≡ ok hash)
    × (u : TreeWithTimestamp) × IsSound plain plain_sha256 tlog_32 plain_archive plain_code_signer
        loaded u
    × Extends (tree_head 0 hash time) u
create_log-Reach_example =
    create_log-Reach plain plain_sha256 tlog_32 plain_archive plain_code_signer nothing created.1 tt
      loaded created-ok (next here (loads 30 [] 2 (rw (created_now) (omega arith)) refl))

-- ===== src/Ctlog/Http/Tests.antt =====
-- Requests to add a chain (http.go) on concrete input.
use sunlight.Prelude.{
  ◌≡◌, refl, List, [], ◌∷◌, ◌++◌, some, true, false, Outcome, ok, replicate, map,
}
use sunlight.Prelude.Int.{negsuc}
use sunlight.Prelude.Maps.{lookup, insert, bytes_beq, bytes_eq, nat_eq, int_eq}
use sunlight.Cryptobyte.Wire.{Bytes, be, take_exact}
use sunlight.Cryptobyte.Plain.{plain}
use sunlight.Tile.{
  LogEntry, append_tile_leaf, merkle_tree_leaf, add_marshalled, add_extensions, add_signed_entry,
  add_fingerprints, add_submitted,
}
use sunlight.Extensions.{marshal_extensions, add_leaf_index, add_uint40}
use sunlight.Ctlog.Stubs.{
  plain_tlog, plain_archive, plain_signer, plain_sha256, marshal_options, unmarshal_options,
  write_file, write_files, read_part, read_opts, read_file, read_files,
}
use sunlight.Ctlog.World.{World, upload, call, perform, lock_replace}
use sunlight.Ctlog.Types.{PendingLogEntry, waits, Pool, new_pool, Log}
use sunlight.Ctlog.Entries.{
  as_log_entry, cache_put, put_rows, commit_rows, insert_rows, select_row, cache_rows,
  compute_cache_hash, prefix_of,
}
use sunlight.Ctlog.Paths.{tile_path, trim_prefix, cut_prefix, staging_path, size_chunks, hex}
use sunlight.Ctlog.Batch.{
  make_batch, sequence_leaves, sequence_leaf, start_batch, partial_data_tile, stage_partial,
  stage_data_tile, flush_data_tile, stage_tree_tiles, extend_edge, data_tile_of, hash_reader,
  read_hash, put_hashes,
}
use sunlight.Ctlog.Staging.{
  marshal_staged_uploads, tar_files, apply_staged_uploads, apply_items, file_options,
}
use sunlight.Ctlog.Pool.{State, pool_at, wait}
use sunlight.Errors.{LogError}
use sunlight.Ctlog.Sequencer.{
  sequence_pool, sequence_body, finish, close_pool_at, hash_and_publish, stage_and_publish,
  upload_bundle, sign_and_publish, publish, commit_and_apply, commit_batch, apply_batch,
  upload_checkpoint, record_entries, is_fatal,
}
use sunlight.Ctlog.Sequencer.Waiters.{Acknowledged}
use sunlight.Cryptobyte.Wire.{be_value}
use sunlight.Checkpoint.Plain.{plain_texts}
use sunlight.Ctlog.Signing.{digitally_sign}
use sunlight.Ctlog.Signing.Plain.{sign_digest, plain_verification}
use sunlight.Rfc6979.Shift.{right_shift, shift_after}
use sunlight.Rfc6979.Hash.{hash_to_nat, take}
use sunlight.Rfc6979.Nonce.{draw, fill, sample, new_drbg, random_point}
use sunlight.Rfc6979.Signing.{
  encode_signature, finish_signature, add_asn1_int_bytes, sign_nistec, sign,
}
use sunlight.Rfc6979.Plain.{bits}
use sunlight.Prelude.{ℕ, Option, Bool}
use sunlight.Ctlog.Http.{
  entry_of_chain, Certificate, Ctfe, AddChainResponse, requested_entry, precert_entry, respond,
  reply,
}
use sunlight.Ctlog.Http.Chains.{Stands, requested_entry-Stands}
use sunlight.Ctlog.Http.Responses.{IsSct, reply-sequence_pool}

abbrev final_leaf : PendingLogEntry
final_leaf = record {
  certificate = 1 ∷ 2 ∷ [];
  is_precert = false;
  issuer_key_hash = [];
  issuers = [];
  pre_certificate = [];
}

abbrev precert_leaf : PendingLogEntry
precert_leaf = record {
  certificate = 3 ∷ [];
  is_precert = true;
  issuer_key_hash = replicate 32 7;
  issuers = [];
  pre_certificate = 4 ∷ [];
}

abbrev two_leaves : Pool
two_leaves = record new_pool { pending_leaves = final_leaf ∷ precert_leaf ∷ [] }

-- The last leaf of a data tile is missing.
abbrev log_255 : Log
log_255 = record {
  pool_size = 2;
  tree = record { tree = record { n = 255; hash = [] }; time = 10 };
  lock_checkpoint = 255 ∷ 10 ∷ [];
  edge_tiles =
      (negsuc 0, record { tile = record { h = 8; l = negsuc 0; n = 0; w = 255 }; b = 5 ∷ [] }) ∷ [];
  pools = (1, two_leaves) ∷ [];
  current_pool = 2;
  in_sequencing = [];
  issuers = [];
}

abbrev world_20 : World
world_20 = record { objects = []; lock = some (255 ∷ 10 ∷ []); cache = []; now = 20; faults = [] }

abbrev start : State
start = record { log = log_255; world = world_20 }

abbrev certificate : Bytes → Certificate
certificate b = record { raw = b; raw_tbs_certificate = b; raw_subject_public_key_info = b }

abbrev first_byte : Bytes → Bytes
first_byte [] = []
first_byte (x ∷ s) = x ∷ []

-- A certificate that starts with 1 is a precertificate, one that starts with 2 signs them.
abbrev starts_with_one : Certificate → Bool
starts_with_one c = bytes_beq (first_byte c.raw) (1 ∷ [])

abbrev plain_ctfe : Ctfe
plain_ctfe = record {
  parse_chain = λ body. some (body ∷ (2 ∷ []) ∷ (3 ∷ []) ∷ []);
  validate_chain = λ chain. some (map certificate chain);
  is_precertificate = λ c. some (starts_with_one c);
  is_pre_issuer = λ c. bytes_beq c.raw (2 ∷ []);
  build_precert_tbs = λ tbs issuer. some (9 ∷ tbs);
}

abbrev submitted : PendingLogEntry
submitted =
    precert_entry plain_ctfe plain_sha256 (certificate (1 ∷ 5 ∷ []))
      (certificate (2 ∷ []) ∷ certificate (3 ∷ []) ∷ []) (9 ∷ 1 ∷ 5 ∷ []) (certificate (3 ∷ []))

requested : requested_entry plain_ctfe plain_sha256 true (1 ∷ 5 ∷ []) ≡ ok submitted
unfolding requested_entry entry_of_chain
requested = refl

requested_entry-Stands_example :
    (chain : List Bytes) × (leaf : Certificate) × (issuers : List Certificate)
    × (plain_ctfe.parse_chain (1 ∷ 5 ∷ []) ≡ some chain)
    × (plain_ctfe.validate_chain chain ≡ some (leaf ∷ issuers))
    × (submitted.is_precert ≡ true)
    × Stands plain_ctfe plain_sha256 leaf issuers submitted
requested_entry-Stands_example =
    requested_entry-Stands plain_ctfe plain_sha256 true (1 ∷ 5 ∷ []) submitted requested

abbrev json : AddChainResponse → Outcome LogError Bytes
json r = ok (r.timestamp ∷ (r.id ++ (r.extensions ++ r.signature)))

abbrev replied : Option (Outcome ℕ Bytes)
replied = reply plain plain_texts plain_verification sign_digest json (77 ∷ []) (
    wait plain plain_sha256 false
      (sequence_pool plain plain_sha256 plain_tlog plain_archive plain_signer 1 start).1.log.pools
      (waits 1 1 precert_leaf))

abbrev response_of : Option (Outcome ℕ Bytes) → Bytes
response_of (some (ok b)) = b
response_of _ = []

replied-ok : replied ≡ some (ok (response_of replied))
unfolding sequence_pool sequence_body finish close_pool_at hash_and_publish stage_and_publish
    upload_bundle sign_and_publish publish commit_and_apply commit_batch apply_batch
    upload_checkpoint record_entries is_fatal wait pool_at as_log_entry make_batch sequence_leaves
    sequence_leaf start_batch partial_data_tile stage_partial stage_data_tile flush_data_tile
    stage_tree_tiles extend_edge data_tile_of hash_reader read_hash put_hashes tile_path trim_prefix
    cut_prefix staging_path size_chunks hex marshal_staged_uploads tar_files apply_staged_uploads
    apply_items file_options upload call perform lock_replace cache_put put_rows commit_rows
    insert_rows select_row cache_rows compute_cache_hash prefix_of lookup insert append_tile_leaf
    merkle_tree_leaf add_marshalled add_extensions add_signed_entry add_fingerprints add_submitted
    marshal_extensions add_leaf_index add_uint40 be take_exact marshal_options unmarshal_options
    write_file write_files read_part read_opts read_file read_files sign sign_nistec
    finish_signature random_point sample draw fill take bits be_value hash_to_nat right_shift
    shift_after new_drbg encode_signature add_asn1_int_bytes digitally_sign respond reply
    sign_digest plain_verification
replied-ok = refl

reply-sequence_pool_example :
    (e : LogEntry) × Acknowledged plain plain_sha256 plain_tlog plain_archive plain_signer 1 start 1
      e
      (sequence_pool plain plain_sha256 plain_tlog plain_archive plain_signer 1 start).1.world
    × IsSct plain plain_texts plain_verification sign_digest json (77 ∷ []) e (response_of replied)
unfolding pool_at lookup
reply-sequence_pool_example =
    reply-sequence_pool plain plain_texts plain_verification sign_digest json (77 ∷ []) plain_sha256
      plain_tlog plain_archive plain_signer 1 start 1 precert_leaf (response_of replied) refl refl
      refl replied-ok

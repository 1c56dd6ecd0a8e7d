-- ===== src/Errors.antt =====
-- The errors that the modelled functions return, one constructor for each message of the source.

-- tile.go, extensions.go, and the builder of cryptobyte
pub data CodecError : Type 0 where
  leaf_index_out_of_range length_overflow : CodecError
  invalid_extension invalid_leaf_index_extension missing_leaf_index_extension : CodecError
  invalid_data_tile invalid_x509_entry invalid_precert_entry : CodecError
  invalid_extensions invalid_fingerprints : CodecError
  unknown_type invalid_integer : CodecError

-- ctlog.go, cache.go and checkpoint.go; a constructor may stand for several wrappings of one message
pub data LogError : Type 0 where
  -- what an interface of the log, or a package below it, reports
  codec : CodecError → LogError
  backend_failed not_found lock_failed archive_failed tlog_failed sign_failed cache_failed :
      LogError
  -- errFatal and what it is wrapped in
  time_did_not_progress checkpoint_not_replaced tile_not_uploaded : LogError
  -- addLeafToPool
  issuer_not_uploaded invalid_existing_issuer pool_full cache_get_failed : LogError
  -- sequencePool, for errors that are not fatal
  hashes_not_computed tile_not_generated tree_head_not_computed : LogError
  staging_not_marshalled staging_not_uploaded checkpoint_not_signed : LogError
  checkpoint_not_uploaded : LogError
  -- RunSequencer, and a waiting request whose context is done
  stopped canceled : LogError
  -- CreateLog
  log_exists checkpoint_present : LogError
  -- LoadLog
  lock_not_fetched checkpoint_not_opened published_not_fetched published_not_opened : LogError
  hash_mismatch published_is_newer staged_not_fetched staged_not_applied : LogError
  cache_not_opened edge_not_fetched data_tile_not_fetched invalid_edge_data_tile : LogError
  leaf_hash_not_extracted leaf_hash_mismatch : LogError
  -- signTreeHead and openCheckpoint
  verifier_not_constructed verifier_key_not_constructed : LogError
  ed25519_verifier_not_constructed ed25519_signer_not_constructed note_not_signed : LogError
  checkpoint_not_verified timestamp_not_extracted missing_verifier_signature : LogError
  checkpoint_not_parsed checkpoint_in_future wrong_origin unexpected_extension : LogError
  -- s3.go
  not_compressed object_not_uploaded object_not_fetched not_decompressed body_not_read : LogError
  -- checkpoint.go, with what crypto/x509 reports
  malformed_checkpoint malformed_tree_head_signature : LogError
  invalid_name key_not_marshalled : LogError

-- rfc6979/ecdsa.go, with what bigmod and nistec report
pub data EcdsaError : Type 0 where
  input_overflows_modulus point_failed : EcdsaError
  r_is_zero s_is_zero unsupported_curve : EcdsaError
  not_encoded : CodecError → EcdsaError
  -- The rejection loop did not end within its fuel.
  still_rejecting : EcdsaError

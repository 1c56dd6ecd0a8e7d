-- ===== src/Ctlog/Http.antt =====
-- The requests add-chain and add-pre-chain (http.go), before and behind the wait for a leaf.
pub mod Chains
pub mod Responses
mod Tests
use sunlight.Prelude.{
  ℕ, List, [], ◌∷◌, Bool, true, false, not, Option, none, some, map, replicate, Outcome, ok, err,
  panic, ◌>>=◌, if◌then◌else◌, or_err,
}
use sunlight.Prelude.Int.{ℤ, to_uint64}
use sunlight.Errors.{LogError, EcdsaError, pool_full}
use sunlight.Cryptobyte.{Cryptobyte}
use sunlight.Cryptobyte.Wire.{Bytes}
use sunlight.Extensions.{marshal_extensions}
use sunlight.Tile.{LogEntry, merkle_tree_leaf}
use sunlight.Checkpoint.{Texts}
use sunlight.Checkpoint.Signature.{Verification}
use sunlight.Ctlog.Action.{of_codec}
use sunlight.Ctlog.Types.{PendingLogEntry}
use sunlight.Ctlog.Pool.{Waited, blocked, got}
use sunlight.Ctlog.Signing.{digitally_sign}

-- `x509.Certificate`
pub record Certificate : Type 0 where
  pub raw : Bytes
  pub raw_tbs_certificate : Bytes
  pub raw_subject_public_key_info : Bytes

-- What http.go uses of encoding/json for requests, and of certificate-transparency-go: the chain of a
-- request, its validation against the roots and the dates of the log, and precertificates
pub record Ctfe : Type 0 where
  pub parse_chain : Bytes → Option (List Bytes)
  pub validate_chain : List Bytes → Option (List Certificate)
  pub is_precertificate : Certificate → Option Bool
  pub is_pre_issuer : Certificate → Bool
  pub build_precert_tbs : Bytes → Option Certificate → Option Bytes

-- `ct.AddChainResponse`, of version 1
pub record AddChainResponse : Type 0 where
  pub timestamp : ℕ
  pub id : Bytes
  pub extensions : Bytes
  pub signature : Bytes

-- `http.StatusBadRequest` and its kin; a failed request is its status.
abbrev pub bad_request : ℕ
bad_request = 400

abbrev pub internal_server_error : ℕ
internal_server_error = 500

abbrev pub service_unavailable : ℕ
service_unavailable = 503

module _ (ch : Ctfe) (sha256 : Bytes → Bytes) where
  abbrev pub raws : List Certificate → List Bytes
  raws cs = map (λ c. c.raw) cs

  abbrev pub final_entry : Certificate → List Certificate → PendingLogEntry
  final_entry leaf issuers = record {
    certificate = leaf.raw;
    is_precert = false;
    issuer_key_hash = replicate 32 0;
    issuers = raws issuers;
    pre_certificate = [];
  }

  abbrev pub precert_entry : Certificate → List Certificate → Bytes → Certificate → PendingLogEntry
  precert_entry leaf issuers tbs issuer = record {
    certificate = tbs;
    is_precert = true;
    issuer_key_hash = sha256 issuer.raw_subject_public_key_info;
    issuers = raws issuers;
    pre_certificate = leaf.raw;
  }

  abbrev pub defanged :
      Certificate → List Certificate → Option Certificate → Certificate → Outcome ℕ PendingLogEntry
  defanged leaf issuers pre_issuer issuer =
      or_err (ch.build_precert_tbs leaf.raw_tbs_certificate pre_issuer) internal_server_error
      >>= λ tbs. ok (precert_entry leaf issuers tbs issuer)

  -- A precertificate whose issuer is a precertificate signing certificate
  abbrev pub behind_pre_issuer :
      Certificate → Certificate → List Certificate → Outcome ℕ PendingLogEntry
  behind_pre_issuer leaf pre_issuer [] = err bad_request
  behind_pre_issuer leaf pre_issuer (issuer ∷ rest) =
      defanged leaf (pre_issuer ∷ issuer ∷ rest) (some pre_issuer) issuer

  abbrev pub entry_of_precert : Certificate → List Certificate → Outcome ℕ PendingLogEntry
  entry_of_precert leaf [] = err bad_request
  entry_of_precert leaf (issuer ∷ rest) =
      if ch.is_pre_issuer issuer
      then behind_pre_issuer leaf issuer rest
      else defanged leaf (issuer ∷ rest) none issuer

  -- The entry of a validated chain, which is never empty
  unfoldable pub entry_of_chain : List Certificate → Outcome ℕ PendingLogEntry
  entry_of_chain [] = panic
  entry_of_chain (leaf ∷ issuers) = or_err (ch.is_precertificate leaf) bad_request >>= λ is_precert.
      if is_precert then entry_of_precert leaf issuers else ok (final_entry leaf issuers)

  abbrev pub not_empty : List Bytes → Outcome ℕ (List Bytes)
  not_empty [] = err bad_request
  not_empty (c ∷ cs) = ok (c ∷ cs)

  abbrev pub check_type : Bool → PendingLogEntry → Outcome ℕ PendingLogEntry
  check_type true e = if not e.is_precert then err bad_request else ok e
  check_type false e = if e.is_precert then err bad_request else ok e

  -- `addChainOrPreChain` up to `addLeafToPool`, for a body that was read; `wants_precert` is whether it
  -- was called by `addPreChain`.
  unfoldable pub requested_entry : Bool → Bytes → Outcome ℕ PendingLogEntry
  unfolding entry_of_chain
  requested_entry wants_precert body = or_err (ch.parse_chain body) bad_request >>= λ chain.
      not_empty chain >>= λ chain. or_err (ch.validate_chain chain) bad_request >>= λ chain.
      entry_of_chain chain >>= λ e. check_type wants_precert e

-- An error reported with a status
abbrev pub with_status : {A : Type 0} → ℕ → Outcome LogError A → Outcome ℕ A
with_status code (ok a) = ok a
with_status code (err e) = err code
with_status code panic = panic

abbrev pub wait_status : LogError → ℕ
wait_status pool_full = service_unavailable
wait_status _ = internal_server_error

module _ {Builder : Type 0} (cb : Cryptobyte Builder) (tx : Texts) (vf : Verification)
    (sign_digest : Bytes → Outcome EcdsaError Bytes)
    (json_marshal : AddChainResponse → Outcome LogError Bytes) (log_id : Bytes) where
  -- `addChainOrPreChain` behind the wait, for what the wait came to
  unfoldable pub respond : Outcome LogError LogEntry → Outcome ℕ Bytes
  unfolding marshal_extensions merkle_tree_leaf digitally_sign
  respond (err e) = err (wait_status e)
  respond panic = panic
  respond (ok seq) =
      with_status internal_server_error
        (of_codec (marshal_extensions cb (record { leaf_index = seq.leaf_index })))
      >>= λ ext. with_status internal_server_error (of_codec (merkle_tree_leaf cb seq)) >>= λ leaf.
          with_status internal_server_error (digitally_sign cb vf sign_digest leaf) >>= λ signature.
          with_status internal_server_error (
            json_marshal (record {
              timestamp = to_uint64 seq.timestamp;
              id = log_id;
              extensions = tx.encode ext;
              signature = signature;
            }))

  -- No response is made while the wait goes on.
  unfoldable pub reply : Waited → Option (Outcome ℕ Bytes)
  unfolding respond
  reply blocked = none
  reply (got r) = some (respond r)

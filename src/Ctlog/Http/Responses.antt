-- ===== src/Ctlog/Http/Responses.antt =====
-- What a response to a request to add a chain (http.go) promises.
use sunlight.Prelude.{
  ℕ, ◌≡◌, refl, ap, false, none, some, Outcome, ok, err, panic, >>=-eq-ok, ok-injective, get_elem?,
}
use sunlight.Prelude.Int.{to_uint64}
use sunlight.Errors.{LogError, EcdsaError}
use sunlight.Cryptobyte.{Cryptobyte}
use sunlight.Cryptobyte.Wire.{Bytes}
use sunlight.Extensions.{marshal_extensions}
use sunlight.Tile.{LogEntry, merkle_tree_leaf}
use sunlight.Checkpoint.{Texts}
use sunlight.Checkpoint.Signature.{Verification}
use sunlight.Ctlog.Action.{of_codec, of_codec-eq-ok}
use sunlight.Ctlog.Types.{Tlog, PendingLogEntry, waits}
use sunlight.Ctlog.Pool.{State, Waited, blocked, got, wait, pool_at}
use sunlight.Ctlog.Staging.{Archive}
use sunlight.Ctlog.Sequencer.{CheckpointSigner, sequence_pool}
use sunlight.Ctlog.Sequencer.Waiters.{Acknowledged, wait-sequence_pool}
use sunlight.Ctlog.Signing.{digitally_sign}
use sunlight.Ctlog.Http.{
  AddChainResponse, with_status, internal_server_error, wait_status, respond, reply,
}

with_status-eq-ok :
    {A : Type 0} (code : ℕ) (m : Outcome LogError A) {a : A} → with_status code m ≡ ok a → m ≡ ok a
with_status-eq-ok code (ok a) h = ap ok (ok-injective _ _ h)
with_status-eq-ok code (err e) h = absurd (cc h)
with_status-eq-ok code panic h = absurd (cc h)

some-injective : {A : Type 0} (a b : A) → some a ≡ some b → a ≡ b
some-injective a b h = cc

module _ {Builder : Type 0} (cb : Cryptobyte Builder) (tx : Texts) (vf : Verification)
    (sign_digest : Bytes → Outcome EcdsaError Bytes)
    (json_marshal : AddChainResponse → Outcome LogError Bytes) (log_id : Bytes) where
  -- A response is a signed certificate timestamp for an entry: the log's signature is over the leaf of
  -- the entry in the Merkle tree, and the extensions are those of its index.
  pub record IsSct (e : LogEntry) (response : Bytes) : Type 0 where
    pub extensions : Bytes
    pub extensions_are :
        marshal_extensions cb (record { leaf_index = e.leaf_index }) ≡ ok extensions
    pub leaf : Bytes
    pub leaf_is : merkle_tree_leaf cb e ≡ ok leaf
    pub signature : Bytes
    pub signed : digitally_sign cb vf sign_digest leaf ≡ ok signature
    pub marshalled :
        json_marshal (record {
          timestamp = to_uint64 e.timestamp;
          id = log_id;
          extensions = tx.encode extensions;
          signature = signature;
        })
        ≡ ok response

  respond-IsSct :
      (e : LogEntry) (response : Bytes)
      → respond cb tx vf sign_digest json_marshal log_id (ok e) ≡ ok response
      → IsSct e response
  unfolding respond
  respond-IsSct e response h =
      let (ext, marshalled, h₁) =
        >>=-eq-ok
          (with_status internal_server_error
            (of_codec (marshal_extensions cb (record { leaf_index = e.leaf_index }))))
          _ h in
      let (leaf, built, h₂) =
        >>=-eq-ok (with_status internal_server_error (of_codec (merkle_tree_leaf cb e))) _ h₁ in
      let (signature, signed, h₃) =
        >>=-eq-ok (with_status internal_server_error (digitally_sign cb vf sign_digest leaf)) _
          h₂ in
      record {
        extensions = ext;
        extensions_are = of_codec-eq-ok _ (with_status-eq-ok _ _ marshalled);
        leaf = leaf;
        leaf_is = of_codec-eq-ok _ (with_status-eq-ok _ _ built);
        signature = signature;
        signed = with_status-eq-ok _ _ signed;
        marshalled = with_status-eq-ok _ _ h₃;
      }

  replied :
      (x : Waited) (response : Bytes)
      → reply cb tx vf sign_digest json_marshal log_id x ≡ some (ok response)
      → (e : LogEntry) × (x ≡ got (ok e)) × IsSct e response
  unfolding reply respond
  replied blocked response h = absurd (cc h)
  replied (got (err f)) response h =
      let failed : ◌≡◌ {A = Outcome ℕ Bytes} (err (wait_status f)) (ok response) =
        some-injective _ _ h in
      absurd (cc failed)
  replied (got panic) response h =
      let failed : ◌≡◌ {A = Outcome ℕ Bytes} panic (ok response) = some-injective _ _ h in
      absurd (cc failed)
  replied (got (ok e)) response h = (e, refl, respond-IsSct e response (some-injective _ _ h))

  module _ (sha256 : Bytes → Bytes) (tlog : Tlog) (archive : Archive) (signer : CheckpointSigner)
      (id : ℕ) (s : State) where
    abbrev after : State
    after = (sequence_pool cb sha256 tlog archive signer id s).1

    -- A request for a leaf that waited in the pool of a run is answered with a signed certificate
    -- timestamp only for an entry that the run published at the leaf's place: the lock and the
    -- published checkpoint hold the signed head of a tree with it, every upload of the batch is
    -- stored, and the response is signed over the entry's leaf in that tree.
    pub reply-sequence_pool :
        (n : ℕ) (leaf : PendingLogEntry) (response : Bytes)
        → (pool_at s.log.pools id).done ≡ false
        → (pool_at s.log.pools id).error ≡ none
        → get_elem? (pool_at s.log.pools id).pending_leaves n ≡ some leaf
        → reply cb tx vf sign_digest json_marshal log_id
            (wait cb sha256 false after.log.pools (waits id n leaf))
          ≡ some (ok response)
        → (e : LogEntry) × Acknowledged cb sha256 tlog archive signer id s n e after.world
          × IsSct e response
    reply-sequence_pool n leaf response open_pool fresh nth h =
        let (e, answer, sct) =
          replied (wait cb sha256 false after.log.pools (waits id n leaf)) response h in
        (
          e,
          wait-sequence_pool cb sha256 tlog archive signer id s n leaf e open_pool fresh nth answer,
          sct,
        )

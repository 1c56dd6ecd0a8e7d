-- ===== src/Lib.antt =====
-- Sunlight: a Certificate Transparency log over object storage.
--
-- The program. extensions.go and tile.go encode the entries of the log. internal/ctlog/ctlog.go keeps
-- the log: requests add leaves to the current pool (addLeafToPool) and wait; the sequencer rotates
-- the pool, gives its leaves indexes and a timestamp, stages the new tiles in one bundle, replaces
-- the checkpoint of the lock database by compare-and-swap, applies the bundle, and publishes the
-- checkpoint; then those that wait are answered. internal/ctlog/cache.go finds leaves that were
-- sequenced before. LoadLog starts from what an earlier process left behind. sqlite.go,
-- dynamodb.go and etag.go are the databases the lock may stand on; internal/rfc6979 makes the
-- signatures of the log.
--
-- The model.
-- - Prelude: shared types, tests, lists, outcomes (a value, an error or a panic), integers, maps.
-- - Errors: the errors of the code.
-- - Cryptobyte: golang.org/x/crypto/cryptobyte as a parameter with its documented laws.
-- - Extensions: MarshalExtensions, ParseExtensions. RoundTrip has the bytes that are written, Parsing
--   what is read from them and from any bytes.
-- - Tile: LogEntry, MerkleTreeLeaf, AppendTileLeaf, ReadTileLeaf. Layout has the bytes of an entry,
--   RoundTrip and Canonical the two directions between entries and bytes.
-- - Ctlog: the log. Action is state with errors; what was changed before an error stays changed.
--   World is the object storage, the lock and the cache, with a script that says of each call whether
--   it works, fails before or after its effect, or ends the process before or after it. Types has
--   the state of a log and golang.org/x/mod/sumdb/tlog as a parameter; Paths the keys of objects;
--   Entries asLogEntry and the cache, with Hits on what is found in it; Pool addLeafToPool, uploadIssuer and the waiting functions;
--   Batch the first half of sequencePool; Staging the bundles, over archive/tar and encoding/json as
--   parameters; Sequencer the rest of sequencePool, sequence and RunSequencer; Creation CreateLog;
--   Loading LoadLog, with Recovery and Crashes on what it makes of any state, and DataTile on
--   the tile it verifies; Locks the backends of
--   sqlite.go, dynamodb.go and etag.go, over their clients as parameters, and what LockBackend asks;
--   S3 the object storage of s3.go: Requests has the hedge, Contents what is stored for a content,
--   Backend what the interface Backend asks.
-- - Checkpoint: checkpoint.go. Lines has the texts, RoundTrip and Accepted the two directions of
--   ParseCheckpoint, Signature the verifier of NewRFC6962Verifier and RFC6962SignatureTimestamp.
--   Verifier its name and key hash. Ctlog/Signing is digitallySign and the signature of
--   signTreeHead, Ctlog/Checkpoints the rest of signTreeHead, and openCheckpoint, over
--   golang.org/x/mod/sumdb/note as a parameter in Notes: Opened has what is checked, RoundTrip that
--   what was signed is opened. The sequencer and LoadLog take the two as an interface,
--   CheckpointSigner, which Heads fills with them: what is drawn at random is there a function of the
--   head, and heads that Go's types exclude or whose note is over the size limit are refused.
--   Ctlog/Http is addChainOrPreChain of http.go, Chains before the wait for a
--   leaf and Responses behind it.
-- - Ctlog/History: processes that load the log, add leaves and sequence them, over one storage and
--   one lock, as a step relation; Frames and Loads say which calls leave the lock alone, Growth what
--   every history keeps, Created that a history may start with CreateLog.
-- - Rfc6979: internal/rfc6979/ecdsa.go. Shift is rightShift, Curve the packages below it as
--   parameters, Hash hashToNat, Nonce rfc6979DRBG and randomPoint, against the steps of RFC 6979 in
--   Nonce/Rfc, Signing Sign and the encoding.
-- - Ctlog/Sequencer: Phases lists how far a run of sequencePool can get, Progress and Safety show
--   that each run ends in one of them, Crashes and Guarantees what this says of the storage, the lock
--   and the log, Waiters what those that wait are told.
--
-- Conventions. A byte is a number below 256, and a string a list of them; an int64 is an integer of
-- Prelude/Int, and its conversion to uint64 wraps around. A pool is shared by the log and by the
-- functions that wait for it, so pools live in a map under numbers. A method that holds a mutex is
-- one step. The uploads of an error group have distinct keys and are taken in order; each may fail.
-- A panic is the end of the process, so deferred functions are not run behind it.
--
-- Fuel. The loops of ParseExtensions and ReadTileLeaf take a round for each byte that is left, and
-- each round reads at least one; the loop of stagingPath takes a round for each unit of the tree
-- size, and each round divides it by 1000. The loop that fills a buffer with random bytes takes a
-- round for each byte. The rejection loop of randomPoint need not end for every generator; its fuel is
-- an argument, and its theorem says how much is enough. The loop over the extension lines of a
-- checkpoint takes a round for each byte, and each round drops at least one.
--
-- In a history, each call of addLeafToPool, sequence and LoadLog is one step, whose calls of the
-- storage all fall together; time passes between steps, on one clock that all processes read and
-- that does not go back. A request of an upload that was hedged has its effect, if at all, before the upload returns.
--
-- Not modelled: metrics, logging and timeouts, which change no result; the headers of responses and get-roots; the opening of databases and
-- connections; the constants of the curves; the commands.
pub mod Prelude
pub mod Errors
pub mod Cryptobyte
pub mod Extensions
pub mod Tile
pub mod Checkpoint
pub mod Ctlog
pub mod Rfc6979

-- ===== src/Ctlog.antt =====
-- internal/ctlog: the log. The children go bottom up.
pub mod Stubs
mod Tests
pub mod Action
pub mod World
pub mod Types
pub mod Paths
pub mod Entries
pub mod Pool
pub mod Batch
pub mod Staging
pub mod Sequencer
pub mod Creation
pub mod Loading
pub mod Locks
pub mod S3
pub mod Signing
pub mod Checkpoints
pub mod Http
pub mod History

-- ===== src/Rfc6979.antt =====
-- internal/rfc6979: deterministic ECDSA (ecdsa.go). The children go bottom up.
pub mod Shift
pub mod Curve
pub mod Hash
pub mod Nonce
pub mod Signing
pub mod Plain
mod Tests

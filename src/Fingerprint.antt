-- ===== src/Fingerprint.antt =====
-- The fingerprint bridge, bridges/fingerprint.
pub mod HatCodec
pub mod LockoutStore
pub mod LockoutTracker
pub mod RemovalBatch
pub mod Session
mod Examples

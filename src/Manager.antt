-- ===== src/Manager.antt =====
-- src/manager.rs. The children hold the state, one group of the `Manager`'s methods each, and
-- their properties. A method takes the state of the operating system where it calls the backend,
-- and returns its result with the new manager.
pub mod State
pub mod Scan
pub mod Search
pub mod Sign
pub mod Decrypt
pub mod Encrypt
pub mod Requests
pub mod Queries
pub mod Frame
pub mod Matching
pub mod Invariant
pub mod Multipart
pub mod Untouched
pub mod Isolation
pub mod Drain
pub mod Rescan
pub mod Closing
pub mod Keys
pub mod Unopened
pub mod Found
pub mod Permanent
pub mod Lengths

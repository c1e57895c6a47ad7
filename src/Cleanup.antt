-- ===== src/Cleanup.antt =====
-- src/cert9_cleanup.rs: the clean-up of Thunderbird's cert9.db. Cleanup.Profiles reads
-- profiles.ini, Cleanup.Pass is one pass over the database and Cleanup.Spawn the start of its thread.
pub mod Profiles
pub mod Printed
pub mod Entries
pub mod RoundTrip
pub mod Located
pub mod Pass
pub mod Stale
pub mod Spawn

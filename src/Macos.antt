-- ===== src/Macos.antt =====
-- src/backend_macos.rs: the backend of macOS. Macos.Api is what it calls, Macos.Objects the objects
-- and how they are made, Macos.Attributes how they are found and read (Macos.Matching relates the
-- two), Macos.Sign the signatures (Macos.Signatures is about their form). It has no operation to
-- encrypt or to decrypt, so it is no `Backend`.
pub mod Api
pub mod Objects
pub mod Attributes
pub mod Sign
pub mod Signatures
pub mod Matching

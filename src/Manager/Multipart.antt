-- ===== src/Manager/Multipart.antt =====
-- Multipart operations against single-shot ones, for each of the three kinds.
pub mod Sign
pub mod Decrypt
pub mod Encrypt

-- ===== src/Manager/Queries.antt =====
-- The queries of the manager leave it as it is.
use osclientcerts.Prelude.{ℕ, ◌≡◌, List, Bytes, arith}
use osclientcerts.Backend.{Backend}
use osclientcerts.Manager.State.{Manager}
use osclientcerts.Manager.Scan
use osclientcerts.Manager.Search
use osclientcerts.Manager.Sign
use osclientcerts.Manager.Decrypt
use osclientcerts.Manager.Encrypt

module _ (B : Backend) (os : B.Os) (m : Manager B) where
  pub same_get_attributes : (a0 : ℕ) (a1 : List ℕ) → (Search.get_attributes B a0 a1 m).1 ≡ m
  unfolding Search.get_attributes
  same_get_attributes a0 a1 = ground arith

  pub same_get_signature_length :
      (a0 : ℕ) (a1 : Bytes) → (Sign.get_signature_length B os a0 a1 m).1 ≡ m
  unfolding Sign.get_signature_length
  same_get_signature_length a0 a1 = ground arith

  pub same_get_final_signature_length : (a0 : ℕ) → (Sign.get_final_signature_length B os a0 m).1 ≡ m
  unfolding Sign.get_final_signature_length
  same_get_final_signature_length a0 = ground arith

  pub same_get_decrypted_length :
      (a0 : ℕ) (a1 : Bytes) → (Decrypt.get_decrypted_length B os a0 a1 m).1 ≡ m
  unfolding Decrypt.get_decrypted_length
  same_get_decrypted_length a0 a1 = ground arith

  pub same_get_final_decrypted_length :
      (a0 : ℕ) → (Decrypt.get_final_decrypted_length B os a0 m).1 ≡ m
  unfolding Decrypt.get_final_decrypted_length
  same_get_final_decrypted_length a0 = ground arith

  pub same_get_encrypted_length :
      (a0 : ℕ) (a1 : Bytes) → (Encrypt.get_encrypted_length B os a0 a1 m).1 ≡ m
  unfolding Encrypt.get_encrypted_length
  same_get_encrypted_length a0 a1 = ground arith

  pub same_get_final_encrypted_length :
      (a0 : ℕ) → (Encrypt.get_final_encrypted_length B os a0 m).1 ≡ m
  unfolding Encrypt.get_final_encrypted_length
  same_get_final_encrypted_length a0 = ground arith

  pub same_get_session_info : (a0 : ℕ) → (Scan.get_session_info B a0 m).1 ≡ m
  unfolding Scan.get_session_info
  same_get_session_info a0 = ground arith

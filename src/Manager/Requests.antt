-- ===== src/Manager/Requests.antt =====
-- src/manager.rs: the requests that the proxy sends to the thread of the manager, the replies,
-- and the `match` of that thread's loop.
use osclientcerts.Prelude.{ℕ, Option, List, Bytes, Result, ok}
use osclientcerts.Cryptoki.{PssParams}
use osclientcerts.Mechanism.{RsaCipherMechanism}
use osclientcerts.Util.Errors.{CryptoError}
use osclientcerts.Backend.{Backend, Attributes}
use osclientcerts.Manager.State.{Manager}
use osclientcerts.Manager.Scan
use osclientcerts.Manager.Search
use osclientcerts.Manager.Sign
use osclientcerts.Manager.Decrypt
use osclientcerts.Manager.Encrypt

pub data ManagerArguments : Type 0 where
  open_session : ℕ → ManagerArguments
  close_session : ℕ → ManagerArguments
  close_all_sessions : ManagerArguments
  start_search : ℕ → Attributes → ManagerArguments
  search : ℕ → ℕ → ManagerArguments
  clear_search : ℕ → ManagerArguments
  get_attributes : ℕ → List ℕ → ManagerArguments
  start_sign : ℕ → ℕ → Option PssParams → ManagerArguments
  get_signature_length : ℕ → Bytes → ManagerArguments
  sign : ℕ → Bytes → ManagerArguments
  sign_update : ℕ → Bytes → ManagerArguments
  get_final_signature_length : ℕ → ManagerArguments
  sign_final : ℕ → ManagerArguments
  start_decrypt : ℕ → ℕ → RsaCipherMechanism → ManagerArguments
  get_decrypted_length : ℕ → Bytes → ManagerArguments
  decrypt : ℕ → Bytes → ManagerArguments
  decrypt_update : ℕ → Bytes → ManagerArguments
  get_final_decrypted_length : ℕ → ManagerArguments
  decrypt_final : ℕ → ManagerArguments
  start_encrypt : ℕ → ℕ → RsaCipherMechanism → ManagerArguments
  get_encrypted_length : ℕ → Bytes → ManagerArguments
  encrypt : ℕ → Bytes → ManagerArguments
  encrypt_update : ℕ → Bytes → ManagerArguments
  get_final_encrypted_length : ℕ → ManagerArguments
  encrypt_final : ℕ → ManagerArguments
  get_session_info : ℕ → ManagerArguments
  stop : ManagerArguments

pub data ManagerReturnValue : Type 0 where
  open_session : Result ℕ Unit → ManagerReturnValue
  close_session : Result (Unit {0}) Unit → ManagerReturnValue
  close_all_sessions : Result (Unit {0}) Unit → ManagerReturnValue
  start_search : Result (Unit {0}) Unit → ManagerReturnValue
  search : Result (List ℕ) Unit → ManagerReturnValue
  clear_search : Result (Unit {0}) Unit → ManagerReturnValue
  get_attributes : Result (List (Option Bytes)) Unit → ManagerReturnValue
  start_sign : Result (Unit {0}) CryptoError → ManagerReturnValue
  get_signature_length : Result ℕ CryptoError → ManagerReturnValue
  sign : Result Bytes CryptoError → ManagerReturnValue
  sign_update : Result (Unit {0}) CryptoError → ManagerReturnValue
  get_final_signature_length : Result ℕ CryptoError → ManagerReturnValue
  sign_final : Result Bytes CryptoError → ManagerReturnValue
  start_decrypt : Result (Unit {0}) CryptoError → ManagerReturnValue
  get_decrypted_length : Result ℕ CryptoError → ManagerReturnValue
  decrypt : Result Bytes CryptoError → ManagerReturnValue
  decrypt_update : Result (Unit {0}) CryptoError → ManagerReturnValue
  get_final_decrypted_length : Result ℕ CryptoError → ManagerReturnValue
  decrypt_final : Result Bytes CryptoError → ManagerReturnValue
  start_encrypt : Result (Unit {0}) CryptoError → ManagerReturnValue
  get_encrypted_length : Result ℕ CryptoError → ManagerReturnValue
  encrypt : Result Bytes CryptoError → ManagerReturnValue
  encrypt_update : Result (Unit {0}) CryptoError → ManagerReturnValue
  get_final_encrypted_length : Result ℕ CryptoError → ManagerReturnValue
  encrypt_final : Result Bytes CryptoError → ManagerReturnValue
  get_session_info : Result ℕ Unit → ManagerReturnValue
  stop : Result (Unit {0}) Unit → ManagerReturnValue

-- A result beside the new manager, as a reply beside it.
abbrev pub reply {ℓ} :
    {A : Type ℓ} {M : Type 0} → (A → ManagerReturnValue) → A × M → ManagerReturnValue × M
reply f (a, m) = (f a, m)

module _ (B : Backend) where
  unfoldable pub dispatch : B.Os → ManagerArguments → Manager B → ManagerReturnValue × Manager B
  dispatch os (ManagerArguments.open_session a0) m =
      reply ManagerReturnValue.open_session (Scan.open_session B os a0 m)
  dispatch os (ManagerArguments.close_session a0) m =
      reply ManagerReturnValue.close_session (Scan.close_session B a0 m)
  dispatch os ManagerArguments.close_all_sessions m =
      reply ManagerReturnValue.close_all_sessions (Scan.close_all_sessions B m)
  dispatch os (ManagerArguments.start_search a0 a1) m =
      reply ManagerReturnValue.start_search (Search.start_search B os a0 a1 m)
  dispatch os (ManagerArguments.search a0 a1) m =
      reply ManagerReturnValue.search (Search.search B a0 a1 m)
  dispatch os (ManagerArguments.clear_search a0) m =
      reply ManagerReturnValue.clear_search (Search.clear_search B a0 m)
  dispatch os (ManagerArguments.get_attributes a0 a1) m =
      reply ManagerReturnValue.get_attributes (Search.get_attributes B a0 a1 m)
  dispatch os (ManagerArguments.start_sign a0 a1 a2) m =
      reply ManagerReturnValue.start_sign (Sign.start_sign B a0 a1 a2 m)
  dispatch os (ManagerArguments.get_signature_length a0 a1) m =
      reply ManagerReturnValue.get_signature_length (Sign.get_signature_length B os a0 a1 m)
  dispatch os (ManagerArguments.sign a0 a1) m =
      reply ManagerReturnValue.sign (Sign.sign B os a0 a1 m)
  dispatch os (ManagerArguments.sign_update a0 a1) m =
      reply ManagerReturnValue.sign_update (Sign.sign_update B a0 a1 m)
  dispatch os (ManagerArguments.get_final_signature_length a0) m =
      reply ManagerReturnValue.get_final_signature_length
        (Sign.get_final_signature_length B os a0 m)
  dispatch os (ManagerArguments.sign_final a0) m =
      reply ManagerReturnValue.sign_final (Sign.sign_final B os a0 m)
  dispatch os (ManagerArguments.start_decrypt a0 a1 a2) m =
      reply ManagerReturnValue.start_decrypt (Decrypt.start_decrypt B a0 a1 a2 m)
  dispatch os (ManagerArguments.get_decrypted_length a0 a1) m =
      reply ManagerReturnValue.get_decrypted_length (Decrypt.get_decrypted_length B os a0 a1 m)
  dispatch os (ManagerArguments.decrypt a0 a1) m =
      reply ManagerReturnValue.decrypt (Decrypt.decrypt B os a0 a1 m)
  dispatch os (ManagerArguments.decrypt_update a0 a1) m =
      reply ManagerReturnValue.decrypt_update (Decrypt.decrypt_update B a0 a1 m)
  dispatch os (ManagerArguments.get_final_decrypted_length a0) m =
      reply ManagerReturnValue.get_final_decrypted_length
        (Decrypt.get_final_decrypted_length B os a0 m)
  dispatch os (ManagerArguments.decrypt_final a0) m =
      reply ManagerReturnValue.decrypt_final (Decrypt.decrypt_final B os a0 m)
  dispatch os (ManagerArguments.start_encrypt a0 a1 a2) m =
      reply ManagerReturnValue.start_encrypt (Encrypt.start_encrypt B a0 a1 a2 m)
  dispatch os (ManagerArguments.get_encrypted_length a0 a1) m =
      reply ManagerReturnValue.get_encrypted_length (Encrypt.get_encrypted_length B os a0 a1 m)
  dispatch os (ManagerArguments.encrypt a0 a1) m =
      reply ManagerReturnValue.encrypt (Encrypt.encrypt B os a0 a1 m)
  dispatch os (ManagerArguments.encrypt_update a0 a1) m =
      reply ManagerReturnValue.encrypt_update (Encrypt.encrypt_update B a0 a1 m)
  dispatch os (ManagerArguments.get_final_encrypted_length a0) m =
      reply ManagerReturnValue.get_final_encrypted_length
        (Encrypt.get_final_encrypted_length B os a0 m)
  dispatch os (ManagerArguments.encrypt_final a0) m =
      reply ManagerReturnValue.encrypt_final (Encrypt.encrypt_final B os a0 m)
  dispatch os (ManagerArguments.get_session_info a0) m =
      reply ManagerReturnValue.get_session_info (Scan.get_session_info B a0 m)
  dispatch os ManagerArguments.stop m = (ManagerReturnValue.stop (ok tt), m)

-- ===== src/Proxy/Calls.antt =====
-- src/manager.rs: the functions of `ManagerProxy`, each a request and the reply that it expects.
use osclientcerts.Prelude.{ℕ, Option, none, some, List, Result, err, Bytes}
use osclientcerts.Cryptoki.{PssParams}
use osclientcerts.Mechanism.{RsaCipherMechanism}
use osclientcerts.Util.Errors.{CryptoError, from_unit}
use osclientcerts.Backend.{Backend, Attributes}
use osclientcerts.Manager.Requests.{ManagerArguments, ManagerReturnValue}
use osclientcerts.Proxy.{ManagerProxy, proxy_fn}

-- The answer of a function: its result and the proxy behind it, or `none` if it waits for ever.
abbrev pub Answer : Backend → Type 0 → Type 0 → Type 0
Answer B A E = Option (Result A E × ManagerProxy B)

module _ (B : Backend) where
  unfoldable pub open_session : B.Os → ℕ → ManagerProxy B → Answer B ℕ Unit
  open_session os flags p =
      proxy_fn B (err tt)
        (λ v. elim v [ ManagerReturnValue.open_session result ↦ some result | _ ↦ none ]) os
        (ManagerArguments.open_session flags) p

  unfoldable pub get_session_info : B.Os → ℕ → ManagerProxy B → Answer B ℕ Unit
  get_session_info os session p =
      proxy_fn B (err tt)
        (λ v. elim v [ ManagerReturnValue.get_session_info result ↦ some result | _ ↦ none ]) os
        (ManagerArguments.get_session_info session) p

  unfoldable pub close_session : B.Os → ℕ → ManagerProxy B → Answer B (Unit {0}) Unit
  close_session os session p =
      proxy_fn B (err tt)
        (λ v. elim v [ ManagerReturnValue.close_session result ↦ some result | _ ↦ none ]) os
        (ManagerArguments.close_session session) p

  unfoldable pub close_all_sessions : B.Os → ManagerProxy B → Answer B (Unit {0}) Unit
  close_all_sessions os p =
      proxy_fn B (err tt)
        (λ v. elim v [ ManagerReturnValue.close_all_sessions result ↦ some result | _ ↦ none ]) os
        (ManagerArguments.close_all_sessions) p

  unfoldable pub start_search : B.Os → ℕ → Attributes → ManagerProxy B → Answer B (Unit {0}) Unit
  start_search os session attrs p =
      proxy_fn B (err tt)
        (λ v. elim v [ ManagerReturnValue.start_search result ↦ some result | _ ↦ none ]) os
        (ManagerArguments.start_search session attrs) p

  unfoldable pub search : B.Os → ℕ → ℕ → ManagerProxy B → Answer B (List ℕ) Unit
  search os session max_objects p =
      proxy_fn B (err tt)
        (λ v. elim v [ ManagerReturnValue.search result ↦ some result | _ ↦ none ]) os
        (ManagerArguments.search session max_objects) p

  unfoldable pub clear_search : B.Os → ℕ → ManagerProxy B → Answer B (Unit {0}) Unit
  clear_search os session p =
      proxy_fn B (err tt)
        (λ v. elim v [ ManagerReturnValue.clear_search result ↦ some result | _ ↦ none ]) os
        (ManagerArguments.clear_search session) p

  unfoldable pub get_attributes :
      B.Os → ℕ → List ℕ → ManagerProxy B → Answer B (List (Option Bytes)) Unit
  get_attributes os object_handle attr_types p =
      proxy_fn B (err tt)
        (λ v. elim v [ ManagerReturnValue.get_attributes result ↦ some result | _ ↦ none ]) os
        (ManagerArguments.get_attributes object_handle attr_types) p

  unfoldable pub start_sign :
      B.Os → ℕ → ℕ → Option PssParams → ManagerProxy B → Answer B (Unit {0}) CryptoError
  start_sign os session key_handle params p =
      proxy_fn B (err (from_unit tt))
        (λ v. elim v [ ManagerReturnValue.start_sign result ↦ some result | _ ↦ none ]) os
        (ManagerArguments.start_sign session key_handle params) p

  unfoldable pub get_signature_length : B.Os → ℕ → Bytes → ManagerProxy B → Answer B ℕ CryptoError
  get_signature_length os session input p =
      proxy_fn B (err (from_unit tt))
        (λ v. elim v [ ManagerReturnValue.get_signature_length result ↦ some result | _ ↦ none ]) os
        (ManagerArguments.get_signature_length session input) p

  unfoldable pub sign : B.Os → ℕ → Bytes → ManagerProxy B → Answer B Bytes CryptoError
  sign os session input p =
      proxy_fn B (err (from_unit tt))
        (λ v. elim v [ ManagerReturnValue.sign result ↦ some result | _ ↦ none ]) os
        (ManagerArguments.sign session input) p

  unfoldable pub sign_update : B.Os → ℕ → Bytes → ManagerProxy B → Answer B (Unit {0}) CryptoError
  sign_update os session input p =
      proxy_fn B (err (from_unit tt))
        (λ v. elim v [ ManagerReturnValue.sign_update result ↦ some result | _ ↦ none ]) os
        (ManagerArguments.sign_update session input) p

  unfoldable pub get_final_signature_length : B.Os → ℕ → ManagerProxy B → Answer B ℕ CryptoError
  get_final_signature_length os session p =
      proxy_fn B (err (from_unit tt))
        (λ v. elim v [
          | ManagerReturnValue.get_final_signature_length result ↦ some result
          | _ ↦ none
        ])
        os (ManagerArguments.get_final_signature_length session) p

  unfoldable pub sign_final : B.Os → ℕ → ManagerProxy B → Answer B Bytes CryptoError
  sign_final os session p =
      proxy_fn B (err (from_unit tt))
        (λ v. elim v [ ManagerReturnValue.sign_final result ↦ some result | _ ↦ none ]) os
        (ManagerArguments.sign_final session) p

  unfoldable pub start_decrypt :
      B.Os → ℕ → ℕ → RsaCipherMechanism → ManagerProxy B → Answer B (Unit {0}) CryptoError
  start_decrypt os session key_handle mechanism p =
      proxy_fn B (err (from_unit tt))
        (λ v. elim v [ ManagerReturnValue.start_decrypt result ↦ some result | _ ↦ none ]) os
        (ManagerArguments.start_decrypt session key_handle mechanism) p

  unfoldable pub get_decrypted_length : B.Os → ℕ → Bytes → ManagerProxy B → Answer B ℕ CryptoError
  get_decrypted_length os session input p =
      proxy_fn B (err (from_unit tt))
        (λ v. elim v [ ManagerReturnValue.get_decrypted_length result ↦ some result | _ ↦ none ]) os
        (ManagerArguments.get_decrypted_length session input) p

  unfoldable pub decrypt : B.Os → ℕ → Bytes → ManagerProxy B → Answer B Bytes CryptoError
  decrypt os session input p =
      proxy_fn B (err (from_unit tt))
        (λ v. elim v [ ManagerReturnValue.decrypt result ↦ some result | _ ↦ none ]) os
        (ManagerArguments.decrypt session input) p

  unfoldable pub decrypt_update :
      B.Os → ℕ → Bytes → ManagerProxy B → Answer B (Unit {0}) CryptoError
  decrypt_update os session input p =
      proxy_fn B (err (from_unit tt))
        (λ v. elim v [ ManagerReturnValue.decrypt_update result ↦ some result | _ ↦ none ]) os
        (ManagerArguments.decrypt_update session input) p

  unfoldable pub get_final_decrypted_length : B.Os → ℕ → ManagerProxy B → Answer B ℕ CryptoError
  get_final_decrypted_length os session p =
      proxy_fn B (err (from_unit tt))
        (λ v. elim v [
          | ManagerReturnValue.get_final_decrypted_length result ↦ some result
          | _ ↦ none
        ])
        os (ManagerArguments.get_final_decrypted_length session) p

  unfoldable pub decrypt_final : B.Os → ℕ → ManagerProxy B → Answer B Bytes CryptoError
  decrypt_final os session p =
      proxy_fn B (err (from_unit tt))
        (λ v. elim v [ ManagerReturnValue.decrypt_final result ↦ some result | _ ↦ none ]) os
        (ManagerArguments.decrypt_final session) p

  unfoldable pub start_encrypt :
      B.Os → ℕ → ℕ → RsaCipherMechanism → ManagerProxy B → Answer B (Unit {0}) CryptoError
  start_encrypt os session key_handle mechanism p =
      proxy_fn B (err (from_unit tt))
        (λ v. elim v [ ManagerReturnValue.start_encrypt result ↦ some result | _ ↦ none ]) os
        (ManagerArguments.start_encrypt session key_handle mechanism) p

  unfoldable pub get_encrypted_length : B.Os → ℕ → Bytes → ManagerProxy B → Answer B ℕ CryptoError
  get_encrypted_length os session input p =
      proxy_fn B (err (from_unit tt))
        (λ v. elim v [ ManagerReturnValue.get_encrypted_length result ↦ some result | _ ↦ none ]) os
        (ManagerArguments.get_encrypted_length session input) p

  unfoldable pub encrypt : B.Os → ℕ → Bytes → ManagerProxy B → Answer B Bytes CryptoError
  encrypt os session input p =
      proxy_fn B (err (from_unit tt))
        (λ v. elim v [ ManagerReturnValue.encrypt result ↦ some result | _ ↦ none ]) os
        (ManagerArguments.encrypt session input) p

  unfoldable pub encrypt_update :
      B.Os → ℕ → Bytes → ManagerProxy B → Answer B (Unit {0}) CryptoError
  encrypt_update os session input p =
      proxy_fn B (err (from_unit tt))
        (λ v. elim v [ ManagerReturnValue.encrypt_update result ↦ some result | _ ↦ none ]) os
        (ManagerArguments.encrypt_update session input) p

  unfoldable pub get_final_encrypted_length : B.Os → ℕ → ManagerProxy B → Answer B ℕ CryptoError
  get_final_encrypted_length os session p =
      proxy_fn B (err (from_unit tt))
        (λ v. elim v [
          | ManagerReturnValue.get_final_encrypted_length result ↦ some result
          | _ ↦ none
        ])
        os (ManagerArguments.get_final_encrypted_length session) p

  unfoldable pub encrypt_final : B.Os → ℕ → ManagerProxy B → Answer B Bytes CryptoError
  encrypt_final os session p =
      proxy_fn B (err (from_unit tt))
        (λ v. elim v [ ManagerReturnValue.encrypt_final result ↦ some result | _ ↦ none ]) os
        (ManagerArguments.encrypt_final session) p

-- ===== src/Proxy/Identical.antt =====
-- A call through the proxy is the call of the manager.
use osclientcerts.Prelude.{ℕ, ◌≡◌, refl, true, Option, some, [], List, Bytes}
use osclientcerts.Cryptoki.{PssParams}
use osclientcerts.Mechanism.{RsaCipherMechanism}
use osclientcerts.Backend.{Backend, Attributes}
use osclientcerts.Manager.State.{Manager}
use osclientcerts.Manager.Scan
use osclientcerts.Manager.Search
use osclientcerts.Manager.Sign
use osclientcerts.Manager.Decrypt
use osclientcerts.Manager.Encrypt
use osclientcerts.Manager.Requests.{dispatch}
use osclientcerts.Proxy.{
  ManagerProxy, stop_after_send, turn, serve, send, recv, proxy_call, proxy_fn,
}
use osclientcerts.Proxy.Calls

-- A proxy whose thread waits for a request, between calls.
abbrev pub idle : (B : Backend) → Manager B → ManagerProxy B
idle B m = record { requests = []; replies = []; thread = some m; thread_handle = true }

-- A call that answers what the manager's own call answers, and leaves the thread waiting with the
-- manager that it leaves.
abbrev Through {ℓ} :
    (B : Backend) {A : Type ℓ} → Option (A × ManagerProxy B) → A × Manager B → Type ℓ
Through B call (a, m) = call ≡ some (a, idle B m)

-- Each function of the proxy against the manager's.
pub record IsIdentical (B : Backend) (os : B.Os) (m : Manager B) : Type 0 where
  pub open_session :
      (flags : ℕ)
      → Through B (Calls.open_session B os flags (idle B m)) (Scan.open_session B os flags m)
  pub get_session_info :
      (session : ℕ)
      → Through B
          (Calls.get_session_info B os session (idle B m))
          (Scan.get_session_info B session m)
  pub close_session :
      (session : ℕ)
      → Through B (Calls.close_session B os session (idle B m)) (Scan.close_session B session m)
  pub close_all_sessions :
      Through B (Calls.close_all_sessions B os (idle B m)) (Scan.close_all_sessions B m)
  pub start_search :
      (session : ℕ) (attrs : Attributes)
      → Through B
          (Calls.start_search B os session attrs (idle B m))
          (Search.start_search B os session attrs m)
  pub search :
      (session : ℕ) (max_objects : ℕ)
      → Through B
          (Calls.search B os session max_objects (idle B m))
          (Search.search B session max_objects m)
  pub clear_search :
      (session : ℕ)
      → Through B (Calls.clear_search B os session (idle B m)) (Search.clear_search B session m)
  pub get_attributes :
      (object_handle : ℕ) (attr_types : List ℕ)
      → Through B
          (Calls.get_attributes B os object_handle attr_types (idle B m))
          (Search.get_attributes B object_handle attr_types m)
  pub start_sign :
      (session : ℕ) (key_handle : ℕ) (params : Option PssParams)
      → Through B
          (Calls.start_sign B os session key_handle params (idle B m))
          (Sign.start_sign B session key_handle params m)
  pub get_signature_length :
      (session : ℕ) (input : Bytes)
      → Through B
          (Calls.get_signature_length B os session input (idle B m))
          (Sign.get_signature_length B os session input m)
  pub sign :
      (session : ℕ) (input : Bytes)
      → Through B (Calls.sign B os session input (idle B m)) (Sign.sign B os session input m)
  pub sign_update :
      (session : ℕ) (input : Bytes)
      → Through B
          (Calls.sign_update B os session input (idle B m))
          (Sign.sign_update B session input m)
  pub get_final_signature_length :
      (session : ℕ)
      → Through B
          (Calls.get_final_signature_length B os session (idle B m))
          (Sign.get_final_signature_length B os session m)
  pub sign_final :
      (session : ℕ)
      → Through B (Calls.sign_final B os session (idle B m)) (Sign.sign_final B os session m)
  pub start_decrypt :
      (session : ℕ) (key_handle : ℕ) (mechanism : RsaCipherMechanism)
      → Through B
          (Calls.start_decrypt B os session key_handle mechanism (idle B m))
          (Decrypt.start_decrypt B session key_handle mechanism m)
  pub get_decrypted_length :
      (session : ℕ) (input : Bytes)
      → Through B
          (Calls.get_decrypted_length B os session input (idle B m))
          (Decrypt.get_decrypted_length B os session input m)
  pub decrypt :
      (session : ℕ) (input : Bytes)
      → Through B
          (Calls.decrypt B os session input (idle B m))
          (Decrypt.decrypt B os session input m)
  pub decrypt_update :
      (session : ℕ) (input : Bytes)
      → Through B
          (Calls.decrypt_update B os session input (idle B m))
          (Decrypt.decrypt_update B session input m)
  pub get_final_decrypted_length :
      (session : ℕ)
      → Through B
          (Calls.get_final_decrypted_length B os session (idle B m))
          (Decrypt.get_final_decrypted_length B os session m)
  pub decrypt_final :
      (session : ℕ)
      → Through B
          (Calls.decrypt_final B os session (idle B m))
          (Decrypt.decrypt_final B os session m)
  pub start_encrypt :
      (session : ℕ) (key_handle : ℕ) (mechanism : RsaCipherMechanism)
      → Through B
          (Calls.start_encrypt B os session key_handle mechanism (idle B m))
          (Encrypt.start_encrypt B session key_handle mechanism m)
  pub get_encrypted_length :
      (session : ℕ) (input : Bytes)
      → Through B
          (Calls.get_encrypted_length B os session input (idle B m))
          (Encrypt.get_encrypted_length B os session input m)
  pub encrypt :
      (session : ℕ) (input : Bytes)
      → Through B
          (Calls.encrypt B os session input (idle B m))
          (Encrypt.encrypt B os session input m)
  pub encrypt_update :
      (session : ℕ) (input : Bytes)
      → Through B
          (Calls.encrypt_update B os session input (idle B m))
          (Encrypt.encrypt_update B session input m)
  pub get_final_encrypted_length :
      (session : ℕ)
      → Through B
          (Calls.get_final_encrypted_length B os session (idle B m))
          (Encrypt.get_final_encrypted_length B os session m)
  pub encrypt_final :
      (session : ℕ)
      → Through B
          (Calls.encrypt_final B os session (idle B m))
          (Encrypt.encrypt_final B os session m)

-- While the thread waits for a request, each of the functions of the proxy but stop returns, without
-- waiting for ever, what the same method of the manager returns, and leaves the thread waiting with
-- the manager that the method leaves.
pub proxy-IsIdentical : (B : Backend) (os : B.Os) (m : Manager B) → IsIdentical B os m
unfolding dispatch stop_after_send turn serve send recv proxy_call proxy_fn Calls.open_session
    Calls.get_session_info Calls.close_session Calls.close_all_sessions Calls.start_search
    Calls.search Calls.clear_search Calls.get_attributes Calls.start_sign Calls.get_signature_length
    Calls.sign Calls.sign_update Calls.get_final_signature_length Calls.sign_final
    Calls.start_decrypt Calls.get_decrypted_length Calls.decrypt Calls.decrypt_update
    Calls.get_final_decrypted_length Calls.decrypt_final Calls.start_encrypt
    Calls.get_encrypted_length Calls.encrypt Calls.encrypt_update Calls.get_final_encrypted_length
    Calls.encrypt_final
proxy-IsIdentical B os m = record {
  open_session = λ flags. refl;
  get_session_info = λ session. refl;
  close_session = λ session. refl;
  close_all_sessions = refl;
  start_search = λ session attrs. refl;
  search = λ session max_objects. refl;
  clear_search = λ session. refl;
  get_attributes = λ object_handle attr_types. refl;
  start_sign = λ session key_handle params. refl;
  get_signature_length = λ session input. refl;
  sign = λ session input. refl;
  sign_update = λ session input. refl;
  get_final_signature_length = λ session. refl;
  sign_final = λ session. refl;
  start_decrypt = λ session key_handle mechanism. refl;
  get_decrypted_length = λ session input. refl;
  decrypt = λ session input. refl;
  decrypt_update = λ session input. refl;
  get_final_decrypted_length = λ session. refl;
  decrypt_final = λ session. refl;
  start_encrypt = λ session key_handle mechanism. refl;
  get_encrypted_length = λ session input. refl;
  encrypt = λ session input. refl;
  encrypt_update = λ session input. refl;
  get_final_encrypted_length = λ session. refl;
  encrypt_final = λ session. refl;
}

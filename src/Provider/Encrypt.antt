-- ===== src/Provider/Encrypt.antt =====
-- src/lib.rs: C_EncryptInit, C_Encrypt, C_EncryptUpdate and C_EncryptFinal. A null length pointer is `none` in
-- place of the caller's output. The operating system may have changed between the two calls of the
-- manager.
use osclientcerts.Prelude.{ℕ, Option, none, some, ok, err, Bytes, take, ltb, if◌then◌else◌}
use osclientcerts.Cryptoki.{Rv, ckr_ok, ckr_arguments_bad, CkMechanism}
use osclientcerts.Mechanism.{parse_rsa_cipher_mechanism}
use osclientcerts.Util.Errors.{crypto_error_to_rv}
use osclientcerts.Backend.{Backend}
use osclientcerts.Proxy.Calls.{
  start_encrypt, get_encrypted_length, encrypt, encrypt_update, get_final_encrypted_length,
  encrypt_final,
}
use osclientcerts.Provider.{Outcome, returns, waits, faults, Provider, call_manager, status}
use osclientcerts.Provider.Buffers.{max_data_len, input_slice, Output, deliver, handed_out}

module _ (B : Backend) where
  unfoldable pub c_encrypt_init :
      B.Os → ℕ → Option CkMechanism → ℕ → Provider B → Outcome (Rv × Provider B)
  c_encrypt_init os session none key_handle s = returns (ckr_arguments_bad, s)
  c_encrypt_init os session (some m) key_handle s = elim (parse_rsa_cipher_mechanism B.cryptoki m) [
    | err rv ↦ returns (rv, s)
    | ok mechanism ↦ status B (
        call_manager B (crypto_error_to_rv B.on_windows)
          (start_encrypt B os session key_handle mechanism) s)
  ]

  unfoldable pub c_encrypt :
      B.Os
      → B.Os
      → ℕ
      → Option Bytes
      → ℕ
      → Option Output
      → Provider B
      → Outcome (Rv × Option Output × Provider B)
  c_encrypt os later session bytes data_len out s = elim bytes [
    | none ↦ returns (ckr_arguments_bad, out, s)
    | some input ↦ elim out [
      | none ↦ returns (ckr_arguments_bad, none, s)
      | some to ↦
          if ltb max_data_len data_len
          then returns (ckr_arguments_bad, some to, s)
          else handed_out B (
              deliver B
                (call_manager B (crypto_error_to_rv B.on_windows)
                  (get_encrypted_length B os session (take data_len input)))
                (call_manager B (crypto_error_to_rv B.on_windows)
                  (encrypt B later session (take data_len input)))
                to s)
    ]
  ]

  -- The part has no output, which the length `0` tells the caller.
  unfoldable pub c_encrypt_update :
      B.Os → ℕ → Option Bytes → ℕ → Option ℕ → Provider B → Outcome (Rv × Option ℕ × Provider B)
  c_encrypt_update os session part part_len none s = returns (ckr_arguments_bad, none, s)
  c_encrypt_update os session part part_len (some len) s =
      if ltb max_data_len part_len
      then returns (ckr_arguments_bad, some len, s)
      else elim (input_slice part part_len) [
        | err rv ↦ returns (rv, some len, s)
        | ok slice ↦
            elim (call_manager B (crypto_error_to_rv B.on_windows)
              (encrypt_update B os session slice) s) [
                | waits ↦ waits
                | faults ↦ faults
                | returns (err rv, t) ↦ returns (rv, some len, t)
                | returns (ok _, t) ↦ returns (ckr_ok, some 0, t)
              ]
      ]

  unfoldable pub c_encrypt_final :
      B.Os → B.Os → ℕ → Option Output → Provider B → Outcome (Rv × Option Output × Provider B)
  c_encrypt_final os later session none s = returns (ckr_arguments_bad, none, s)
  c_encrypt_final os later session (some to) s = handed_out B (
      deliver B
        (call_manager B (crypto_error_to_rv B.on_windows) (get_final_encrypted_length B os session))
        (call_manager B (crypto_error_to_rv B.on_windows) (encrypt_final B later session)) to s)

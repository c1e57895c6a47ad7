-- ===== src/Provider/Sign.antt =====
-- src/lib.rs: C_SignInit, C_Sign, C_SignUpdate and C_SignFinal. A null length pointer is `none` in
-- place of the caller's output. The operating system may have changed between the two calls of the
-- manager.
use osclientcerts.Prelude.{
  ℕ, Option, none, some, ok, err, Bytes, take, ltb, ◌==◌, ◌!=◌, if◌then◌else◌,
}
use osclientcerts.Cryptoki.{Rv, ckr_arguments_bad, CkMechanism, PssParams}
use osclientcerts.Util.Errors.{crypto_error_to_rv}
use osclientcerts.Backend.{Backend}
use osclientcerts.Proxy.Calls.{
  start_sign, get_signature_length, sign, sign_update, get_final_signature_length, sign_final,
}
use osclientcerts.Provider.{Outcome, returns, faults, Provider, call_manager, status}
use osclientcerts.Provider.Buffers.{max_data_len, input_slice, Output, deliver, handed_out}

module _ (B : Backend) where
  -- The parameters of CKM_RSA_PKCS_PSS are read without a test of the pointer.
  unfoldable pub c_sign_init :
      B.Os → ℕ → Option CkMechanism → ℕ → Provider B → Outcome (Rv × Provider B)
  c_sign_init os session none key_handle s = returns (ckr_arguments_bad, s)
  c_sign_init os session (some m) key_handle s =
      let start = λ (params : Option PssParams).
        call_manager B (crypto_error_to_rv B.on_windows) (start_sign B os session key_handle params)
          s in
      if m.mechanism == B.cryptoki.ckm_rsa_pkcs_pss
      then (if m.parameter_len != B.cryptoki.pss_params_size
          then returns (ckr_arguments_bad, s)
          else elim m.parameter [ none ↦ faults | some p ↦ status B (start (some p.pss)) ])
      else status B (start none)

  unfoldable pub c_sign :
      B.Os
      → B.Os
      → ℕ
      → Option Bytes
      → ℕ
      → Option Output
      → Provider B
      → Outcome (Rv × Option Output × Provider B)
  c_sign os later session bytes data_len out s = elim bytes [
    | none ↦ returns (ckr_arguments_bad, out, s)
    | some input ↦ elim out [
      | none ↦ returns (ckr_arguments_bad, none, s)
      | some to ↦
          if ltb max_data_len data_len
          then returns (ckr_arguments_bad, some to, s)
          else handed_out B (
              deliver B
                (call_manager B (crypto_error_to_rv B.on_windows)
                  (get_signature_length B os session (take data_len input)))
                (call_manager B (crypto_error_to_rv B.on_windows)
                  (sign B later session (take data_len input)))
                to s)
    ]
  ]

  unfoldable pub c_sign_update :
      B.Os → ℕ → Option Bytes → ℕ → Provider B → Outcome (Rv × Provider B)
  c_sign_update os session part part_len s =
      if ltb max_data_len part_len
      then returns (ckr_arguments_bad, s)
      else elim (input_slice part part_len) [
        | err rv ↦ returns (rv, s)
        | ok slice ↦
            status B
              (call_manager B (crypto_error_to_rv B.on_windows) (sign_update B os session slice) s)
      ]

  unfoldable pub c_sign_final :
      B.Os → B.Os → ℕ → Option Output → Provider B → Outcome (Rv × Option Output × Provider B)
  c_sign_final os later session none s = returns (ckr_arguments_bad, none, s)
  c_sign_final os later session (some to) s = handed_out B (
      deliver B
        (call_manager B (crypto_error_to_rv B.on_windows) (get_final_signature_length B os session))
        (call_manager B (crypto_error_to_rv B.on_windows) (sign_final B later session)) to s)

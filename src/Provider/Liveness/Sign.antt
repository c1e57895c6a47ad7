-- ===== src/Provider/Liveness/Sign.antt =====
-- C_SignInit, C_Sign, C_SignUpdate and C_SignFinal do not wait for ever.
use osclientcerts.Prelude.{
  ℕ, Option, none, some, Bytes, take, ltb, ◌==◌, ◌!=◌, inl, inr, Result-cases,
}
use osclientcerts.Cryptoki.{CkMechanism, Parameter, PssParams}
use osclientcerts.Util.Errors.{crypto_error_to_rv}
use osclientcerts.Backend.{Backend}
use osclientcerts.Manager.Sign
use osclientcerts.Proxy.Calls
use osclientcerts.Proxy.Identical.{proxy-IsIdentical}
use osclientcerts.Provider.{faults, Provider, call_manager, status}
use osclientcerts.Provider.Buffers.{Output, max_data_len, input_slice}
use osclientcerts.Provider.Calls.{settle}
use osclientcerts.Provider.Live.{
  IsSettled, Lives, Serves, call_manager-Returns, status-Lives, deliver-Lives, guard-Lives,
  guard_settled-Lives,
}
use osclientcerts.Provider.Sign.{c_sign_init, c_sign, c_sign_update, c_sign_final}

module _ (B : Backend) (os : B.Os) where
  start_sign-Serves :
      (session key_handle : ℕ) (params : Option PssParams)
      → Serves B (Calls.start_sign B os session key_handle params)
  start_sign-Serves session key_handle params m = (
    (Sign.start_sign B session key_handle params m).0,
    (Sign.start_sign B session key_handle params m).1,
    (proxy-IsIdentical B os m).start_sign session key_handle params,
  )

  get_signature_length-Serves :
      (session : ℕ) (input : Bytes) → Serves B (Calls.get_signature_length B os session input)
  get_signature_length-Serves session input m = (
    (Sign.get_signature_length B os session input m).0,
    (Sign.get_signature_length B os session input m).1,
    (proxy-IsIdentical B os m).get_signature_length session input,
  )

  sign-Serves : (session : ℕ) (input : Bytes) → Serves B (Calls.sign B os session input)
  sign-Serves session input m = (
    (Sign.sign B os session input m).0,
    (Sign.sign B os session input m).1,
    (proxy-IsIdentical B os m).sign session input,
  )

  sign_update-Serves :
      (session : ℕ) (input : Bytes) → Serves B (Calls.sign_update B os session input)
  sign_update-Serves session input m = (
    (Sign.sign_update B session input m).0,
    (Sign.sign_update B session input m).1,
    (proxy-IsIdentical B os m).sign_update session input,
  )

  get_final_signature_length-Serves :
      (session : ℕ) → Serves B (Calls.get_final_signature_length B os session)
  get_final_signature_length-Serves session m = (
    (Sign.get_final_signature_length B os session m).0,
    (Sign.get_final_signature_length B os session m).1,
    (proxy-IsIdentical B os m).get_final_signature_length session,
  )

  sign_final-Serves : (session : ℕ) → Serves B (Calls.sign_final B os session)
  sign_final-Serves session m = (
    (Sign.sign_final B os session m).0,
    (Sign.sign_final B os session m).1,
    (proxy-IsIdentical B os m).sign_final session,
  )

module _ (B : Backend) (s : Provider B) (h : IsSettled B s) where
  started-Lives :
      (os : B.Os) (session key_handle : ℕ) (params : Option PssParams)
      → Lives B (
          status B (
            call_manager B
              (crypto_error_to_rv B.on_windows)
              (Calls.start_sign B os session key_handle params)
              s))
  started-Lives os session key_handle params =
      status-Lives B _
        (call_manager-Returns B _ _ (start_sign-Serves B os session key_handle params) s h)

  -- The parameters of PSS, behind the test of their size.
  pss-Lives :
      (os : B.Os) (session key_handle : ℕ) (parameter : Option Parameter)
      → Lives B (elim parameter [
        | none ↦ faults
        | some p ↦ status B (
            call_manager B
              (crypto_error_to_rv B.on_windows)
              (Calls.start_sign B os session key_handle (some p.pss))
              s)
      ])
  pss-Lives os session key_handle none = tt
  pss-Lives os session key_handle (some p) = started-Lives os session key_handle (some p.pss)

  pub c_sign_init-Lives :
      (os : B.Os) (session : ℕ) (mechanism : Option CkMechanism) (key_handle : ℕ)
      → Lives B (c_sign_init B os session mechanism key_handle s)
  unfolding c_sign_init
  c_sign_init-Lives os session none key_handle = h
  c_sign_init-Lives os session (some m) key_handle =
      guard-Lives B (m.mechanism == B.cryptoki.ckm_rsa_pkcs_pss) _ _
        (guard-Lives B (m.parameter_len != B.cryptoki.pss_params_size) _ _ h
          (pss-Lives os session key_handle m.parameter))
        (started-Lives os session key_handle none)

  pub c_sign-Lives :
      (os later : B.Os) (session : ℕ) (bytes : Option Bytes) (data_len : ℕ) (out : Option Output)
      → Lives B (settle (c_sign B os later session bytes data_len out s))
  unfolding c_sign
  c_sign-Lives os later session none data_len out = h
  c_sign-Lives os later session (some input) data_len none = h
  c_sign-Lives os later session (some input) data_len (some to) =
      guard_settled-Lives B (ltb max_data_len data_len) _ _ h (
        deliver-Lives B _ _
          (λ t settled.
            call_manager-Returns B _ _ (sign-Serves B later session (take data_len input)) t
              settled)
          to s
          (call_manager-Returns B _ _
            (get_signature_length-Serves B os session (take data_len input)) s h))

  pub c_sign_final-Lives :
      (os later : B.Os) (session : ℕ) (out : Option Output)
      → Lives B (settle (c_sign_final B os later session out s))
  unfolding c_sign_final
  c_sign_final-Lives os later session none = h
  c_sign_final-Lives os later session (some to) =
      deliver-Lives B _ _
        (λ t settled. call_manager-Returns B _ _ (sign_final-Serves B later session) t settled) to s
        (call_manager-Returns B _ _ (get_final_signature_length-Serves B os session) s h)

  pub c_sign_update-Lives :
      (os : B.Os) (session : ℕ) (part : Option Bytes) (part_len : ℕ)
      → Lives B (c_sign_update B os session part part_len s)
  unfolding c_sign_update
  c_sign_update-Lives os session part part_len = elim (Result-cases (input_slice part part_len)) [
    | inl (rv, e) ↦ rw (c_sign_update, e) (guard-Lives B (ltb max_data_len part_len) _ _ h h)
    | inr (slice, e) ↦
        rw (c_sign_update, e)
          (guard-Lives B (ltb max_data_len part_len) _ _ h (
            status-Lives B _
              (call_manager-Returns B _ _ (sign_update-Serves B os session slice) s h)))
  ]

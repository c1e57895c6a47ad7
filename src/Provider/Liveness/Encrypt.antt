-- ===== src/Provider/Liveness/Encrypt.antt =====
-- C_EncryptInit, C_Encrypt, C_EncryptUpdate and C_EncryptFinal do not wait for ever.
use osclientcerts.Prelude.{ℕ, Option, none, some, ok, err, Bytes, take, ltb, inl, inr, Result-cases}
use osclientcerts.Cryptoki.{ckr_ok, CkMechanism}
use osclientcerts.Mechanism.{RsaCipherMechanism, parse_rsa_cipher_mechanism}
use osclientcerts.Backend.{Backend}
use osclientcerts.Manager.Encrypt
use osclientcerts.Proxy.Calls
use osclientcerts.Proxy.Identical.{proxy-IsIdentical}
use osclientcerts.Provider.{returns, waits, faults, Provider, Step}
use osclientcerts.Provider.Buffers.{Output, max_data_len, input_slice}
use osclientcerts.Provider.Calls.{settle}
use osclientcerts.Provider.Live.{
  IsSettled, Lives, Serves, Returns, call_manager-Returns, status-Lives, deliver-Lives,
  guard_settled-Lives,
}
use osclientcerts.Provider.Encrypt.{c_encrypt_init, c_encrypt, c_encrypt_update, c_encrypt_final}

module _ (B : Backend) (os : B.Os) where
  start_encrypt-Serves :
      (session key_handle : ℕ) (params : RsaCipherMechanism)
      → Serves B (Calls.start_encrypt B os session key_handle params)
  start_encrypt-Serves session key_handle params m = (
    (Encrypt.start_encrypt B session key_handle params m).0,
    (Encrypt.start_encrypt B session key_handle params m).1,
    (proxy-IsIdentical B os m).start_encrypt session key_handle params,
  )

  get_encrypted_length-Serves :
      (session : ℕ) (input : Bytes) → Serves B (Calls.get_encrypted_length B os session input)
  get_encrypted_length-Serves session input m = (
    (Encrypt.get_encrypted_length B os session input m).0,
    (Encrypt.get_encrypted_length B os session input m).1,
    (proxy-IsIdentical B os m).get_encrypted_length session input,
  )

  encrypt-Serves : (session : ℕ) (input : Bytes) → Serves B (Calls.encrypt B os session input)
  encrypt-Serves session input m = (
    (Encrypt.encrypt B os session input m).0,
    (Encrypt.encrypt B os session input m).1,
    (proxy-IsIdentical B os m).encrypt session input,
  )

  encrypt_update-Serves :
      (session : ℕ) (input : Bytes) → Serves B (Calls.encrypt_update B os session input)
  encrypt_update-Serves session input m = (
    (Encrypt.encrypt_update B session input m).0,
    (Encrypt.encrypt_update B session input m).1,
    (proxy-IsIdentical B os m).encrypt_update session input,
  )

  get_final_encrypted_length-Serves :
      (session : ℕ) → Serves B (Calls.get_final_encrypted_length B os session)
  get_final_encrypted_length-Serves session m = (
    (Encrypt.get_final_encrypted_length B os session m).0,
    (Encrypt.get_final_encrypted_length B os session m).1,
    (proxy-IsIdentical B os m).get_final_encrypted_length session,
  )

  encrypt_final-Serves : (session : ℕ) → Serves B (Calls.encrypt_final B os session)
  encrypt_final-Serves session m = (
    (Encrypt.encrypt_final B os session m).0,
    (Encrypt.encrypt_final B os session m).1,
    (proxy-IsIdentical B os m).encrypt_final session,
  )

module _ (B : Backend) (s : Provider B) (h : IsSettled B s) where
  pub c_encrypt_init-Lives :
      (os : B.Os) (session : ℕ) (mechanism : Option CkMechanism) (key_handle : ℕ)
      → Lives B (c_encrypt_init B os session mechanism key_handle s)
  unfolding c_encrypt_init
  c_encrypt_init-Lives os session none key_handle = h
  c_encrypt_init-Lives os session (some m) key_handle =
      elim (Result-cases (parse_rsa_cipher_mechanism B.cryptoki m)) [
        | inl (rv, e) ↦ rw (c_encrypt_init, e) h
        | inr (mechanism, e) ↦
            rw (c_encrypt_init, e)
              (status-Lives B _ (
                call_manager-Returns B _ _ (start_encrypt-Serves B os session key_handle mechanism)
                  s h))
      ]

  pub c_encrypt-Lives :
      (os later : B.Os) (session : ℕ) (bytes : Option Bytes) (data_len : ℕ) (out : Option Output)
      → Lives B (settle (c_encrypt B os later session bytes data_len out s))
  unfolding c_encrypt
  c_encrypt-Lives os later session none data_len out = h
  c_encrypt-Lives os later session (some input) data_len none = h
  c_encrypt-Lives os later session (some input) data_len (some to) =
      guard_settled-Lives B (ltb max_data_len data_len) _ _ h (
        deliver-Lives B _ _
          (λ t settled.
            call_manager-Returns B _ _ (encrypt-Serves B later session (take data_len input)) t
              settled)
          to s
          (call_manager-Returns B _ _
            (get_encrypted_length-Serves B os session (take data_len input)) s h))

  pub c_encrypt_final-Lives :
      (os later : B.Os) (session : ℕ) (out : Option Output)
      → Lives B (settle (c_encrypt_final B os later session out s))
  unfolding c_encrypt_final
  c_encrypt_final-Lives os later session none = h
  c_encrypt_final-Lives os later session (some to) =
      deliver-Lives B _ _
        (λ t settled. call_manager-Returns B _ _ (encrypt_final-Serves B later session) t settled)
        to s (call_manager-Returns B _ _ (get_final_encrypted_length-Serves B os session) s h)

  -- The length `0`, behind the manager's answer.
  updated-Lives :
      (len : ℕ) (step : Step B (Unit {0}))
      → Returns B step
      → Lives B (
          settle {A = Option ℕ} (elim step [
            | waits ↦ waits
            | faults ↦ faults
            | returns (err rv, t) ↦ returns (rv, some len, t)
            | returns (ok _, t) ↦ returns (ckr_ok, some 0, t)
          ]))
  updated-Lives len step r = elim (Result-cases r.result) [
    | inl (rv, e) ↦ rw (r.same, e) r.settled
    | inr (_, e) ↦ rw (r.same, e) r.settled
  ]

  pub c_encrypt_update-Lives :
      (os : B.Os) (session : ℕ) (part : Option Bytes) (part_len : ℕ) (len : Option ℕ)
      → Lives B (settle (c_encrypt_update B os session part part_len len s))
  unfolding c_encrypt_update
  c_encrypt_update-Lives os session part part_len none = h
  c_encrypt_update-Lives os session part part_len (some len) =
      elim (Result-cases (input_slice part part_len)) [
        | inl (rv, e) ↦
            rw (c_encrypt_update, e) (guard_settled-Lives B (ltb max_data_len part_len) _ _ h h)
        | inr (slice, e) ↦
            rw (c_encrypt_update, e)
              (guard_settled-Lives B (ltb max_data_len part_len) _ _ h (
                updated-Lives len _
                  (call_manager-Returns B _ _ (encrypt_update-Serves B os session slice) s h)))
      ]

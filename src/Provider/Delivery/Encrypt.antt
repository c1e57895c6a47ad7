-- ===== src/Provider/Delivery/Encrypt.antt =====
-- C_Encrypt and C_EncryptFinal with and without memory for the result.
use osclientcerts.Prelude.{ℕ, ◌≤◌, ◌<◌, ◌≡◌, refl, ok, some, Bytes, take, ltb, arith, false}
use osclientcerts.Backend.{Backend}
use osclientcerts.Util.Errors.{crypto_error_to_rv}
use osclientcerts.Manager.State.{Manager}
use osclientcerts.Manager.Encrypt
use osclientcerts.Manager.Queries.{same_get_encrypted_length, same_get_final_encrypted_length}
use osclientcerts.Proxy.Calls
use osclientcerts.Proxy.Identical.{proxy-IsIdentical}
use osclientcerts.Provider.Buffers.{max_data_len}
use osclientcerts.Provider.Delivery.{Delivers, deliver-Delivers}
use osclientcerts.Provider.Encrypt.{c_encrypt, c_encrypt_final}
use osclientcerts.Provider.Ready.{ready, call_manager-ok}

module _ (B : Backend) (os later : B.Os) (m m_after : Manager B) (session needed : ℕ) where
  module _ (output memory : Bytes) (small large : ℕ) where
    -- Where the manager answers the length query for at most 64 KiB of input with a length, and
    -- then encrypt with a ciphertext, C_Encrypt without memory, or with memory for fewer bytes than that
    -- length, reports it and leaves the provider as it was, and with memory for so many bytes
    -- writes the ciphertext and its length and leaves the manager that encrypt leaves.
    pub c_encrypt-Delivers :
        (bytes : Bytes) (data_len : ℕ)
        → data_len ≤ max_data_len
        → (Encrypt.get_encrypted_length B os session (take data_len bytes) m).0 ≡ ok needed
        → Encrypt.encrypt B later session (take data_len bytes) m ≡ (ok output, m_after)
        → small < needed
        → needed ≤ large
        → Delivers B
            (λ out. c_encrypt B os later session (some bytes) data_len (some out) (ready B m))
            m
            m_after
            needed
            output
            memory
            small
            large
    unfolding c_encrypt
    c_encrypt-Delivers bytes data_len bounded el eo hs hl =
        let allowed : ltb max_data_len data_len ≡ false = ground arith in
        rw allowed (
          deliver-Delivers B _ _ m m_after needed output memory small large
            (call_manager-ok B (crypto_error_to_rv B.on_windows)
              (Calls.get_encrypted_length B os session (take data_len bytes)) m m
              (rw
                (
                  (proxy-IsIdentical B os m).get_encrypted_length session (take data_len bytes),
                  same_get_encrypted_length B os m session (take data_len bytes),
                  el,
                )
                refl))
            (call_manager-ok B (crypto_error_to_rv B.on_windows)
              (Calls.encrypt B later session (take data_len bytes)) m m_after
              (rw ((proxy-IsIdentical B later m).encrypt session (take data_len bytes), eo) refl))
            hs hl)

    -- Where the manager answers the final length query with a length, and then encrypt_final with a
    -- ciphertext, C_EncryptFinal without memory, or with memory for fewer bytes than that length, reports
    -- it and leaves the provider as it was, and with memory for so many bytes writes the
    -- ciphertext and its length and leaves the manager that encrypt_final leaves.
    pub c_encrypt_final-Delivers :
        (Encrypt.get_final_encrypted_length B os session m).0 ≡ ok needed
        → Encrypt.encrypt_final B later session m ≡ (ok output, m_after)
        → small < needed
        → needed ≤ large
        → Delivers B
            (λ out. c_encrypt_final B os later session (some out) (ready B m))
            m
            m_after
            needed
            output
            memory
            small
            large
    unfolding c_encrypt_final
    c_encrypt_final-Delivers el eo hs hl =
        deliver-Delivers B _ _ m m_after needed output memory small large
          (call_manager-ok B (crypto_error_to_rv B.on_windows)
            (Calls.get_final_encrypted_length B os session) m m
            (rw
              (
                (proxy-IsIdentical B os m).get_final_encrypted_length session,
                same_get_final_encrypted_length B os m session,
                el,
              )
              refl))
          (call_manager-ok B (crypto_error_to_rv B.on_windows) (Calls.encrypt_final B later session)
            m m_after (rw ((proxy-IsIdentical B later m).encrypt_final session, eo) refl))
          hs hl

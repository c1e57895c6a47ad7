-- ===== src/Provider/Within/Encrypt.antt =====
-- C_Encrypt and C_EncryptFinal write no further than the caller's memory.
use osclientcerts.Prelude.{
  ℕ, ◌≤◌, ◌≡◌, refl, Option, none, some, ok, Bytes, length, take, ltb, Bool-cases, Option-cases,
  inl, inr,
}
use osclientcerts.Mechanism.{RsaCipherMechanism}
use osclientcerts.Util.Errors.{crypto_error_to_rv}
use osclientcerts.BTreeMap.{get}
use osclientcerts.Backend.{Backend, ObjectOf, cert, key, trust}
use osclientcerts.Manager.State.{Manager}
use osclientcerts.Manager.Encrypt
use osclientcerts.Manager.Encrypt.{encrypt_length_with, encrypt_with}
use osclientcerts.Manager.Queries.{same_get_encrypted_length, same_get_final_encrypted_length}
use osclientcerts.Proxy.Calls
use osclientcerts.Proxy.Identical.{proxy-IsIdentical}
use osclientcerts.Provider.Buffers.{max_data_len}
use osclientcerts.Provider.Delivery.{to}
use osclientcerts.Provider.Encrypt.{c_encrypt, c_encrypt_final}
use osclientcerts.Provider.Ready.{ready}
use osclientcerts.Provider.Within.{call_manager-carried, memory_after, deliver-within}

module _ (B : Backend)
    (cert_law : (os later : B.Os) (k : B.Cert) (input : Bytes) (params : RsaCipherMechanism) (n : ℕ)
        (output : Bytes)
      → B.cert_encrypt_length os k input params ≡ ok n
      → B.cert_encrypt later k input params ≡ ok output
      → length output ≤ n)
    (key_law : (os later : B.Os) (k : B.Key) (input : Bytes) (params : RsaCipherMechanism) (n : ℕ)
        (output : Bytes)
      → B.key_encrypt_length os k input params ≡ ok n
      → B.key_encrypt later k input params ≡ ok output
      → length output ≤ n)
    (os later : B.Os) (m : Manager B) (session : ℕ) where
  encrypt_with-length :
      (object : Option (ObjectOf B)) (input : Bytes) (params : RsaCipherMechanism) (n : ℕ)
      (output : Bytes)
      → encrypt_length_with B os object input params ≡ ok n
      → encrypt_with B later object input params ≡ ok output
      → length output ≤ n
  unfolding encrypt_length_with encrypt_with
  encrypt_with-length none input params n output el eo = cc
  encrypt_with-length (some (cert c)) input params n output el eo =
      cert_law os later c input params n output el eo
  encrypt_with-length (some (key k)) input params n output el eo =
      key_law os later k input params n output el eo
  encrypt_with-length (some (trust t)) input params n output el eo = cc

  encrypt-length :
      (input : Bytes) (n : ℕ) (output : Bytes)
      → (Encrypt.get_encrypted_length B os session input m).0 ≡ ok n
      → (Encrypt.encrypt B later session input m).0 ≡ ok output
      → length output ≤ n
  unfolding Encrypt.get_encrypted_length Encrypt.encrypt
  encrypt-length input n output el eo = elim (Option-cases (get m.encrypts session)) [
    | inl e ↦ absurd (cc)
    | inr (op, e) ↦
        let asked : encrypt_length_with B os (get m.objects op.handle) input op.params ≡ ok n =
          cc in
        let given : encrypt_with B later (get m.objects op.handle) input op.params ≡ ok output =
          cc in
        encrypt_with-length (get m.objects op.handle) input op.params n output asked given
  ]

  encrypt_final-length :
      (n : ℕ) (output : Bytes)
      → (Encrypt.get_final_encrypted_length B os session m).0 ≡ ok n
      → (Encrypt.encrypt_final B later session m).0 ≡ ok output
      → length output ≤ n
  unfolding Encrypt.get_final_encrypted_length Encrypt.encrypt_final
  encrypt_final-length n output el eo = elim (Option-cases (get m.encrypts session)) [
    | inl e ↦ absurd (cc)
    | inr (op, e) ↦
        let asked : encrypt_length_with B os (get m.objects op.handle) op.buffer op.params ≡ ok n =
          cc in
        let given : encrypt_with B later (get m.objects op.handle) op.buffer op.params ≡ ok output =
          cc in
        encrypt_with-length (get m.objects op.handle) op.buffer op.params n output asked given
  ]

  module _ (memory : Bytes) (len : ℕ) (fits : len ≤ length memory) where
    c_encrypt-within :
        (bytes : Option Bytes) (data_len : ℕ)
        → memory_after
            (c_encrypt B os later session bytes data_len (some (to (some memory) len)) (ready B m))
          ≡ some (length memory)
    unfolding c_encrypt
    c_encrypt-within none data_len = refl
    c_encrypt-within (some bytes) data_len = elim (Bool-cases (ltb max_data_len data_len)) [
      | inl large ↦ rw large refl
      | inr small ↦
          let input = take data_len bytes in
          rw small (
            deliver-within B (crypto_error_to_rv B.on_windows) m
              (Encrypt.encrypt B later session input m).1 memory len _ _
              (Encrypt.get_encrypted_length B os session input m).0
              (Encrypt.encrypt B later session input m).0
              (call_manager-carried B (crypto_error_to_rv B.on_windows)
                (Calls.get_encrypted_length B os session input) m m _
                (rw
                  (
                    (proxy-IsIdentical B os m).get_encrypted_length session input,
                    same_get_encrypted_length B os m session input,
                  )
                  refl))
              (call_manager-carried B (crypto_error_to_rv B.on_windows)
                (Calls.encrypt B later session input) m _ _
                ((proxy-IsIdentical B later m).encrypt session input))
              (encrypt-length input) fits)
    ]

    c_encrypt_final-within :
        memory_after (c_encrypt_final B os later session (some (to (some memory) len)) (ready B m))
        ≡ some (length memory)
    unfolding c_encrypt_final
    c_encrypt_final-within =
        deliver-within B (crypto_error_to_rv B.on_windows) m
          (Encrypt.encrypt_final B later session m).1 memory len _ _
          (Encrypt.get_final_encrypted_length B os session m).0
          (Encrypt.encrypt_final B later session m).0
          (call_manager-carried B (crypto_error_to_rv B.on_windows)
            (Calls.get_final_encrypted_length B os session) m m _
            (rw
              (
                (proxy-IsIdentical B os m).get_final_encrypted_length session,
                same_get_final_encrypted_length B os m session,
              )
              refl))
          (call_manager-carried B (crypto_error_to_rv B.on_windows)
            (Calls.encrypt_final B later session) m _ _
            ((proxy-IsIdentical B later m).encrypt_final session))
          encrypt_final-length fits

    -- With a backend for which no ciphertext is longer than the length query said, at
    -- whatever time the two are asked, C_Encrypt with any input and C_EncryptFinal return, and there is as
    -- much memory behind the caller's pointer as before: nothing is written past it, if the length
    -- that the caller claims is no more than there is.
    pub encrypt_within :
        (bytes : Option Bytes) (data_len : ℕ)
        → (memory_after (
              c_encrypt B os later session bytes data_len (some (to (some memory) len)) (ready B m))
            ≡ some (length memory))
          × (memory_after
                (c_encrypt_final B os later session (some (to (some memory) len)) (ready B m))
              ≡ some (length memory))
    encrypt_within bytes data_len = (c_encrypt-within bytes data_len, c_encrypt_final-within)

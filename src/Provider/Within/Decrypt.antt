-- ===== src/Provider/Within/Decrypt.antt =====
-- C_Decrypt and C_DecryptFinal write no further than the caller's memory.
use osclientcerts.Prelude.{
  ℕ, ◌≤◌, ◌≡◌, refl, Option, none, some, ok, Bytes, length, take, ltb, Bool-cases, Option-cases,
  inl, inr,
}
use osclientcerts.Mechanism.{RsaCipherMechanism}
use osclientcerts.Util.Errors.{crypto_error_to_rv}
use osclientcerts.BTreeMap.{get}
use osclientcerts.Backend.{Backend, ObjectOf, cert, key, trust}
use osclientcerts.Manager.State.{Manager, as_key}
use osclientcerts.Manager.Decrypt
use osclientcerts.Manager.Decrypt.{decrypt_length_with, decrypt_with}
use osclientcerts.Manager.Queries.{same_get_decrypted_length, same_get_final_decrypted_length}
use osclientcerts.Proxy.Calls
use osclientcerts.Proxy.Identical.{proxy-IsIdentical}
use osclientcerts.Provider.Buffers.{max_data_len}
use osclientcerts.Provider.Delivery.{to}
use osclientcerts.Provider.Decrypt.{c_decrypt, c_decrypt_final}
use osclientcerts.Provider.Ready.{ready}
use osclientcerts.Provider.Within.{call_manager-carried, memory_after, deliver-within}

module _ (B : Backend)
    (law : (os later : B.Os) (k : B.Key) (input : Bytes) (params : RsaCipherMechanism) (n : ℕ)
        (output : Bytes)
      → B.decrypt_length os k input params ≡ ok n
      → B.decrypt later k input params ≡ ok output
      → length output ≤ n)
    (os later : B.Os) (m : Manager B) (session : ℕ) where
  decrypt_with-length :
      (object : Option (ObjectOf B)) (input : Bytes) (params : RsaCipherMechanism) (n : ℕ)
      (output : Bytes)
      → decrypt_length_with B os object input params ≡ ok n
      → decrypt_with B later object input params ≡ ok output
      → length output ≤ n
  unfolding decrypt_length_with decrypt_with as_key
  decrypt_with-length none input params n output el eo = cc
  decrypt_with-length (some (cert c)) input params n output el eo = cc
  decrypt_with-length (some (key k)) input params n output el eo =
      law os later k input params n output el eo
  decrypt_with-length (some (trust t)) input params n output el eo = cc

  decrypt-length :
      (input : Bytes) (n : ℕ) (output : Bytes)
      → (Decrypt.get_decrypted_length B os session input m).0 ≡ ok n
      → (Decrypt.decrypt B later session input m).0 ≡ ok output
      → length output ≤ n
  unfolding Decrypt.get_decrypted_length Decrypt.decrypt
  decrypt-length input n output el eo = elim (Option-cases (get m.decrypts session)) [
    | inl e ↦ absurd (cc)
    | inr (op, e) ↦
        let asked : decrypt_length_with B os (get m.objects op.handle) input op.params ≡ ok n =
          cc in
        let given : decrypt_with B later (get m.objects op.handle) input op.params ≡ ok output =
          cc in
        decrypt_with-length (get m.objects op.handle) input op.params n output asked given
  ]

  decrypt_final-length :
      (n : ℕ) (output : Bytes)
      → (Decrypt.get_final_decrypted_length B os session m).0 ≡ ok n
      → (Decrypt.decrypt_final B later session m).0 ≡ ok output
      → length output ≤ n
  unfolding Decrypt.get_final_decrypted_length Decrypt.decrypt_final
  decrypt_final-length n output el eo = elim (Option-cases (get m.decrypts session)) [
    | inl e ↦ absurd (cc)
    | inr (op, e) ↦
        let asked : decrypt_length_with B os (get m.objects op.handle) op.buffer op.params ≡ ok n =
          cc in
        let given : decrypt_with B later (get m.objects op.handle) op.buffer op.params ≡ ok output =
          cc in
        decrypt_with-length (get m.objects op.handle) op.buffer op.params n output asked given
  ]

  module _ (memory : Bytes) (len : ℕ) (fits : len ≤ length memory) where
    c_decrypt-within :
        (bytes : Option Bytes) (data_len : ℕ)
        → memory_after
            (c_decrypt B os later session bytes data_len (some (to (some memory) len)) (ready B m))
          ≡ some (length memory)
    unfolding c_decrypt
    c_decrypt-within none data_len = refl
    c_decrypt-within (some bytes) data_len = elim (Bool-cases (ltb max_data_len data_len)) [
      | inl large ↦ rw large refl
      | inr small ↦
          let input = take data_len bytes in
          rw small (
            deliver-within B (crypto_error_to_rv B.on_windows) m
              (Decrypt.decrypt B later session input m).1 memory len _ _
              (Decrypt.get_decrypted_length B os session input m).0
              (Decrypt.decrypt B later session input m).0
              (call_manager-carried B (crypto_error_to_rv B.on_windows)
                (Calls.get_decrypted_length B os session input) m m _
                (rw
                  (
                    (proxy-IsIdentical B os m).get_decrypted_length session input,
                    same_get_decrypted_length B os m session input,
                  )
                  refl))
              (call_manager-carried B (crypto_error_to_rv B.on_windows)
                (Calls.decrypt B later session input) m _ _
                ((proxy-IsIdentical B later m).decrypt session input))
              (decrypt-length input) fits)
    ]

    c_decrypt_final-within :
        memory_after (c_decrypt_final B os later session (some (to (some memory) len)) (ready B m))
        ≡ some (length memory)
    unfolding c_decrypt_final
    c_decrypt_final-within =
        deliver-within B (crypto_error_to_rv B.on_windows) m
          (Decrypt.decrypt_final B later session m).1 memory len _ _
          (Decrypt.get_final_decrypted_length B os session m).0
          (Decrypt.decrypt_final B later session m).0
          (call_manager-carried B (crypto_error_to_rv B.on_windows)
            (Calls.get_final_decrypted_length B os session) m m _
            (rw
              (
                (proxy-IsIdentical B os m).get_final_decrypted_length session,
                same_get_final_decrypted_length B os m session,
              )
              refl))
          (call_manager-carried B (crypto_error_to_rv B.on_windows)
            (Calls.decrypt_final B later session) m _ _
            ((proxy-IsIdentical B later m).decrypt_final session))
          decrypt_final-length fits

    -- With a backend for which no plaintext is longer than the length query said, at
    -- whatever time the two are asked, C_Decrypt with any input and C_DecryptFinal return, and there is as
    -- much memory behind the caller's pointer as before: nothing is written past it, if the length
    -- that the caller claims is no more than there is.
    pub decrypt_within :
        (bytes : Option Bytes) (data_len : ℕ)
        → (memory_after (
              c_decrypt B os later session bytes data_len (some (to (some memory) len)) (ready B m))
            ≡ some (length memory))
          × (memory_after
                (c_decrypt_final B os later session (some (to (some memory) len)) (ready B m))
              ≡ some (length memory))
    decrypt_within bytes data_len = (c_decrypt-within bytes data_len, c_decrypt_final-within)

-- ===== src/Provider/Within/Sign.antt =====
-- C_Sign and C_SignFinal write no further than the caller's memory.
use osclientcerts.Prelude.{
  ℕ, ◌≤◌, ◌≡◌, refl, Option, none, some, ok, Bytes, length, take, ltb, Bool-cases, Option-cases,
  inl, inr,
}
use osclientcerts.Cryptoki.{PssParams}
use osclientcerts.Util.Errors.{crypto_error_to_rv}
use osclientcerts.BTreeMap.{get}
use osclientcerts.Backend.{Backend, ObjectOf, cert, key, trust}
use osclientcerts.Manager.State.{Manager, as_key}
use osclientcerts.Manager.Sign
use osclientcerts.Manager.Sign.{sign_length_with, sign_with}
use osclientcerts.Manager.Queries.{same_get_signature_length, same_get_final_signature_length}
use osclientcerts.Proxy.Calls
use osclientcerts.Proxy.Identical.{proxy-IsIdentical}
use osclientcerts.Provider.Buffers.{max_data_len}
use osclientcerts.Provider.Delivery.{to}
use osclientcerts.Provider.Sign.{c_sign, c_sign_final}
use osclientcerts.Provider.Ready.{ready}
use osclientcerts.Provider.Within.{call_manager-carried, memory_after, deliver-within}

module _ (B : Backend)
    (law : (os later : B.Os) (k : B.Key) (input : Bytes) (params : Option PssParams) (n : ℕ)
        (output : Bytes)
      → B.get_signature_length os k input params ≡ ok n
      → B.sign later k input params ≡ ok output
      → length output ≤ n)
    (os later : B.Os) (m : Manager B) (session : ℕ) where
  sign_with-length :
      (object : Option (ObjectOf B)) (input : Bytes) (params : Option PssParams) (n : ℕ)
      (output : Bytes)
      → sign_length_with B os object input params ≡ ok n
      → sign_with B later object input params ≡ ok output
      → length output ≤ n
  unfolding sign_length_with sign_with as_key
  sign_with-length none input params n output el eo = cc
  sign_with-length (some (cert c)) input params n output el eo = cc
  sign_with-length (some (key k)) input params n output el eo =
      law os later k input params n output el eo
  sign_with-length (some (trust t)) input params n output el eo = cc

  sign-length :
      (input : Bytes) (n : ℕ) (output : Bytes)
      → (Sign.get_signature_length B os session input m).0 ≡ ok n
      → (Sign.sign B later session input m).0 ≡ ok output
      → length output ≤ n
  unfolding Sign.get_signature_length Sign.sign
  sign-length input n output el eo = elim (Option-cases (get m.signs session)) [
    | inl e ↦ absurd (cc)
    | inr (op, e) ↦
        let asked : sign_length_with B os (get m.objects op.handle) input op.params ≡ ok n = cc in
        let given : sign_with B later (get m.objects op.handle) input op.params ≡ ok output = cc in
        sign_with-length (get m.objects op.handle) input op.params n output asked given
  ]

  sign_final-length :
      (n : ℕ) (output : Bytes)
      → (Sign.get_final_signature_length B os session m).0 ≡ ok n
      → (Sign.sign_final B later session m).0 ≡ ok output
      → length output ≤ n
  unfolding Sign.get_final_signature_length Sign.sign_final
  sign_final-length n output el eo = elim (Option-cases (get m.signs session)) [
    | inl e ↦ absurd (cc)
    | inr (op, e) ↦
        let asked : sign_length_with B os (get m.objects op.handle) op.buffer op.params ≡ ok n =
          cc in
        let given : sign_with B later (get m.objects op.handle) op.buffer op.params ≡ ok output =
          cc in
        sign_with-length (get m.objects op.handle) op.buffer op.params n output asked given
  ]

  module _ (memory : Bytes) (len : ℕ) (fits : len ≤ length memory) where
    c_sign-within :
        (bytes : Option Bytes) (data_len : ℕ)
        → memory_after
            (c_sign B os later session bytes data_len (some (to (some memory) len)) (ready B m))
          ≡ some (length memory)
    unfolding c_sign
    c_sign-within none data_len = refl
    c_sign-within (some bytes) data_len = elim (Bool-cases (ltb max_data_len data_len)) [
      | inl large ↦ rw large refl
      | inr small ↦
          let input = take data_len bytes in
          rw small (
            deliver-within B (crypto_error_to_rv B.on_windows) m
              (Sign.sign B later session input m).1 memory len _ _
              (Sign.get_signature_length B os session input m).0
              (Sign.sign B later session input m).0
              (call_manager-carried B (crypto_error_to_rv B.on_windows)
                (Calls.get_signature_length B os session input) m m _
                (rw
                  (
                    (proxy-IsIdentical B os m).get_signature_length session input,
                    same_get_signature_length B os m session input,
                  )
                  refl))
              (call_manager-carried B (crypto_error_to_rv B.on_windows)
                (Calls.sign B later session input) m _ _
                ((proxy-IsIdentical B later m).sign session input))
              (sign-length input) fits)
    ]

    c_sign_final-within :
        memory_after (c_sign_final B os later session (some (to (some memory) len)) (ready B m))
        ≡ some (length memory)
    unfolding c_sign_final
    c_sign_final-within =
        deliver-within B (crypto_error_to_rv B.on_windows) m (Sign.sign_final B later session m).1
          memory len _ _ (Sign.get_final_signature_length B os session m).0
          (Sign.sign_final B later session m).0
          (call_manager-carried B (crypto_error_to_rv B.on_windows)
            (Calls.get_final_signature_length B os session) m m _
            (rw
              (
                (proxy-IsIdentical B os m).get_final_signature_length session,
                same_get_final_signature_length B os m session,
              )
              refl))
          (call_manager-carried B (crypto_error_to_rv B.on_windows)
            (Calls.sign_final B later session) m _ _
            ((proxy-IsIdentical B later m).sign_final session))
          sign_final-length fits

    -- With a backend for which no signature is longer than the length query said, at
    -- whatever time the two are asked, C_Sign with any input and C_SignFinal return, and there is as
    -- much memory behind the caller's pointer as before: nothing is written past it, if the length
    -- that the caller claims is no more than there is.
    pub sign_within :
        (bytes : Option Bytes) (data_len : ℕ)
        → (memory_after
              (c_sign B os later session bytes data_len (some (to (some memory) len)) (ready B m))
            ≡ some (length memory))
          × (memory_after
                (c_sign_final B os later session (some (to (some memory) len)) (ready B m))
              ≡ some (length memory))
    sign_within bytes data_len = (c_sign-within bytes data_len, c_sign_final-within)

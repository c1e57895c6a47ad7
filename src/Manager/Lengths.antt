-- ===== src/Manager/Lengths.antt =====
-- The manager's length queries, over a backend whose queries agree with its operations.
use osclientcerts.Prelude.{ℕ, Option-cases, inl, inr, Option, none, some, Bytes}
use osclientcerts.Cryptoki.{PssParams}
use osclientcerts.Mechanism.{RsaCipherMechanism}
use osclientcerts.BTreeMap
use osclientcerts.Backend.{Backend, ObjectOf, cert, key, trust}
use osclientcerts.Backend.Lengths.{AnnouncesLengths, Announces, Bounds}
use osclientcerts.Manager.State.{Manager, as_key}
use osclientcerts.Manager.Sign.{
  sign_length_with, sign_with, sign, get_signature_length, sign_final, get_final_signature_length,
}
use osclientcerts.Manager.Decrypt.{
  decrypt_length_with, decrypt_with, decrypt, get_decrypted_length, decrypt_final,
  get_final_decrypted_length,
}
use osclientcerts.Manager.Encrypt.{
  encrypt_length_with, encrypt_with, encrypt, get_encrypted_length, encrypt_final,
  get_final_encrypted_length,
}

module _ (B : Backend) (laws : AnnouncesLengths B) (os : B.Os) where
  sign_with-length :
      (object : Option (ObjectOf B)) (input : Bytes) (params : Option PssParams)
      → Announces (sign_length_with B os object input params) (sign_with B os object input params)
  unfolding sign_with sign_length_with as_key
  sign_with-length none input params = tt
  sign_with-length (some (cert c)) input params = tt
  sign_with-length (some (key c)) input params = laws.sign os c input params
  sign_with-length (some (trust t)) input params = tt

  decrypt_with-length :
      (object : Option (ObjectOf B)) (input : Bytes) (params : RsaCipherMechanism)
      → Bounds
          (decrypt_length_with B os object input params)
          (decrypt_with B os object input params)
  unfolding decrypt_with decrypt_length_with as_key
  decrypt_with-length none input params = tt
  decrypt_with-length (some (cert c)) input params = tt
  decrypt_with-length (some (key c)) input params = laws.decrypt os c input params
  decrypt_with-length (some (trust t)) input params = tt

  encrypt_with-length :
      (object : Option (ObjectOf B)) (input : Bytes) (params : RsaCipherMechanism)
      → Announces
          (encrypt_length_with B os object input params)
          (encrypt_with B os object input params)
  unfolding encrypt_with encrypt_length_with
  encrypt_with-length none input params = tt
  encrypt_with-length (some (cert c)) input params = laws.cert_encrypt os c input params
  encrypt_with-length (some (key c)) input params = laws.key_encrypt os c input params
  encrypt_with-length (some (trust t)) input params = tt

module _ (B : Backend) (laws : AnnouncesLengths B) (os : B.Os) (session : ℕ) (m : Manager B) where
  sign-agrees :
      (input : Bytes)
      → Announces (get_signature_length B os session input m).0 (sign B os session input m).0
  unfolding sign get_signature_length
  sign-agrees input = elim (Option-cases (BTreeMap.get m.signs session)) [
    | inl e ↦ rw (e, sign, get_signature_length) tt
    | inr (op, e) ↦
        rw (e, sign, get_signature_length)
          (sign_with-length B laws os (BTreeMap.get m.objects op.handle) input op.params)
  ]

  sign_final-agrees :
      Announces (get_final_signature_length B os session m).0 (sign_final B os session m).0
  unfolding sign_final get_final_signature_length
  sign_final-agrees = elim (Option-cases (BTreeMap.get m.signs session)) [
    | inl e ↦ rw (e, sign_final, get_final_signature_length) tt
    | inr (op, e) ↦
        rw (e, sign_final, get_final_signature_length)
          (sign_with-length B laws os (BTreeMap.get m.objects op.handle) op.buffer op.params)
  ]

  encrypt-agrees :
      (input : Bytes)
      → Announces (get_encrypted_length B os session input m).0 (encrypt B os session input m).0
  unfolding encrypt get_encrypted_length
  encrypt-agrees input = elim (Option-cases (BTreeMap.get m.encrypts session)) [
    | inl e ↦ rw (e, encrypt, get_encrypted_length) tt
    | inr (op, e) ↦
        rw (e, encrypt, get_encrypted_length)
          (encrypt_with-length B laws os (BTreeMap.get m.objects op.handle) input op.params)
  ]

  encrypt_final-agrees :
      Announces (get_final_encrypted_length B os session m).0 (encrypt_final B os session m).0
  unfolding encrypt_final get_final_encrypted_length
  encrypt_final-agrees = elim (Option-cases (BTreeMap.get m.encrypts session)) [
    | inl e ↦ rw (e, encrypt_final, get_final_encrypted_length) tt
    | inr (op, e) ↦
        rw (e, encrypt_final, get_final_encrypted_length)
          (encrypt_with-length B laws os (BTreeMap.get m.objects op.handle) op.buffer op.params)
  ]

  decrypt-agrees :
      (input : Bytes)
      → Bounds (get_decrypted_length B os session input m).0 (decrypt B os session input m).0
  unfolding decrypt get_decrypted_length
  decrypt-agrees input = elim (Option-cases (BTreeMap.get m.decrypts session)) [
    | inl e ↦ rw (e, decrypt, get_decrypted_length) tt
    | inr (op, e) ↦
        rw (e, decrypt, get_decrypted_length)
          (decrypt_with-length B laws os (BTreeMap.get m.objects op.handle) input op.params)
  ]

  decrypt_final-agrees :
      Bounds (get_final_decrypted_length B os session m).0 (decrypt_final B os session m).0
  unfolding decrypt_final get_final_decrypted_length
  decrypt_final-agrees = elim (Option-cases (BTreeMap.get m.decrypts session)) [
    | inl e ↦ rw (e, decrypt_final, get_final_decrypted_length) tt
    | inr (op, e) ↦
        rw (e, decrypt_final, get_final_decrypted_length)
          (decrypt_with-length B laws os (BTreeMap.get m.objects op.handle) op.buffer op.params)
  ]

  -- On a backend whose length queries agree with its operations, and in one state of the system,
  -- the manager's length query before sign, sign_final, encrypt and encrypt_final answers the length
  -- of what the operation returns if it does, and the query before decrypt and decrypt_final no less.
  pub lengths-agree :
      (input : Bytes)
      → Announces (get_signature_length B os session input m).0 (sign B os session input m).0
        × Announces (get_final_signature_length B os session m).0 (sign_final B os session m).0
        × Announces (get_encrypted_length B os session input m).0 (encrypt B os session input m).0
        × Announces (get_final_encrypted_length B os session m).0 (encrypt_final B os session m).0
        × Bounds (get_decrypted_length B os session input m).0 (decrypt B os session input m).0
        × Bounds (get_final_decrypted_length B os session m).0 (decrypt_final B os session m).0
  lengths-agree input = (
    sign-agrees input,
    sign_final-agrees,
    encrypt-agrees input,
    encrypt_final-agrees,
    decrypt-agrees input,
    decrypt_final-agrees,
  )

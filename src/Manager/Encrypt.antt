-- ===== src/Manager/Encrypt.antt =====
-- src/manager.rs: encrypt operations.
use osclientcerts.Prelude.{
  ℕ, ◌+◌, Option, none, some, ◌++◌, [], Result, ok, err, Bytes, length, ltb, if◌then◌else◌,
}
use osclientcerts.Mechanism.{RsaCipherMechanism}
use osclientcerts.Util.Errors.{
  CryptoError, operation_failed, invalid_key, data_too_large, max_total_operation_data_len,
}
use osclientcerts.BTreeMap
use osclientcerts.BTreeMap.{contains_key}
use osclientcerts.Backend.{Backend, ObjectOf, cert, key, trust}
use osclientcerts.Manager.State.{Manager}

module _ (B : Backend) where
  -- The backend's length and result, on the object that a handle names: a certificate or a key.
  unfoldable pub encrypt_length_with :
      B.Os → Option (ObjectOf B) → Bytes → RsaCipherMechanism → Result ℕ CryptoError
  encrypt_length_with os none input params = err invalid_key
  encrypt_length_with os (some (cert c)) input params = B.cert_encrypt_length os c input params
  encrypt_length_with os (some (key k)) input params = B.key_encrypt_length os k input params
  encrypt_length_with os (some (trust t)) input params = err invalid_key

  unfoldable pub encrypt_with :
      B.Os → Option (ObjectOf B) → Bytes → RsaCipherMechanism → Result Bytes CryptoError
  encrypt_with os none input params = err invalid_key
  encrypt_with os (some (cert c)) input params = B.cert_encrypt os c input params
  encrypt_with os (some (key k)) input params = B.key_encrypt os k input params
  encrypt_with os (some (trust t)) input params = err invalid_key

  unfoldable pub accepts_encrypt : Option (ObjectOf B) → Result (Unit {0}) CryptoError
  accepts_encrypt none = err invalid_key
  accepts_encrypt (some (cert c)) = ok tt
  accepts_encrypt (some (key k)) = ok tt
  accepts_encrypt (some (trust t)) = err invalid_key

  unfoldable pub start_encrypt :
      ℕ → ℕ → RsaCipherMechanism → Manager B → Result (Unit {0}) CryptoError × Manager B
  start_encrypt session key_handle params m =
      if contains_key m.encrypts session
      then (err operation_failed, m)
      else elim (accepts_encrypt (BTreeMap.get m.objects key_handle)) [
        | err e ↦ (err e, m)
        | ok _ ↦ (
          ok tt,
          record m {
            encrypts =
                BTreeMap.insert m.encrypts session
                  (record { handle = key_handle; params = params; buffer = [] });
          },
        )
      ]

  unfoldable pub get_encrypted_length :
      B.Os → ℕ → Bytes → Manager B → Result ℕ CryptoError × Manager B
  get_encrypted_length os session input m = elim (BTreeMap.get m.encrypts session) [
    | none ↦ (err operation_failed, m)
    | some op ↦ (encrypt_length_with os (BTreeMap.get m.objects op.handle) input op.params, m)
  ]

  -- The operation is over, whatever the backend answers.
  unfoldable pub encrypt : B.Os → ℕ → Bytes → Manager B → Result Bytes CryptoError × Manager B
  encrypt os session input m = elim (BTreeMap.get m.encrypts session) [
    | none ↦ (err operation_failed, m)
    | some op ↦ (
      encrypt_with os (BTreeMap.get m.objects op.handle) input op.params,
      record m { encrypts = BTreeMap.remove m.encrypts session },
    )
  ]

  -- Appends a part; the sum of two slice lengths cannot overflow a `usize`.
  unfoldable pub encrypt_update : ℕ → Bytes → Manager B → Result (Unit {0}) CryptoError × Manager B
  encrypt_update session input m = elim (BTreeMap.get m.encrypts session) [
    | none ↦ (err operation_failed, m)
    | some op ↦
        if ltb max_total_operation_data_len (length op.buffer + length input)
        then (err data_too_large, m)
        else (
          ok tt,
          record m {
            encrypts =
                BTreeMap.insert m.encrypts session (record op { buffer = op.buffer ++ input });
          },
        )
  ]

  unfoldable pub get_final_encrypted_length :
      B.Os → ℕ → Manager B → Result ℕ CryptoError × Manager B
  get_final_encrypted_length os session m = elim (BTreeMap.get m.encrypts session) [
    | none ↦ (err operation_failed, m)
    | some op ↦ (encrypt_length_with os (BTreeMap.get m.objects op.handle) op.buffer op.params, m)
  ]

  unfoldable pub encrypt_final : B.Os → ℕ → Manager B → Result Bytes CryptoError × Manager B
  encrypt_final os session m = elim (BTreeMap.get m.encrypts session) [
    | none ↦ (err operation_failed, m)
    | some op ↦ (
      encrypt_with os (BTreeMap.get m.objects op.handle) op.buffer op.params,
      record m { encrypts = BTreeMap.remove m.encrypts session },
    )
  ]

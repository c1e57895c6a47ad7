-- ===== src/Manager/Decrypt.antt =====
-- src/manager.rs: decrypt operations.
use osclientcerts.Prelude.{
  ℕ, ◌+◌, Option, none, some, ◌++◌, [], Result, ok, err, Bytes, length, ltb, if◌then◌else◌,
}
use osclientcerts.Mechanism.{RsaCipherMechanism}
use osclientcerts.Util.Errors.{
  CryptoError, operation_failed, data_too_large, max_total_operation_data_len,
}
use osclientcerts.BTreeMap
use osclientcerts.BTreeMap.{contains_key}
use osclientcerts.Backend.{Backend, ObjectOf}
use osclientcerts.Manager.State.{Manager, as_key}

module _ (B : Backend) where
  -- The backend's length and result, on the object that a handle names.
  unfoldable pub decrypt_length_with :
      B.Os → Option (ObjectOf B) → Bytes → RsaCipherMechanism → Result ℕ CryptoError
  unfolding as_key
  decrypt_length_with os object input params = elim (as_key B object) [
    | err e ↦ err e
    | ok k ↦ B.decrypt_length os k input params
  ]

  unfoldable pub decrypt_with :
      B.Os → Option (ObjectOf B) → Bytes → RsaCipherMechanism → Result Bytes CryptoError
  unfolding as_key
  decrypt_with os object input params = elim (as_key B object) [
    | err e ↦ err e
    | ok k ↦ B.decrypt os k input params
  ]

  unfoldable pub accepts_decrypt : Option (ObjectOf B) → Result (Unit {0}) CryptoError
  unfolding as_key
  accepts_decrypt object = elim (as_key B object) [ err e ↦ err e | ok k ↦ ok tt ]

  unfoldable pub start_decrypt :
      ℕ → ℕ → RsaCipherMechanism → Manager B → Result (Unit {0}) CryptoError × Manager B
  start_decrypt session key_handle params m =
      if contains_key m.decrypts session
      then (err operation_failed, m)
      else elim (accepts_decrypt (BTreeMap.get m.objects key_handle)) [
        | err e ↦ (err e, m)
        | ok _ ↦ (
          ok tt,
          record m {
            decrypts =
                BTreeMap.insert m.decrypts session
                  (record { handle = key_handle; params = params; buffer = [] });
          },
        )
      ]

  unfoldable pub get_decrypted_length :
      B.Os → ℕ → Bytes → Manager B → Result ℕ CryptoError × Manager B
  get_decrypted_length os session input m = elim (BTreeMap.get m.decrypts session) [
    | none ↦ (err operation_failed, m)
    | some op ↦ (decrypt_length_with os (BTreeMap.get m.objects op.handle) input op.params, m)
  ]

  -- The operation is over, whatever the backend answers.
  unfoldable pub decrypt : B.Os → ℕ → Bytes → Manager B → Result Bytes CryptoError × Manager B
  decrypt os session input m = elim (BTreeMap.get m.decrypts session) [
    | none ↦ (err operation_failed, m)
    | some op ↦ (
      decrypt_with os (BTreeMap.get m.objects op.handle) input op.params,
      record m { decrypts = BTreeMap.remove m.decrypts session },
    )
  ]

  -- Appends a part; the sum of two slice lengths cannot overflow a `usize`.
  unfoldable pub decrypt_update : ℕ → Bytes → Manager B → Result (Unit {0}) CryptoError × Manager B
  decrypt_update session input m = elim (BTreeMap.get m.decrypts session) [
    | none ↦ (err operation_failed, m)
    | some op ↦
        if ltb max_total_operation_data_len (length op.buffer + length input)
        then (err data_too_large, m)
        else (
          ok tt,
          record m {
            decrypts =
                BTreeMap.insert m.decrypts session (record op { buffer = op.buffer ++ input });
          },
        )
  ]

  unfoldable pub get_final_decrypted_length :
      B.Os → ℕ → Manager B → Result ℕ CryptoError × Manager B
  get_final_decrypted_length os session m = elim (BTreeMap.get m.decrypts session) [
    | none ↦ (err operation_failed, m)
    | some op ↦ (decrypt_length_with os (BTreeMap.get m.objects op.handle) op.buffer op.params, m)
  ]

  unfoldable pub decrypt_final : B.Os → ℕ → Manager B → Result Bytes CryptoError × Manager B
  decrypt_final os session m = elim (BTreeMap.get m.decrypts session) [
    | none ↦ (err operation_failed, m)
    | some op ↦ (
      decrypt_with os (BTreeMap.get m.objects op.handle) op.buffer op.params,
      record m { decrypts = BTreeMap.remove m.decrypts session },
    )
  ]

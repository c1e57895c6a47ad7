-- ===== src/Manager/Sign.antt =====
-- src/manager.rs: sign operations.
use osclientcerts.Prelude.{
  ℕ, ◌+◌, Option, none, some, ◌++◌, [], Result, ok, err, Bytes, length, ltb, if◌then◌else◌,
}
use osclientcerts.Cryptoki.{PssParams}
use osclientcerts.Util.Errors.{
  CryptoError, operation_failed, data_too_large, max_total_operation_data_len,
}
use osclientcerts.BTreeMap
use osclientcerts.BTreeMap.{contains_key}
use osclientcerts.Backend.{Backend, ObjectOf}
use osclientcerts.Manager.State.{Manager, as_key}

module _ (B : Backend) where
  -- The backend's length and result, on the object that a handle names.
  unfoldable pub sign_length_with :
      B.Os → Option (ObjectOf B) → Bytes → Option PssParams → Result ℕ CryptoError
  unfolding as_key
  sign_length_with os object input params = elim (as_key B object) [
    | err e ↦ err e
    | ok k ↦ B.get_signature_length os k input params
  ]

  unfoldable pub sign_with :
      B.Os → Option (ObjectOf B) → Bytes → Option PssParams → Result Bytes CryptoError
  unfolding as_key
  sign_with os object input params = elim (as_key B object) [
    | err e ↦ err e
    | ok k ↦ B.sign os k input params
  ]

  unfoldable pub accepts_sign : Option (ObjectOf B) → Result (Unit {0}) CryptoError
  unfolding as_key
  accepts_sign object = elim (as_key B object) [ err e ↦ err e | ok k ↦ ok tt ]

  unfoldable pub start_sign :
      ℕ → ℕ → Option PssParams → Manager B → Result (Unit {0}) CryptoError × Manager B
  start_sign session key_handle params m =
      if contains_key m.signs session
      then (err operation_failed, m)
      else elim (accepts_sign (BTreeMap.get m.objects key_handle)) [
        | err e ↦ (err e, m)
        | ok _ ↦ (
          ok tt,
          record m {
            signs =
                BTreeMap.insert m.signs session
                  (record { handle = key_handle; params = params; buffer = [] });
          },
        )
      ]

  unfoldable pub get_signature_length :
      B.Os → ℕ → Bytes → Manager B → Result ℕ CryptoError × Manager B
  get_signature_length os session input m = elim (BTreeMap.get m.signs session) [
    | none ↦ (err operation_failed, m)
    | some op ↦ (sign_length_with os (BTreeMap.get m.objects op.handle) input op.params, m)
  ]

  -- The operation is over, whatever the backend answers.
  unfoldable pub sign : B.Os → ℕ → Bytes → Manager B → Result Bytes CryptoError × Manager B
  sign os session input m = elim (BTreeMap.get m.signs session) [
    | none ↦ (err operation_failed, m)
    | some op ↦ (
      sign_with os (BTreeMap.get m.objects op.handle) input op.params,
      record m { signs = BTreeMap.remove m.signs session },
    )
  ]

  -- Appends a part; the sum of two slice lengths cannot overflow a `usize`.
  unfoldable pub sign_update : ℕ → Bytes → Manager B → Result (Unit {0}) CryptoError × Manager B
  sign_update session input m = elim (BTreeMap.get m.signs session) [
    | none ↦ (err operation_failed, m)
    | some op ↦
        if ltb max_total_operation_data_len (length op.buffer + length input)
        then (err data_too_large, m)
        else (
          ok tt,
          record m {
            signs = BTreeMap.insert m.signs session (record op { buffer = op.buffer ++ input });
          },
        )
  ]

  unfoldable pub get_final_signature_length :
      B.Os → ℕ → Manager B → Result ℕ CryptoError × Manager B
  get_final_signature_length os session m = elim (BTreeMap.get m.signs session) [
    | none ↦ (err operation_failed, m)
    | some op ↦ (sign_length_with os (BTreeMap.get m.objects op.handle) op.buffer op.params, m)
  ]

  unfoldable pub sign_final : B.Os → ℕ → Manager B → Result Bytes CryptoError × Manager B
  sign_final os session m = elim (BTreeMap.get m.signs session) [
    | none ↦ (err operation_failed, m)
    | some op ↦ (
      sign_with os (BTreeMap.get m.objects op.handle) op.buffer op.params,
      record m { signs = BTreeMap.remove m.signs session },
    )
  ]

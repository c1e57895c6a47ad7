-- ===== src/Manager/Invariant/Decrypt.antt =====
-- The decrypt methods keep the invariant.
use osclientcerts.Prelude.{
  ℕ, ◌+◌, ◌≡◌, refl, [], ok, err, length, Bytes, inl, inr, Option-cases, Bool-cases, arith,
  length-append, ltb, Result,
}
use osclientcerts.Mechanism.{RsaCipherMechanism}
use osclientcerts.Util.Errors.{CryptoError, max_total_operation_data_len}
use osclientcerts.BTreeMap
use osclientcerts.BTreeMap.{BTreeMap, contains_key}
use osclientcerts.BTreeMap.Values.{AllValues, AllValues-insert, AllValues-remove}
use osclientcerts.Backend.{Backend}
use osclientcerts.Manager.State.{Operation, Manager}
use osclientcerts.Manager.Decrypt.{
  accepts_decrypt, start_decrypt, decrypt, decrypt_update, decrypt_final,
}
use osclientcerts.Manager.Invariant.{OpIsValid, IsValid}

module _ (B : Backend) (m : Manager B) (valid : IsValid B m) where
  with_decrypts-IsValid :
      (decrypts : BTreeMap (Operation (RsaCipherMechanism)))
      → AllValues (λ s op. OpIsValid B (accepts_decrypt B) m.objects op) decrypts
      → IsValid B (record m { decrypts = decrypts })
  with_decrypts-IsValid decrypts all = record {
    sessions_below = valid.sessions_below;
    objects_below = valid.objects_below;
    objects_sorted = valid.objects_sorted;
    objects_known = valid.objects_known;
    objects_distinct = valid.objects_distinct;
    searches_valid = valid.searches_valid;
    signs_valid = valid.signs_valid;
    decrypts_valid = all;
    encrypts_valid = valid.encrypts_valid;
  }

  removed-IsValid :
      (session : ℕ) → IsValid B (record m { decrypts = BTreeMap.remove m.decrypts session })
  removed-IsValid session =
      with_decrypts-IsValid _ (AllValues-remove m.decrypts session valid.decrypts_valid)

  inserted-IsValid :
      (session : ℕ) (op : Operation (RsaCipherMechanism))
      → OpIsValid B (accepts_decrypt B) m.objects op
      → IsValid B (record m { decrypts = BTreeMap.insert m.decrypts session op })
  inserted-IsValid session op v =
      with_decrypts-IsValid _ (AllValues-insert m.decrypts session op v valid.decrypts_valid)

  pub start_decrypt-IsValid :
      (session handle : ℕ) (params : RsaCipherMechanism)
      → IsValid B (start_decrypt B session handle params m).1
  unfolding start_decrypt
  start_decrypt-IsValid session handle params =
      elim (Bool-cases (contains_key m.decrypts session)) [
        | inl active ↦ rw active valid
        | inr idle ↦ rw idle (accepted (accepts_decrypt B (BTreeMap.get m.objects handle)) refl)
      ]
    where
      accepted :
          (r : Result (Unit {0}) CryptoError)
          → accepts_decrypt B (BTreeMap.get m.objects handle) ≡ r
          → IsValid B
              (elim r as (λ _. Result (Unit {0}) CryptoError × Manager B) [
                | err e ↦ (err e, m)
                | ok _ ↦ (
                  ok tt,
                  record m {
                    decrypts =
                        BTreeMap.insert m.decrypts session
                          (record { handle = handle; params = params; buffer = [] });
                  },
                )
              ]).1
      accepted (err e) same = valid
      accepted (ok u) same =
          inserted-IsValid session _ (record { accepted = same; bounded = omega arith })

  pub decrypt-IsValid :
      (os : B.Os) (session : ℕ) (bytes : Bytes) → IsValid B (decrypt B os session bytes m).1
  unfolding decrypt
  decrypt-IsValid os session bytes = elim (Option-cases (BTreeMap.get m.decrypts session)) [
    | inl e ↦ rw (e, decrypt) valid
    | inr (op, e) ↦ rw (e, decrypt) (removed-IsValid session)
  ]

  pub decrypt_final-IsValid : (os : B.Os) (session : ℕ) → IsValid B (decrypt_final B os session m).1
  unfolding decrypt_final
  decrypt_final-IsValid os session = elim (Option-cases (BTreeMap.get m.decrypts session)) [
    | inl e ↦ rw (e, decrypt_final) valid
    | inr (op, e) ↦ rw (e, decrypt_final) (removed-IsValid session)
  ]

  pub decrypt_update-IsValid :
      (session : ℕ) (bytes : Bytes) → IsValid B (decrypt_update B session bytes m).1
  unfolding decrypt_update
  decrypt_update-IsValid session bytes = elim (Option-cases (BTreeMap.get m.decrypts session)) [
    | inl e ↦ rw (e, decrypt_update) valid
    | inr (op, e) ↦
        rw (e, decrypt_update)
          (elim (Bool-cases (ltb max_total_operation_data_len (length op.buffer + length bytes))) [
            | inl large ↦ rw large valid
            | inr fits ↦ rw fits (
                inserted-IsValid session _ (record {
                  accepted = (valid.decrypts_valid.at session op e).accepted;
                  bounded = ground (arith, length-append op.buffer bytes);
                }))
          ])
  ]

-- ===== src/Manager/Invariant/Encrypt.antt =====
-- The encrypt methods keep the invariant.
use osclientcerts.Prelude.{
  ℕ, ◌+◌, ◌≡◌, refl, [], ok, err, length, Bytes, inl, inr, Option-cases, Bool-cases, arith,
  length-append, ltb, Result,
}
use osclientcerts.Mechanism.{RsaCipherMechanism}
use osclientcerts.Util.Errors.{CryptoError, max_total_operation_data_len}
use osclientcerts.BTreeMap
use osclientcerts.BTreeMap.{BTreeMap, contains_key}
use osclientcerts.BTreeMap.Values.{AllValues, AllValues-insert, AllValues-remove}
use osclientcerts.Backend.{Backend}
use osclientcerts.Manager.State.{Operation, Manager}
use osclientcerts.Manager.Encrypt.{
  accepts_encrypt, start_encrypt, encrypt, encrypt_update, encrypt_final,
}
use osclientcerts.Manager.Invariant.{OpIsValid, IsValid}

module _ (B : Backend) (m : Manager B) (valid : IsValid B m) where
  with_encrypts-IsValid :
      (encrypts : BTreeMap (Operation (RsaCipherMechanism)))
      → AllValues (λ s op. OpIsValid B (accepts_encrypt B) m.objects op) encrypts
      → IsValid B (record m { encrypts = encrypts })
  with_encrypts-IsValid encrypts all = record {
    sessions_below = valid.sessions_below;
    objects_below = valid.objects_below;
    objects_sorted = valid.objects_sorted;
    objects_known = valid.objects_known;
    objects_distinct = valid.objects_distinct;
    searches_valid = valid.searches_valid;
    signs_valid = valid.signs_valid;
    decrypts_valid = valid.decrypts_valid;
    encrypts_valid = all;
  }

  removed-IsValid :
      (session : ℕ) → IsValid B (record m { encrypts = BTreeMap.remove m.encrypts session })
  removed-IsValid session =
      with_encrypts-IsValid _ (AllValues-remove m.encrypts session valid.encrypts_valid)

  inserted-IsValid :
      (session : ℕ) (op : Operation (RsaCipherMechanism))
      → OpIsValid B (accepts_encrypt B) m.objects op
      → IsValid B (record m { encrypts = BTreeMap.insert m.encrypts session op })
  inserted-IsValid session op v =
      with_encrypts-IsValid _ (AllValues-insert m.encrypts session op v valid.encrypts_valid)

  pub start_encrypt-IsValid :
      (session handle : ℕ) (params : RsaCipherMechanism)
      → IsValid B (start_encrypt B session handle params m).1
  unfolding start_encrypt
  start_encrypt-IsValid session handle params =
      elim (Bool-cases (contains_key m.encrypts session)) [
        | inl active ↦ rw active valid
        | inr idle ↦ rw idle (accepted (accepts_encrypt B (BTreeMap.get m.objects handle)) refl)
      ]
    where
      accepted :
          (r : Result (Unit {0}) CryptoError)
          → accepts_encrypt B (BTreeMap.get m.objects handle) ≡ r
          → IsValid B
              (elim r as (λ _. Result (Unit {0}) CryptoError × Manager B) [
                | err e ↦ (err e, m)
                | ok _ ↦ (
                  ok tt,
                  record m {
                    encrypts =
                        BTreeMap.insert m.encrypts session
                          (record { handle = handle; params = params; buffer = [] });
                  },
                )
              ]).1
      accepted (err e) same = valid
      accepted (ok u) same =
          inserted-IsValid session _ (record { accepted = same; bounded = omega arith })

  pub encrypt-IsValid :
      (os : B.Os) (session : ℕ) (bytes : Bytes) → IsValid B (encrypt B os session bytes m).1
  unfolding encrypt
  encrypt-IsValid os session bytes = elim (Option-cases (BTreeMap.get m.encrypts session)) [
    | inl e ↦ rw (e, encrypt) valid
    | inr (op, e) ↦ rw (e, encrypt) (removed-IsValid session)
  ]

  pub encrypt_final-IsValid : (os : B.Os) (session : ℕ) → IsValid B (encrypt_final B os session m).1
  unfolding encrypt_final
  encrypt_final-IsValid os session = elim (Option-cases (BTreeMap.get m.encrypts session)) [
    | inl e ↦ rw (e, encrypt_final) valid
    | inr (op, e) ↦ rw (e, encrypt_final) (removed-IsValid session)
  ]

  pub encrypt_update-IsValid :
      (session : ℕ) (bytes : Bytes) → IsValid B (encrypt_update B session bytes m).1
  unfolding encrypt_update
  encrypt_update-IsValid session bytes = elim (Option-cases (BTreeMap.get m.encrypts session)) [
    | inl e ↦ rw (e, encrypt_update) valid
    | inr (op, e) ↦
        rw (e, encrypt_update)
          (elim (Bool-cases (ltb max_total_operation_data_len (length op.buffer + length bytes))) [
            | inl large ↦ rw large valid
            | inr fits ↦ rw fits (
                inserted-IsValid session _ (record {
                  accepted = (valid.encrypts_valid.at session op e).accepted;
                  bounded = ground (arith, length-append op.buffer bytes);
                }))
          ])
  ]

-- ===== src/Manager/Invariant/Sign.antt =====
-- The sign methods keep the invariant.
use osclientcerts.Prelude.{
  ℕ, ◌+◌, ◌≡◌, refl, [], Option, ok, err, length, Bytes, inl, inr, Option-cases, Bool-cases, arith,
  length-append, ltb, Result,
}
use osclientcerts.Cryptoki.{PssParams}
use osclientcerts.Util.Errors.{CryptoError, max_total_operation_data_len}
use osclientcerts.BTreeMap
use osclientcerts.BTreeMap.{BTreeMap, contains_key}
use osclientcerts.BTreeMap.Values.{AllValues, AllValues-insert, AllValues-remove}
use osclientcerts.Backend.{Backend}
use osclientcerts.Manager.State.{Operation, Manager}
use osclientcerts.Manager.Sign.{accepts_sign, start_sign, sign, sign_update, sign_final}
use osclientcerts.Manager.Invariant.{OpIsValid, IsValid}

module _ (B : Backend) (m : Manager B) (valid : IsValid B m) where
  with_signs-IsValid :
      (signs : BTreeMap (Operation (Option PssParams)))
      → AllValues (λ s op. OpIsValid B (accepts_sign B) m.objects op) signs
      → IsValid B (record m { signs = signs })
  with_signs-IsValid signs all = record {
    sessions_below = valid.sessions_below;
    objects_below = valid.objects_below;
    objects_sorted = valid.objects_sorted;
    objects_known = valid.objects_known;
    objects_distinct = valid.objects_distinct;
    searches_valid = valid.searches_valid;
    signs_valid = all;
    decrypts_valid = valid.decrypts_valid;
    encrypts_valid = valid.encrypts_valid;
  }

  removed-IsValid : (session : ℕ) → IsValid B (record m { signs = BTreeMap.remove m.signs session })
  removed-IsValid session =
      with_signs-IsValid _ (AllValues-remove m.signs session valid.signs_valid)

  inserted-IsValid :
      (session : ℕ) (op : Operation (Option PssParams))
      → OpIsValid B (accepts_sign B) m.objects op
      → IsValid B (record m { signs = BTreeMap.insert m.signs session op })
  inserted-IsValid session op v =
      with_signs-IsValid _ (AllValues-insert m.signs session op v valid.signs_valid)

  pub start_sign-IsValid :
      (session handle : ℕ) (params : Option PssParams)
      → IsValid B (start_sign B session handle params m).1
  unfolding start_sign
  start_sign-IsValid session handle params = elim (Bool-cases (contains_key m.signs session)) [
    | inl active ↦ rw active valid
    | inr idle ↦ rw idle (accepted (accepts_sign B (BTreeMap.get m.objects handle)) refl)
  ]
    where
      accepted :
          (r : Result (Unit {0}) CryptoError)
          → accepts_sign B (BTreeMap.get m.objects handle) ≡ r
          → IsValid B
              (elim r as (λ _. Result (Unit {0}) CryptoError × Manager B) [
                | err e ↦ (err e, m)
                | ok _ ↦ (
                  ok tt,
                  record m {
                    signs =
                        BTreeMap.insert m.signs session
                          (record { handle = handle; params = params; buffer = [] });
                  },
                )
              ]).1
      accepted (err e) same = valid
      accepted (ok u) same =
          inserted-IsValid session _ (record { accepted = same; bounded = omega arith })

  pub sign-IsValid :
      (os : B.Os) (session : ℕ) (bytes : Bytes) → IsValid B (sign B os session bytes m).1
  unfolding sign
  sign-IsValid os session bytes = elim (Option-cases (BTreeMap.get m.signs session)) [
    | inl e ↦ rw (e, sign) valid
    | inr (op, e) ↦ rw (e, sign) (removed-IsValid session)
  ]

  pub sign_final-IsValid : (os : B.Os) (session : ℕ) → IsValid B (sign_final B os session m).1
  unfolding sign_final
  sign_final-IsValid os session = elim (Option-cases (BTreeMap.get m.signs session)) [
    | inl e ↦ rw (e, sign_final) valid
    | inr (op, e) ↦ rw (e, sign_final) (removed-IsValid session)
  ]

  pub sign_update-IsValid :
      (session : ℕ) (bytes : Bytes) → IsValid B (sign_update B session bytes m).1
  unfolding sign_update
  sign_update-IsValid session bytes = elim (Option-cases (BTreeMap.get m.signs session)) [
    | inl e ↦ rw (e, sign_update) valid
    | inr (op, e) ↦
        rw (e, sign_update)
          (elim (Bool-cases (ltb max_total_operation_data_len (length op.buffer + length bytes))) [
            | inl large ↦ rw large valid
            | inr fits ↦ rw fits (
                inserted-IsValid session _ (record {
                  accepted = (valid.signs_valid.at session op e).accepted;
                  bounded = ground (arith, length-append op.buffer bytes);
                }))
          ])
  ]

-- ===== src/Manager/Multipart/Sign.antt =====
-- Multipart sign operations: parts that fit are accepted and finish like one call over the whole.
use mathlib.Core.List.{append_assoc, append-nil}
use osclientcerts.Prelude.{
  ℕ, ◌+◌, ◌≤◌, ◌<◌, ◌≡◌, ◌++◌, refl, ap, ◌∙◌, [], ◌∷◌, List, Option, some, Result, ok, err, Bytes,
  length, flatten, length-append, ltb, inl, inr, Bool-cases, arith,
}
use osclientcerts.Cryptoki.{PssParams}
use osclientcerts.Util.Errors.{CryptoError, data_too_large, max_total_operation_data_len}
use osclientcerts.BTreeMap
use osclientcerts.BTreeMap.{get}
use osclientcerts.BTreeMap.Laws.{get-insert_self, remove-insert}
use osclientcerts.Backend.{Backend}
use osclientcerts.Manager.State.{Operation, Manager}
use osclientcerts.Manager.Sign.{sign, sign_update, sign_final}

module _ (B : Backend) where
  -- A caller that passes the parts one by one, and gives up at the first error.
  feed_from :
      Result (Unit {0}) CryptoError × Manager B
      → (Manager B → Result (Manager B) CryptoError)
      → Result (Manager B) CryptoError
  feed_from (err e, m) go = err e
  feed_from (ok _, m) go = go m

  pub feed : ℕ → List Bytes → Manager B → Result (Manager B) CryptoError
  feed session [] m = ok m
  feed session (part ∷ parts) m =
      feed_from (sign_update B session part m) (λ m'. feed session parts m')

  abbrev fed : ℕ → Operation (Option PssParams) → Bytes → Manager B → Manager B
  fed session op part m = record m {
    signs = BTreeMap.insert m.signs session (record op { buffer = op.buffer ++ part });
  }

  update-fits :
      (m : Manager B) (session : ℕ) (op : Operation (Option PssParams)) (part : Bytes)
      → get m.signs session ≡ some op
      → length op.buffer + length part ≤ max_total_operation_data_len
      → sign_update B session part m ≡ (ok tt, fed session op part m)
  unfolding sign_update
  update-fits m session op part e fits = ground arith

  update-large :
      (m : Manager B) (session : ℕ) (op : Operation (Option PssParams)) (part : Bytes)
      → get m.signs session ≡ some op
      → max_total_operation_data_len < length op.buffer + length part
      → sign_update B session part m ≡ (err data_too_large, m)
  unfolding sign_update
  update-large m session op part e large = ground arith

  finish-fed :
      (os : B.Os) (m : Manager B) (session : ℕ) (op : Operation (Option PssParams))
      (part bytes : Bytes)
      → get m.signs session ≡ some op
      → sign B os session bytes (fed session op part m) ≡ sign B os session bytes m
  unfolding sign
  finish-fed os m session op part bytes e =
      rw (get-insert_self m.signs session, e, sign, remove-insert m.signs session)

  final-eq-single :
      (os : B.Os) (m : Manager B) (session : ℕ) (op : Operation (Option PssParams))
      → get m.signs session ≡ some op
      → sign_final B os session m ≡ sign B os session op.buffer m
  unfolding sign sign_final
  final-eq-single os m session op e = rw (e, sign, sign_final)

  -- Parts that together stay within the bound are all accepted, and then finishing the operation
  -- answers, and leaves the manager, as one call over all the data would have.
  pub sign_feed_final :
      (os : B.Os) (session : ℕ) (parts : List Bytes) (m : Manager B)
      (op : Operation (Option PssParams))
      → get m.signs session ≡ some op
      → length op.buffer + length (flatten parts) ≤ max_total_operation_data_len
      → (m' : Manager B) × (feed session parts m ≡ ok m')
        × (sign_final B os session m' ≡ sign B os session (op.buffer ++ flatten parts) m)
  unfolding feed feed_from
  sign_feed_final os session [] m op e fits =
      (m, refl, rw (append-nil op.buffer) (final-eq-single os m session op e))
  sign_feed_final os session (part ∷ parts) m op e fits =
      let (m', run, same) =
        sign_feed_final os session parts (fed session op part m)
          (record op { buffer = op.buffer ++ part }) (get-insert_self m.signs session _)
          (omega (arith, length-append op.buffer part, length-append part (flatten parts))) in
      (
        m',
        rw (update-fits m session op part e (omega (arith, length-append part (flatten parts))))
            run,
        same
            ∙ finish-fed os m session op part ((op.buffer ++ part) ++ flatten parts) e
            ∙ ap (λ bytes. sign B os session bytes m) (append_assoc op.buffer part (flatten parts)),
      )

  -- Parts that together pass the bound are refused at some update, as too much data.
  pub sign_feed_overflow :
      (session : ℕ) (parts : List Bytes) (m : Manager B) (op : Operation (Option PssParams))
      → get m.signs session ≡ some op
      → length op.buffer ≤ max_total_operation_data_len
      → max_total_operation_data_len < length op.buffer + length (flatten parts)
      → feed session parts m ≡ err data_too_large
  unfolding feed feed_from
  sign_feed_overflow session [] m op e small large = absurd (omega arith)
  sign_feed_overflow session (part ∷ parts) m op e small large =
      elim (Bool-cases (ltb max_total_operation_data_len (length op.buffer + length part))) [
        | inl over ↦ rw (update-large m session op part e (ground arith))
        | inr under ↦ rw (update-fits m session op part e (ground arith)) (
            sign_feed_overflow session parts (fed session op part m)
              (record op { buffer = op.buffer ++ part }) (get-insert_self m.signs session _)
              (ground (arith, length-append op.buffer part))
              (ground (arith, length-append op.buffer part, length-append part (flatten parts))))
      ]

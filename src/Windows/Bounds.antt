-- ===== src/Windows/Bounds.antt =====
-- How much the walks up from the user's certificates can add.
use osclientcerts.Prelude.{
  ℕ, zero, suc, ◌+◌, ◌*◌, ◌≤◌, List, [], ◌∷◌, ◌++◌, Bytes, length, length-append, arith, Bool-cases,
  Option-cases, Result-cases, inl, inr,
}
use osclientcerts.ByteOrder.{ByteOrder}
use osclientcerts.Cryptoki.{Cryptoki}
use osclientcerts.Windows.Api.{WindowsApi}
use osclientcerts.Windows.Chain.{
  Walk, max_chain_depth, cert_is_self_signed, issuer_cert, issuer_trust, visit, climb, climb_all,
  list_root_trust_objects,
}

module _ (k : Cryptoki) (o : ByteOrder) (w : WindowsApi) where
  issuer_cert-length : (issuer : w.CertContext) → length (issuer_cert k o w issuer) ≤ 1
  unfolding issuer_cert
  issuer_cert-length issuer = ground arith

  issuer_trust-length :
      (os : w.Os) (issuer : w.CertContext) → length (issuer_trust k o w os issuer) ≤ 1
  unfolding issuer_trust
  issuer_trust-length os issuer = ground arith

  visit-length :
      (os : w.Os) (issuer : w.CertContext) (s : Walk w)
      → length (visit k o w os issuer s).new_objects ≤ length s.new_objects + 2
  unfolding visit
  visit-length os issuer s =
      let added = s.new_objects ++ issuer_cert k o w issuer in
      ground (
        arith,
        length-append added (issuer_trust k o w os issuer),
        length-append s.new_objects (issuer_cert k o w issuer),
        issuer_cert-length issuer,
        issuer_trust-length os issuer,
      )

  climb-length :
      (os : w.Os) (depth : ℕ) (current : w.CertContext) (s : Walk w)
      → length (climb k o w os depth current s).new_objects ≤ length s.new_objects + 2 * depth
  unfolding climb
  climb-length os zero current s = omega arith
  climb-length os (suc depth) current s = elim (Option-cases (w.issuer_certificate os current)) [
    | inl e ↦ rw (e, climb) (omega arith)
    | inr (issuer, e) ↦
        let visited = visit k o w os issuer s in
        let here = visit-length os issuer s in
        let above = climb-length os depth issuer visited in
        elim (Bool-cases (cert_is_self_signed w issuer)) [
          | inl self_signed ↦ rw (e, self_signed, climb) (omega (arith, here))
          | inr signed ↦ rw (e, signed, climb) (omega (arith, here, above))
        ]
  ]

  climb_all-length :
      (os : w.Os) (leaves : List Bytes) (s : Walk w)
      → length (climb_all k o w os leaves s).new_objects
        ≤ length s.new_objects + 2 * max_chain_depth * length leaves
  unfolding climb_all
  climb_all-length os [] s = omega arith
  climb_all-length os (leaf_der ∷ leaves) s = elim (Result-cases (w.create_context os leaf_der)) [
    | inl (last_error, e) ↦ rw (e, climb_all) (omega (arith, climb_all-length os leaves s))
    | inr (leaf, e) ↦
        let climbed = climb k o w os max_chain_depth leaf s in
        rw (e, climb_all)
          (omega
            (arith, climb-length os max_chain_depth leaf s, climb_all-length os leaves climbed))
  ]

  -- The walks add at most 16 objects for each leaf certificate, whatever chains the system answers:
  -- cyclic ones too.
  pub list_root_trust_objects-length :
      (os : w.Os) (leaves : List Bytes)
      → length (list_root_trust_objects k o w os leaves) ≤ 16 * length leaves
  unfolding list_root_trust_objects
  list_root_trust_objects-length os leaves =
      ground (arith, climb_all-length os leaves (record { processed = []; new_objects = [] }))

-- ===== src/Windows/Climb.antt =====
-- What holds of every object that the walks up from the leaves add.
use osclientcerts.Prelude.{
  ℕ, zero, suc, ◌+◌, ◌≤◌, ◌≡◌, refl, true, some, List, [], ◌∷◌, ◌++◌, ok, Bytes, arith, All,
  All-join, Bool-cases, Option-cases, Result-cases, inl, inr, bytes_eq_refl,
}
use osclientcerts.ByteOrder.{ByteOrder}
use osclientcerts.Cryptoki.{Cryptoki}
use osclientcerts.Backend.{Object}
use osclientcerts.Manager.Scan.{contains}
use osclientcerts.Windows.Api.{WindowsApi}
use osclientcerts.Windows.Objects.{Cert, Key, Trust}
use osclientcerts.Windows.Chain.{
  Walk, max_chain_depth, cert_is_self_signed, issuer_cert, issuer_trust, visit, climb, climb_all,
  list_root_trust_objects,
}

-- The issuer's issuer and so on: so many steps up from a certificate, as the system finds them.
pub data Climbs (w : WindowsApi) (os : w.Os) (leaf : w.CertContext)
    : ℕ → w.CertContext → Type 0 where
  here : Climbs w os leaf 0 leaf
  above :
      (n : ℕ) (current issuer : w.CertContext)
      → Climbs w os leaf n current
      → w.issuer_certificate os current ≡ some issuer
      → Climbs w os leaf (suc n) issuer

-- That a certificate is so many steps above one of those with the values.
pub record IsAbove (w : WindowsApi) (os : w.Os) (leaves : List Bytes) (issuer : w.CertContext)
    : Type 0 where
  pub leaf_der : Bytes
  pub listed : contains leaves leaf_der ≡ true
  pub leaf : w.CertContext
  pub created : w.create_context os leaf_der ≡ ok leaf
  pub depth : ℕ
  pub depth_max : depth ≤ 8
  pub climbs : Climbs w os leaf depth issuer

module _ (k : Cryptoki) (o : ByteOrder) (w : WindowsApi) (os : w.Os) (leaves : List Bytes)
    (P : Object Cert (Key w) Trust → Type 0)
    (added : (issuer : w.CertContext)
      → IsAbove w os leaves issuer
      → All P (issuer_cert k o w issuer) × All P (issuer_trust k o w os issuer)) where
  module _ (leaf_der : Bytes) (listed : contains leaves leaf_der ≡ true) (leaf : w.CertContext)
      (created : w.create_context os leaf_der ≡ ok leaf) where
    visit-All :
        (n : ℕ) (issuer : w.CertContext) (s : Walk w)
        → n ≤ max_chain_depth
        → Climbs w os leaf n issuer
        → All P s.new_objects
        → All P (visit k o w os issuer s).new_objects
    unfolding visit
    visit-All n issuer s le climbs h =
        elim (Bool-cases (contains s.processed (w.sha256 (w.der issuer)))) [
          | inl known ↦ rw (known, visit) h
          | inr unknown ↦
              let new = added issuer (record {
                leaf_der = leaf_der;
                listed = listed;
                leaf = leaf;
                created = created;
                depth = n;
                depth_max = le;
                climbs = climbs;
              }) in
              rw (unknown, visit)
                (All-join _ (s.new_objects ++ issuer_cert k o w issuer) _
                  (All-join _ s.new_objects _ h new.0) new.1)
        ]

    climb-All :
        (depth n : ℕ) (current : w.CertContext) (s : Walk w)
        → n + depth ≤ max_chain_depth
        → Climbs w os leaf n current
        → All P s.new_objects
        → All P (climb k o w os depth current s).new_objects
    unfolding climb
    climb-All zero n current s le climbs h = h
    climb-All (suc depth) n current s le climbs h =
        elim (Option-cases (w.issuer_certificate os current)) [
          | inl e ↦ rw (e, climb) h
          | inr (issuer, e) ↦
              let higher = Climbs.above n current issuer climbs e in
              let visited = visit-All (suc n) issuer s (omega arith) higher h in
              elim (Bool-cases (cert_is_self_signed w issuer)) [
                | inl self_signed ↦ rw (e, self_signed, climb) visited
                | inr signed ↦
                    rw (e, signed, climb)
                      (climb-All depth (suc n) issuer (visit k o w os issuer s) (omega arith) higher
                        visited)
              ]
        ]

  climb_all-All :
      (rest : List Bytes) (s : Walk w)
      → ((leaf_der : Bytes) → contains rest leaf_der ≡ true → contains leaves leaf_der ≡ true)
      → All P s.new_objects
      → All P (climb_all k o w os rest s).new_objects
  unfolding climb_all contains
  climb_all-All [] s among h = h
  climb_all-All (leaf_der ∷ rest) s among h =
      let others : (d : Bytes) → contains rest d ≡ true → contains leaves d ≡ true =
        λ d e. among d (ground arith) in
      elim (Result-cases (w.create_context os leaf_der)) [
        | inl (last_error, e) ↦ rw (e, climb_all) (climb_all-All rest s others h)
        | inr (leaf, e) ↦
            let climbed =
              climb-All leaf_der (among leaf_der (rw (bytes_eq_refl leaf_der) refl)) leaf e
                max_chain_depth 0 leaf s (omega arith) Climbs.here h in
            rw (e, climb_all)
              (climb_all-All rest (climb k o w os max_chain_depth leaf s) others climbed)
      ]

  pub list_root_trust_objects-All : All P (list_root_trust_objects k o w os leaves)
  unfolding list_root_trust_objects
  list_root_trust_objects-All =
      ground
        (arith, climb_all-All leaves (record { processed = []; new_objects = [] }) (λ d e. e) tt)

-- ===== src/Windows/Chain.antt =====
-- src/backend_windows.rs: the walk from the user's certificates to the roots that Windows trusts.
use osclientcerts.Prelude.{
  ℕ, zero, suc, Bool, true, false, ◌&&◌, ◌||◌, Option, none, some, List, [], ◌∷◌, ◌++◌, ok, err,
  Bytes, bytes_eq, ◌==◌, if◌then◌else◌,
}
use osclientcerts.ByteOrder.{ByteOrder}
use osclientcerts.Cryptoki.{Cryptoki}
use osclientcerts.Backend.{Object, cert, trust}
use osclientcerts.Manager.Scan.{contains}
use osclientcerts.Windows.Api.{WindowsApi, Store}
use osclientcerts.Windows.Objects.{Cert, Key, Trust, cert_new, trust_new}

-- `MAX_CHAIN_DEPTH`
abbrev pub max_chain_depth : ℕ
max_chain_depth = 8

-- `OID_EMAIL_PROTECTION`, "1.3.6.1.5.5.7.3.4" and a zero.
abbrev pub oid_email_protection : Bytes
oid_email_protection =
    b'1' ∷ b'.' ∷ b'3' ∷ b'.' ∷ b'6' ∷ b'.' ∷ b'1' ∷ b'.' ∷ b'5' ∷ b'.' ∷ b'5' ∷ b'.' ∷ b'7' ∷ b'.'
    ∷ b'3' ∷ b'.' ∷ b'4' ∷ 0 ∷ []

-- The loop over the identifiers.
unfoldable pub names_email : List (Option Bytes) → Bool
names_email [] = false
names_email (none ∷ rest) = names_email rest
names_email (some oid ∷ rest) = bytes_eq oid oid_email_protection || names_email rest

unfoldable pub no_identifiers : List (Option Bytes) → Bool
no_identifiers [] = true
no_identifiers _ = false

-- The set `processed`, the objects so far, and the certificate at which the walk stands.
pub record Walk (w : WindowsApi) : Type 0 where
  pub processed : List Bytes
  pub new_objects : List (Object Cert (Key w) Trust)

module _ (w : WindowsApi) where
  unfoldable pub cert_is_self_signed : w.CertContext → Bool
  cert_is_self_signed c = bytes_eq (w.issuer c) (w.subject c)

  unfoldable pub eku_permits_email_protection : w.Os → w.CertContext → Bool
  unfolding no_identifiers
  eku_permits_email_protection os c = elim (w.usage_length os c) [
    | none ↦ false
    | some len ↦ if len == 0 then true else elim (w.usage os c) [
      | none ↦ false
      | some identifiers ↦ no_identifiers identifiers || names_email identifiers
    ]
  ]

module _ (k : Cryptoki) (o : ByteOrder) (w : WindowsApi) where
  -- The certificate object of an issuer; a failure is only logged.
  unfoldable pub issuer_cert : w.CertContext → List (Object Cert (Key w) Trust)
  issuer_cert issuer = elim (cert_new k o w issuer) [ err _ ↦ [] | ok ca_cert ↦ cert ca_cert ∷ [] ]

  -- The trust object of an issuer that Windows trusts as a root and whose usage permits it.
  unfoldable pub issuer_trust : w.Os → w.CertContext → List (Object Cert (Key w) Trust)
  issuer_trust os issuer =
      if w.exists_in_root os issuer
      then (if eku_permits_email_protection w os issuer
          then elim (trust_new k o w issuer) [ err _ ↦ [] | ok t ↦ trust t ∷ [] ]
          else [])
      else []

  -- The body of the `if processed.insert(id)`.
  unfoldable pub visit : w.Os → w.CertContext → Walk w → Walk w
  visit os issuer s =
      let id = w.sha256 (w.der issuer) in
      if contains s.processed id then s else record {
        processed = id ∷ s.processed;
        new_objects = s.new_objects ++ issuer_cert issuer ++ issuer_trust os issuer;
      }

  -- The walk up from a certificate, of at most so many issuers.
  unfoldable pub climb : w.Os → ℕ → w.CertContext → Walk w → Walk w
  climb os zero current s = s
  climb os (suc depth) current s = elim (w.issuer_certificate os current) [
    | none ↦ s
    | some issuer ↦
        let visited = visit os issuer s in
        elim (cert_is_self_signed w issuer) [
          | true ↦ visited
          | false ↦ climb os depth issuer visited
        ]
  ]

  -- The loop over the leaves.
  unfoldable pub climb_all : w.Os → List Bytes → Walk w → Walk w
  climb_all os [] s = s
  climb_all os (leaf_der ∷ leaves) s = elim (w.create_context os leaf_der) [
    | err _ ↦ climb_all os leaves s
    | ok leaf ↦ climb_all os leaves (climb os max_chain_depth leaf s)
  ]

  unfoldable pub list_root_trust_objects : w.Os → List Bytes → List (Object Cert (Key w) Trust)
  list_root_trust_objects os leaf_cert_values =
      if w.opens os Store.my
        && w.opens os Store.ca
        && w.opens os Store.root
        && w.opens os Store.collection
      then (climb_all os leaf_cert_values (record { processed = []; new_objects = [] })).new_objects
      else []

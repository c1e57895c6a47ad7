-- ===== src/Windows/Granted.antt =====
-- Which certificates Windows is taken to trust: those that a chain of the user's leads to.
use osclientcerts.Prelude.{
  ℕ, ◌≡◌, ap, ◌∙◌, true, ◌||◌, ◌==◌, Option, none, some, List, [], ◌∷◌, ◌++◌, ok, Bytes, arith, All,
  All-join, Bool-cases, Option-cases, Result-cases, inl, inr, bytes_eq, bytes_eq_sound,
}
use mathlib.Core.List.{reverse}
use osclientcerts.ByteOrder.{ByteOrder}
use osclientcerts.Cryptoki.{Cryptoki}
use osclientcerts.Util.{serialize_uint}
use osclientcerts.Backend.{Object, cert, key, trust}
use osclientcerts.Windows.Api.{WindowsApi}
use osclientcerts.Windows.Objects.{Cert, Key, Trust, trust_new}
use osclientcerts.Windows.Chain.{
  oid_email_protection, names_email, no_identifiers, eku_permits_email_protection, issuer_cert,
  issuer_trust,
}
use osclientcerts.Windows.Climb.{IsAbove, list_root_trust_objects-All}
use osclientcerts.Windows.Listing.{pair, pairs, cert_values, list_objects}

-- "1.3.6.1.5.5.7.3.4" and a zero, of RFC 5280, 4.2.1.12.
abbrev pub id_kp_email_protection : Bytes
id_kp_email_protection =
    49 ∷ 46 ∷ 51 ∷ 46 ∷ 54 ∷ 46 ∷ 49 ∷ 46 ∷ 53 ∷ 46 ∷ 53 ∷ 46 ∷ 55 ∷ 46 ∷ 51 ∷ 46 ∷ 52 ∷ 0 ∷ []

-- Trusted for e-mail (CKT_NSS_TRUSTED_DELEGATOR), unknown for the rest (CKT_NSS_TRUST_UNKNOWN), and
-- not for step-up.
pub record IsEmailOnly (k : Cryptoki) (o : ByteOrder) (t : Trust) : Type 0 where
  pub server_auth : serialize_uint o k.ulong_size 0xCE53_4355 ≡ ok t.server_auth
  pub client_auth : serialize_uint o k.ulong_size 0xCE53_4355 ≡ ok t.client_auth
  pub code_signing : serialize_uint o k.ulong_size 0xCE53_4355 ≡ ok t.code_signing
  pub email_protection : serialize_uint o k.ulong_size 0xCE53_4352 ≡ ok t.email_protection
  pub step_up_approved : t.step_up_approved ≡ 0 ∷ []

-- The trust object is that of a certificate.
pub record IsFor (w : WindowsApi) (c : w.CertContext) (t : Trust) : Type 0 where
  pub issuer : t.issuer ≡ w.issuer c
  pub serial_number : t.serial_number ≡ reverse (w.serial_number c)
  pub sha1_hash : t.sha1_hash ≡ w.sha1 (w.der c)

-- What CertGetEnhancedKeyUsage answers for a certificate that may be used for e-mail: no identifier,
-- or identifiers of which one is that of e-mail protection.
pub data UsageAllowsEmail (w : WindowsApi) (os : w.Os) (c : w.CertContext) : Type 0 where
  nothing : w.usage_length os c ≡ some 0 → UsageAllowsEmail w os c
  no_identifier :
      (len : ℕ) → w.usage_length os c ≡ some len → w.usage os c ≡ some [] → UsageAllowsEmail w os c
  named :
      (len : ℕ) (before after : List (Option Bytes))
      → w.usage_length os c ≡ some len
      → w.usage os c ≡ some (before ++ some id_kp_email_protection ∷ after)
      → UsageAllowsEmail w os c

names_email-split :
    (identifiers : List (Option Bytes))
    → names_email identifiers ≡ true
    → (before after : List (Option Bytes)) × (identifiers
        ≡ before ++ some id_kp_email_protection ∷ after)
unfolding names_email
names_email-split [] h = cc
names_email-split (none ∷ rest) h =
    let (before, after, e) = names_email-split rest h in
    (none ∷ before, after, ap (λ l. none ∷ l) e)
names_email-split (some oid ∷ rest) h = elim (Bool-cases (bytes_eq oid oid_email_protection)) [
  | inl same ↦ ([], rest, ap (λ x. some x ∷ rest) (bytes_eq_sound oid oid_email_protection same))
  | inr other ↦
      let (before, after, e) = names_email-split rest (ground arith) in
      (some oid ∷ before, after, ap (λ l. some oid ∷ l) e)
]

module _ (w : WindowsApi) (os : w.Os) (c : w.CertContext) where
  usage-UsageAllowsEmail :
      (len : ℕ) (identifiers : List (Option Bytes))
      → w.usage_length os c ≡ some len
      → w.usage os c ≡ some identifiers
      → (no_identifiers identifiers || names_email identifiers) ≡ true
      → UsageAllowsEmail w os c
  unfolding no_identifiers
  usage-UsageAllowsEmail len [] asked answered h = no_identifier len asked answered
  usage-UsageAllowsEmail len (x ∷ rest) asked answered h =
      let (before, after, e) = names_email-split (x ∷ rest) h in
      named len before after asked (answered ∙ ap some e)

  eku_permits_email_protection-UsageAllowsEmail :
      eku_permits_email_protection w os c ≡ true → UsageAllowsEmail w os c
  unfolding eku_permits_email_protection
  eku_permits_email_protection-UsageAllowsEmail h = elim (Option-cases (w.usage_length os c)) [
    | inl failed ↦ absurd (ground arith)
    | inr (len, asked) ↦ elim (Bool-cases (len == 0)) [
      | inl empty ↦ nothing (asked ∙ ap some (ground arith))
      | inr more ↦ elim (Option-cases (w.usage os c)) [
        | inl failed ↦ absurd (ground arith)
        | inr (identifiers, answered) ↦
            usage-UsageAllowsEmail len identifiers asked answered (ground arith)
      ]
    ]
  ]

module _ (k : Cryptoki) (o : ByteOrder) (w : WindowsApi) (os : w.Os) where
  -- Why a trust object is there, for the values of some certificates.
  pub record IsGranted (leaves : List Bytes) (t : Trust) : Type 0 where
    pub issuer : w.CertContext
    pub above : IsAbove w os leaves issuer
    pub trusted : w.exists_in_root os issuer ≡ true
    pub permitted : UsageAllowsEmail w os issuer
    pub made : IsFor w issuer t
    pub email_only : IsEmailOnly k o t

  abbrev pub IsJustified : List Bytes → Object Cert (Key w) Trust → Type 0
  IsJustified leaves (cert c) = Unit
  IsJustified leaves (key c) = Unit
  IsJustified leaves (trust t) = IsGranted leaves t

module _ (k : Cryptoki) (o : ByteOrder) (w : WindowsApi) where
  trust_new-IsEmailOnly :
      (c : w.CertContext) (t : Trust) → trust_new k o w c ≡ ok t → IsEmailOnly k o t
  unfolding trust_new
  trust_new-IsEmailOnly c t h = record {
    server_auth = ground arith;
    client_auth = ground arith;
    code_signing = ground arith;
    email_protection = ground arith;
    step_up_approved = ground arith;
  }

  trust_new-IsFor : (c : w.CertContext) (t : Trust) → trust_new k o w c ≡ ok t → IsFor w c t
  unfolding trust_new
  trust_new-IsFor c t h = record {
    issuer = ground arith;
    serial_number = ground arith;
    sha1_hash = ground arith;
  }

module _ (k : Cryptoki) (o : ByteOrder) (w : WindowsApi) (os : w.Os) (leaves : List Bytes) where
  abbrev AllJustified : List (Object Cert (Key w) Trust) → Type 0
  AllJustified = All (IsJustified k o w os leaves)

  issuer_cert-AllJustified : (issuer : w.CertContext) → AllJustified (issuer_cert k o w issuer)
  unfolding issuer_cert
  issuer_cert-AllJustified issuer = ground arith

  issuer_trust-AllJustified :
      (issuer : w.CertContext)
      → IsAbove w os leaves issuer
      → AllJustified (issuer_trust k o w os issuer)
  unfolding issuer_trust
  issuer_trust-AllJustified issuer above = elim (Bool-cases (w.exists_in_root os issuer)) [
    | inr distrusted ↦ rw (distrusted, issuer_trust) tt
    | inl trusted ↦ elim (Bool-cases (eku_permits_email_protection w os issuer)) [
      | inr refused ↦ rw (trusted, refused, issuer_trust) tt
      | inl permitted ↦ elim (Result-cases (trust_new k o w issuer)) [
        | inl (e, failed) ↦ rw (trusted, permitted, failed, issuer_trust) tt
        | inr (t, made) ↦
            rw (trusted, permitted, made, issuer_trust)
              (
                record {
                  issuer = issuer;
                  above = above;
                  trusted = trusted;
                  permitted = eku_permits_email_protection-UsageAllowsEmail w os issuer permitted;
                  made = trust_new-IsFor k o w issuer t made;
                  email_only = trust_new-IsEmailOnly k o w issuer t made;
                },
                tt,
              )
      ]
    ]
  ]

module _ (k : Cryptoki) (o : ByteOrder) (w : WindowsApi) (os : w.Os) (leaves : List Bytes) where
  pair-AllJustified : (c : w.CertContext) → AllJustified k o w os leaves (pair k o w c)
  unfolding pair
  pair-AllJustified c = ground arith

  pairs-AllJustified : (cs : List w.CertContext) → AllJustified k o w os leaves (pairs k o w cs)
  unfolding pairs
  pairs-AllJustified [] = tt
  pairs-AllJustified (c ∷ cs) =
      All-join _ (pair k o w c) _ (pair-AllJustified c) (pairs-AllJustified cs)

-- On Windows, every trust object that is listed is one for a certificate (by its issuer, serial
-- number and hash) that the system holds in its ROOT store, for which CertGetEnhancedKeyUsage succeeds
-- and answers no identifier at all or that of e-mail protection, and which the issuers of a listed
-- certificate of the user lead to in at most eight steps; and it is trusted for e-mail, unknown for
-- servers, clients and code, and not approved for step-up.
pub list_objects-IsGranted :
    (k : Cryptoki) (o : ByteOrder) (w : WindowsApi) (os : w.Os) (cs : List w.CertContext)
    → w.my_certs os ≡ some cs
    → All (IsJustified k o w os (cert_values k o w (pairs k o w cs))) (list_objects k o w os)
unfolding list_objects
list_objects-IsGranted k o w os cs e =
    let values = cert_values k o w (pairs k o w cs) in
    rw (e, list_objects)
      (All-join _ (pairs k o w cs) _ (pairs-AllJustified k o w os values cs) (
        list_root_trust_objects-All k o w os values _ (λ issuer above. (
          issuer_cert-AllJustified k o w os values issuer,
          issuer_trust-AllJustified k o w os values issuer above,
        ))))

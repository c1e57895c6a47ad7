-- ===== src/Windows/Objects.antt =====
-- src/backend_windows.rs: `Cert`, `Key` and `Trust`, and how each is made of a certificate context.
use mathlib.Core.List.{reverse}
use osclientcerts.Prelude.{
  ℕ, Option, none, some, [], ◌∷◌, ◌++◌, Result, ok, err, ◌>>=◌, Bytes, bytes_eq, ◌!=◌,
  if◌then◌else◌,
}
use osclientcerts.ByteOrder.{ByteOrder}
use osclientcerts.Cryptoki.{Cryptoki, ck_true, ck_false}
use osclientcerts.Util.{serialize_uint}
use osclientcerts.Util.Der.{read_rsa_modulus}
use osclientcerts.Util.Nss.{cko_nss_trust, ckt_nss_trusted_delegator, ckt_nss_trust_unknown}
use osclientcerts.Windows.Api.{WindowsApi}

pub record Cert : Type 0 where
  pub class : Bytes
  pub token : Bytes
  pub id : Bytes
  pub label : Bytes
  pub value : Bytes
  pub issuer : Bytes
  pub serial_number : Bytes
  pub subject : Bytes

pub data KeyType : Type 0 where
  ec : KeyType
  rsa : KeyType

pub record Key (w : WindowsApi) : Type 0 where
  pub cert : w.CertContext
  pub class : Bytes
  pub token : Bytes
  pub id : Bytes
  pub label : Bytes
  pub subject : Bytes
  pub issuer : Bytes
  pub serial_number : Bytes
  pub private : Bytes
  pub key_type : Bytes
  pub modulus : Option Bytes
  pub ec_params : Option Bytes
  pub key_type_enum : KeyType
  pub sign : Bytes
  pub decrypt : Bytes
  pub sensitive : Bytes
  pub extractable : Bytes
  pub always_authenticate : Bytes
  pub local : Bytes

pub record Trust : Type 0 where
  pub class : Bytes
  pub token : Bytes
  pub issuer : Bytes
  pub serial_number : Bytes
  pub server_auth : Bytes
  pub client_auth : Bytes
  pub code_signing : Bytes
  pub email_protection : Bytes
  pub step_up_approved : Bytes
  pub sha1_hash : Bytes

-- `Trust::id`
unfoldable pub trust_id : Trust → Bytes
trust_id t = t.issuer ++ t.serial_number

module _ (k : Cryptoki) (o : ByteOrder) (w : WindowsApi) where
  unfoldable pub get_cert_subject_dn : w.CertContext → Result Bytes Unit
  get_cert_subject_dn c =
      let n = w.name_length c in
      let (written, bytes) = w.name_to_str c n in if written != n then err tt else ok bytes

  -- `Cert::new`
  unfoldable pub cert_new : w.CertContext → Result Cert Unit
  cert_new c = do
    label ← get_cert_subject_dn c
    class ← serialize_uint o k.ulong_size k.cko_certificate
    ok (record {
      class = class;
      token = ck_true ∷ [];
      id = w.sha256 (w.der c);
      label = label;
      value = w.der c;
      issuer = w.issuer c;
      serial_number = reverse (w.serial_number c);
      subject = w.subject c;
    })

  -- What a key's algorithm makes of it: its type, the type's attribute, the modulus, the parameters.
  unfoldable pub key_kind : w.CertContext → Result (KeyType × ℕ × Option Bytes × Option Bytes) Unit
  key_kind c = elim (w.algorithm_oid c) [
    | none ↦ err tt
    | some oid ↦
        if bytes_eq oid w.oid_rsa_rsa
        then (if w.unused_bits c != 0 then err tt else (do
          modulus ← read_rsa_modulus o (w.public_key c)
          ok (KeyType.rsa, k.ckk_rsa, some modulus, none)))
        else if bytes_eq oid w.oid_ecc_public_key
        then ok (KeyType.ec, k.ckk_ec, none, some (w.algorithm_parameters c))
        else err tt
  ]

  -- `Key::new`
  unfoldable pub key_new : w.CertContext → Result (Key w) Unit
  key_new c = do
    label ← get_cert_subject_dn c
    (key_type_enum, key_type_attribute, modulus, ec_params) ← key_kind c
    class ← serialize_uint o k.ulong_size k.cko_private_key
    key_type ← serialize_uint o k.ulong_size key_type_attribute
    ok (record {
      cert = c;
      class = class;
      token = ck_true ∷ [];
      id = w.sha256 (w.der c);
      label = label;
      subject = w.subject c;
      issuer = w.issuer c;
      serial_number = reverse (w.serial_number c);
      private = ck_true ∷ [];
      key_type = key_type;
      modulus = modulus;
      ec_params = ec_params;
      key_type_enum = key_type_enum;
      sign = ck_true ∷ [];
      decrypt = ck_true ∷ [];
      sensitive = ck_true ∷ [];
      extractable = ck_false ∷ [];
      always_authenticate = ck_false ∷ [];
      local = ck_true ∷ [];
    })

  -- `Trust::new`; a `CK_TRUST` is a `CK_ULONG`.
  unfoldable pub trust_new : w.CertContext → Result Trust Unit
  trust_new c = do
    class ← serialize_uint o k.ulong_size (cko_nss_trust k)
    server_auth ← serialize_uint o k.ulong_size ckt_nss_trust_unknown
    client_auth ← serialize_uint o k.ulong_size ckt_nss_trust_unknown
    code_signing ← serialize_uint o k.ulong_size ckt_nss_trust_unknown
    email_protection ← serialize_uint o k.ulong_size ckt_nss_trusted_delegator
    ok (record {
      class = class;
      token = ck_true ∷ [];
      issuer = w.issuer c;
      serial_number = reverse (w.serial_number c);
      server_auth = server_auth;
      client_auth = client_auth;
      code_signing = code_signing;
      email_protection = email_protection;
      step_up_approved = ck_false ∷ [];
      sha1_hash = w.sha1 (w.der c);
    })

-- ===== src/Macos/Objects.antt =====
-- src/backend_macos.rs: `Cert`, `Key` and `Trust`, and how they are made of an identity.
use osclientcerts.Prelude.{
  ℕ, ◌+◌, ◌/◌, Option, none, some, List, [], ◌∷◌, ◌++◌, Result, ok, err, ◌>>=◌, Bytes, bytes_eq,
  ◌==◌, if◌then◌else◌,
}
use osclientcerts.ByteOrder.{ByteOrder}
use osclientcerts.Cryptoki.{Cryptoki, ck_true, ck_false}
use osclientcerts.Util.{serialize_uint}
use osclientcerts.Util.Der.{read_rsa_modulus}
use osclientcerts.Backend.{Object, cert, key}
use osclientcerts.Macos.Api.{MacosApi, key_type_ec}

pub record Cert : Type 0 where
  pub class : Bytes
  pub token : Bytes
  pub id : Bytes
  pub label : Bytes
  pub value : Bytes
  pub issuer : Bytes
  pub serial_number : Bytes
  pub subject : Bytes

-- An elliptic curve key has the width of a coordinate.
pub data KeyType : Type 0 where
  ec : ℕ → KeyType
  rsa : KeyType

pub record Key (w : MacosApi) : Type 0 where
  pub identity : w.SecIdentity
  pub class : Bytes
  pub token : Bytes
  pub id : Bytes
  pub label : Bytes
  pub subject : Bytes
  pub issuer : Bytes
  pub serial_number : Bytes
  pub private : Bytes
  pub key_type : Bytes
  pub modulus : Option Bytes
  pub ec_params : Option Bytes
  pub key_type_enum : KeyType
  pub sign : Bytes
  pub decrypt : Bytes
  pub sensitive : Bytes
  pub extractable : Bytes
  pub always_authenticate : Bytes
  pub local : Bytes

pub record Trust : Type 0 where
  pub issuer : Bytes
  pub serial_number : Bytes

-- `Trust::id`
unfoldable pub trust_id : Trust → Bytes
trust_id t = t.issuer ++ t.serial_number

-- The object identifiers of the three curves.
abbrev pub oid_bytes_secp256r1 : Bytes
oid_bytes_secp256r1 = 0x06 ∷ 0x08 ∷ 0x2a ∷ 0x86 ∷ 0x48 ∷ 0xce ∷ 0x3d ∷ 0x03 ∷ 0x01 ∷ 0x07 ∷ []

abbrev pub oid_bytes_secp384r1 : Bytes
oid_bytes_secp384r1 = 0x06 ∷ 0x05 ∷ 0x2b ∷ 0x81 ∷ 0x04 ∷ 0x00 ∷ 0x22 ∷ []

abbrev pub oid_bytes_secp521r1 : Bytes
oid_bytes_secp521r1 = 0x06 ∷ 0x05 ∷ 0x2b ∷ 0x81 ∷ 0x04 ∷ 0x00 ∷ 0x23 ∷ []

-- The `match key_size_in_bits`.
unfoldable pub curve : ℕ → Result Bytes Unit
curve bits =
    if bits == 256
    then ok oid_bytes_secp256r1
    else if bits == 384
    then ok oid_bytes_secp384r1
    else if bits == 521
    then ok oid_bytes_secp521r1
    else err tt

-- A 64-bit number, or an error.
abbrev some_bits : Option ℕ → Result ℕ Unit
some_bits none = err tt
some_bits (some bits) = ok bits

module _ (k : Cryptoki) (o : ByteOrder) (w : MacosApi) where
  -- `Cert::new`
  unfoldable pub cert_new : w.SecIdentity → Result Cert Unit
  cert_new identity = do
    certificate ← w.identity_copy_certificate identity
    label ← w.copy_subject_summary certificate
    der ← w.copy_data certificate
    issuer ← w.copy_normalized_issuer_sequence certificate
    serial_number ← w.copy_serial_number_data certificate
    subject ← w.copy_normalized_subject_sequence certificate
    class ← serialize_uint o k.ulong_size k.cko_certificate
    token ← serialize_uint o 1 ck_true
    ok (record {
      class = class;
      token = token;
      id = w.sha256 der;
      label = label;
      value = der;
      issuer = issuer;
      serial_number = serial_number;
      subject = subject;
    })

  -- What a key's type makes of it: its type, the type's attribute, the modulus, the parameters.
  unfoldable pub key_kind :
      w.SecKey → Bytes → Option ℕ → Bytes → Result (KeyType × ℕ × Option Bytes × Option Bytes) Unit
  key_kind sec_key key_type key_size_in_bits sec_attr_key_type_ec =
      if w.is_rsa key_type
      then (do
        public_key ← w.copy_external_representation sec_key
        modulus ← read_rsa_modulus o public_key
        ok (KeyType.rsa, k.ckk_rsa, some modulus, none))
      else if bytes_eq key_type sec_attr_key_type_ec
      then (do
        bits ← some_bits key_size_in_bits
        ec_params ← curve bits
        ok (KeyType.ec ((bits + 7) / 8), k.ckk_ec, none, some ec_params))
      else err tt

  -- `Key::new`
  unfoldable pub key_new : w.SecIdentity → Result (Key w) Unit
  key_new identity = do
    certificate ← w.identity_copy_certificate identity
    der ← w.copy_data certificate
    label ← w.copy_subject_summary certificate
    subject ← w.copy_normalized_subject_sequence certificate
    issuer ← w.copy_normalized_issuer_sequence certificate
    serial_number ← w.copy_serial_number_data certificate
    sec_key ← w.copy_key certificate
    sec_key_type ← w.key_type sec_key
    key_size_in_bits ← w.key_size_in_bits sec_key
    sec_attr_key_type_ec ← w.string_constant key_type_ec
    (key_type_enum, key_type_attribute, modulus, ec_params) ←
        key_kind sec_key sec_key_type key_size_in_bits sec_attr_key_type_ec
    class ← serialize_uint o k.ulong_size k.cko_private_key
    token ← serialize_uint o 1 ck_true
    private ← serialize_uint o 1 ck_true
    key_type ← serialize_uint o k.ulong_size key_type_attribute
    ok (record {
      identity = identity;
      class = class;
      token = token;
      id = w.sha256 der;
      label = label;
      subject = subject;
      issuer = issuer;
      serial_number = serial_number;
      private = private;
      key_type = key_type;
      modulus = modulus;
      ec_params = ec_params;
      key_type_enum = key_type_enum;
      sign = ck_true ∷ [];
      decrypt = ck_true ∷ [];
      sensitive = ck_true ∷ [];
      extractable = ck_false ∷ [];
      always_authenticate = ck_false ∷ [];
      local = ck_true ∷ [];
    })

  -- The certificate and the key of an identity, or neither.
  unfoldable pub pair : w.SecIdentity → List (Object Cert (Key w) Trust)
  pair identity = elim (cert_new identity) [
    | err _ ↦ []
    | ok new_cert ↦ elim (key_new identity) [
      | err _ ↦ []
      | ok new_key ↦ cert new_cert ∷ key new_key ∷ []
    ]
  ]

  -- `list_identities` and the loop of `list_objects` over it.
  unfoldable pub pairs : List w.SecIdentity → List (Object Cert (Key w) Trust)
  pairs [] = []
  pairs (identity ∷ identities) = pair identity ++ pairs identities

  unfoldable pub list_objects : w.Os → List (Object Cert (Key w) Trust)
  list_objects os = elim (w.identities os) [ none ↦ [] | some identities ↦ pairs identities ]

-- ===== src/Backend/Stub.antt =====
-- src/backend_other.rs: the backend of the hosts that have no other, which the unit tests run on. It
-- answers with fixed bytes. The objects that the `nss-regression` feature reads from files are in
-- Regression.
use osclientcerts.Prelude.{
  ℕ, Bool, true, false, ◌&&◌, Option, none, some, List, [], ◌∷◌, ◌++◌, Result, ok, err, ◌>>=◌,
  Bytes, bytes_eq, length, replicate, ltb, ◌==◌, if◌then◌else◌,
}
use osclientcerts.ByteOrder.{ByteOrder}
use osclientcerts.Cryptoki.{Cryptoki}
use osclientcerts.Util.{serialize_uint}
use osclientcerts.Util.Errors.{CryptoError, buffer_too_small}
use osclientcerts.Backend.{Object, cert, key, trust, Attributes, Backend}

abbrev pub stub_output_length : ℕ
stub_output_length = 128

abbrev pub stub_short_input_len : ℕ
stub_short_input_len = 64

unfoldable pub stub_output_len : Bytes → Result ℕ CryptoError
stub_output_len input =
    if ltb (length input) stub_short_input_len
    then err (buffer_too_small stub_output_length)
    else ok stub_output_length

unfoldable pub stub_cipher : Bytes → ℕ → Result Bytes CryptoError
stub_cipher input fill = do n ← stub_output_len input; ok (replicate n fill)

-- `Attrs::get`: the first entry with the type.
unfoldable pub attrs_get : Attributes → ℕ → Option Bytes
attrs_get [] a = none
attrs_get ((b, value) ∷ attrs) a = if b == a then some value else attrs_get attrs a

-- `self.get(..) == Some(value)`
unfoldable pub is_value : Option Bytes → Bytes → Bool
is_value none value = false
is_value (some other) value = bytes_eq other value

-- `Attrs::matches`
unfoldable pub attrs_match : Attributes → Attributes → Bool
unfolding is_value
attrs_match attrs [] = true
attrs_match attrs ((a, value) ∷ wanted) =
    is_value (attrs_get attrs a) value && attrs_match attrs wanted

-- The three structs have the one field.
pub record Attrs : Type 0 where
  pub attrs : Attributes

-- `Option::unwrap`, and `Result::unwrap`, of a value that the fixed objects do have.
abbrev unwrap : Option Bytes → Bytes
unwrap none = []
unwrap (some value) = value

abbrev unwrap_ok : Result Bytes (Unit {0}) → Bytes
unwrap_ok (err _) = []
unwrap_ok (ok bytes) = bytes

abbrev StubObject : Type 0
StubObject = Object Attrs Attrs Attrs

object_attrs : StubObject → Attributes
object_attrs (cert c) = c.attrs
object_attrs (key c) = c.attrs
object_attrs (trust c) = c.attrs

-- What the operating system of a test host may answer: only the time differs.
pub record StubOs : Type 0 where
  pub time : ℕ

module _ (k : Cryptoki) (o : ByteOrder) where
  unfoldable pub cert_attrs : Attributes
  unfolding serialize_uint
  cert_attrs =
      (k.cka_class, unwrap_ok (serialize_uint o k.ulong_size k.cko_certificate))
      ∷ (k.cka_token, 1 ∷ [])
      ∷ (k.cka_label, 0x74 ∷ 0x65 ∷ 0x73 ∷ 0x74 ∷ 0x2d ∷ 0x63 ∷ 0x65 ∷ 0x72 ∷ 0x74 ∷ [])
      ∷ (k.cka_id, 0x42 ∷ [])
      ∷ (k.cka_value, 0x30 ∷ 0x00 ∷ [])
      ∷ (k.cka_issuer, 0x43 ∷ 0x4e ∷ 0x3d ∷ 0x54 ∷ 0x65 ∷ 0x73 ∷ 0x74 ∷ 0x20 ∷ 0x43 ∷ 0x41 ∷ [])
      ∷ (k.cka_serial_number, 0x03 ∷ 0x02 ∷ 0x01 ∷ [])
      ∷ (
        k.cka_subject,
        0x43 ∷ 0x4e ∷ 0x3d ∷ 0x54 ∷ 0x65 ∷ 0x73 ∷ 0x74 ∷ 0x20 ∷ 0x43 ∷ 0x65 ∷ 0x72 ∷ 0x74 ∷ [],
      )
      ∷ []

  unfoldable pub key_attrs : Attributes
  unfolding serialize_uint
  key_attrs =
      (k.cka_class, unwrap_ok (serialize_uint o k.ulong_size k.cko_private_key))
      ∷ (k.cka_token, 1 ∷ [])
      ∷ (k.cka_id, 0x42 ∷ [])
      ∷ (k.cka_label, 0x74 ∷ 0x65 ∷ 0x73 ∷ 0x74 ∷ 0x2d ∷ 0x63 ∷ 0x65 ∷ 0x72 ∷ 0x74 ∷ [])
      ∷ (
        k.cka_subject,
        0x43 ∷ 0x4e ∷ 0x3d ∷ 0x54 ∷ 0x65 ∷ 0x73 ∷ 0x74 ∷ 0x20 ∷ 0x43 ∷ 0x65 ∷ 0x72 ∷ 0x74 ∷ [],
      )
      ∷ (k.cka_issuer, 0x43 ∷ 0x4e ∷ 0x3d ∷ 0x54 ∷ 0x65 ∷ 0x73 ∷ 0x74 ∷ 0x20 ∷ 0x43 ∷ 0x41 ∷ [])
      ∷ (k.cka_serial_number, 0x03 ∷ 0x02 ∷ 0x01 ∷ [])
      ∷ (k.cka_private, 1 ∷ [])
      ∷ (k.cka_key_type, unwrap_ok (serialize_uint o k.ulong_size k.ckk_rsa))
      ∷ (
        k.cka_modulus,
        0xa0 ∷ 0xa1 ∷ 0xa2 ∷ 0xa3 ∷ 0xa4 ∷ 0xa5 ∷ 0xa6 ∷ 0xa7 ∷ 0xa8 ∷ 0xa9 ∷ 0xaa ∷ 0xab ∷ 0xac
            ∷ 0xad ∷ 0xae ∷ 0xaf ∷ [],
      )
      ∷ (k.cka_sign, 1 ∷ [])
      ∷ (k.cka_decrypt, 1 ∷ [])
      ∷ (k.cka_sensitive, 1 ∷ [])
      ∷ (k.cka_extractable, 0 ∷ [])
      ∷ (k.cka_always_authenticate, 0 ∷ [])
      ∷ (k.cka_local, 1 ∷ [])
      ∷ []

  unfoldable pub list_objects : StubOs → List StubObject
  unfolding cert_attrs key_attrs
  list_objects os = cert (record { attrs = cert_attrs }) ∷ key (record { attrs = key_attrs }) ∷ []

  abbrev pub supported_attributes : List ℕ
  supported_attributes =
      k.cka_class ∷ k.cka_token ∷ k.cka_label ∷ k.cka_id ∷ k.cka_value ∷ k.cka_issuer
      ∷ k.cka_serial_number ∷ k.cka_subject ∷ k.cka_private ∷ k.cka_key_type ∷ k.cka_modulus
      ∷ k.cka_ec_params ∷ k.cka_sign ∷ k.cka_decrypt ∷ k.cka_sensitive ∷ k.cka_extractable
      ∷ k.cka_always_authenticate ∷ k.cka_local ∷ []

  -- The stub as a backend.
  unfoldable pub stub : Backend
  unfolding list_objects attrs_get attrs_match object_attrs stub_output_len stub_cipher
  stub = record {
    cryptoki = k;
    on_windows = false;
    Os = StubOs;
    Cert = Attrs;
    Key = Attrs;
    Trust = Attrs;
    supported_attributes = supported_attributes;
    now = λ os. os.time;
    list_objects = list_objects;
    cert_id = λ c. unwrap (attrs_get c.attrs k.cka_id);
    key_id = λ c. unwrap (attrs_get c.attrs k.cka_id);
    trust_id = λ c.
        unwrap (attrs_get c.attrs k.cka_issuer) ++ unwrap (attrs_get c.attrs k.cka_serial_number);
    matches = λ object wanted. attrs_match (object_attrs object) wanted;
    get_attribute = λ object a. attrs_get (object_attrs object) a;
    get_signature_length = λ os c input params. ok 64;
    sign = λ os c input params. ok (replicate 64 0x11);
    decrypt_length = λ os c input mechanism. stub_output_len input;
    decrypt = λ os c input mechanism. stub_cipher input 0xAB;
    cert_encrypt_length = λ os c input mechanism. stub_output_len input;
    cert_encrypt = λ os c input mechanism. stub_cipher input 0xCD;
    key_encrypt_length = λ os c input mechanism. stub_output_len input;
    key_encrypt = λ os c input mechanism. stub_cipher input 0xCD;
  }

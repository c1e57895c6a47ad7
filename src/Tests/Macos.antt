-- ===== src/Tests/Macos.antt =====
-- A macOS with one identity, of an elliptic curve key, which signs with the numbers 1 and 2.
use osclientcerts.Prelude.{
  ℕ, ◌↔◌, true, All, arith, ◌≡◌, refl, false, none, some, [], ◌∷◌, ◌++◌, ok, err, Bytes, bytes_eq,
}
use osclientcerts.ByteOrder.{little_endian}
use osclientcerts.Cryptoki.{standard}
use osclientcerts.Util.{serialize_uint}
use osclientcerts.Util.Der.{integer_tag, read_ec_sig_point}
use osclientcerts.Util.Der.Keys.{read_ec_sig_point-encode}
use osclientcerts.Util.Der.Encode.{encode, encode_unsigned, encode_length}
use osclientcerts.Backend.{key}
use osclientcerts.Macos.Api.{MacosApi}
use osclientcerts.Macos.Objects.{Key, KeyType, oid_bytes_secp256r1, curve, key_kind, key_new}
use osclientcerts.Macos.Attributes.{object_matches, object_get_attribute}
use osclientcerts.Macos.Matching.{object_matches_iff}
use osclientcerts.Macos.Sign.{
  ec_algorithm_id, algorithm_id, sign_algorithm, padded, joined, signature_value, sign,
}
use osclientcerts.Macos.Signatures.{signature_value-encode}

abbrev one_two : Bytes
one_two = 0x30 ∷ 6 ∷ 2 ∷ 1 ∷ 1 ∷ 2 ∷ 1 ∷ 2 ∷ []

abbrev macos : MacosApi
macos = record {
  Os = Unit;
  SecIdentity = Unit;
  SecCertificate = Unit;
  SecKey = Unit;
  identities = λ _. some (tt ∷ []);
  identity_copy_certificate = λ _. ok tt;
  identity_copy_private_key = λ _ _. ok tt;
  copy_subject_summary = λ _. ok (65 ∷ []);
  copy_data = λ _. ok (0x30 ∷ 0 ∷ []);
  copy_normalized_issuer_sequence = λ _. ok (1 ∷ []);
  copy_normalized_subject_sequence = λ _. ok (2 ∷ []);
  copy_serial_number_data = λ _. ok (3 ∷ []);
  copy_key = λ _. ok tt;
  copy_external_representation = λ _. err tt;
  key_type = λ _. ok (7 ∷ []);
  is_rsa = λ _. false;
  key_size_in_bits = λ _. ok (some 256);
  string_constant = λ _. ok (7 ∷ []);
  create_signature = λ _ _ _ _. ok one_two;
  sha256 = λ _. 9 ∷ [];
}

-- The key of the identity.
abbrev ec_key : Key macos
ec_key = record {
  identity = tt;
  class = 3 ∷ 0 ∷ 0 ∷ 0 ∷ [];
  token = 1 ∷ [];
  id = 9 ∷ [];
  label = 65 ∷ [];
  subject = 2 ∷ [];
  issuer = 1 ∷ [];
  serial_number = 3 ∷ [];
  private = 1 ∷ [];
  key_type = 3 ∷ 0 ∷ 0 ∷ 0 ∷ [];
  modulus = none;
  ec_params = some oid_bytes_secp256r1;
  key_type_enum = KeyType.ec 32;
  sign = 1 ∷ [];
  decrypt = 1 ∷ [];
  sensitive = 1 ∷ [];
  extractable = 0 ∷ [];
  always_authenticate = 0 ∷ [];
  local = 1 ∷ [];
}

abbrev hash : Bytes
hash = padded 32 []

read_one_two : read_ec_sig_point little_endian one_two ≡ ok (1 ∷ [], 2 ∷ [])
unfolding encode encode_unsigned encode_length
read_one_two =
    read_ec_sig_point-encode little_endian (1 ∷ []) (2 ∷ []) (omega arith) (omega arith)
      (omega arith)

value_one_two :
    signature_value little_endian (KeyType.ec 32) one_two
    ≡ ok (padded 32 (1 ∷ []) ++ padded 32 (2 ∷ []))
unfolding signature_value joined
value_one_two = rw (signature_value, read_one_two) refl

signed :
    sign standard little_endian macos tt ec_key hash none
    ≡ ok (padded 32 (1 ∷ []) ++ padded 32 (2 ∷ []))
unfolding sign sign_algorithm algorithm_id ec_algorithm_id padded
signed = value_one_two

made : key_new standard little_endian macos tt ≡ ok ec_key
unfolding key_new key_kind curve serialize_uint bytes_eq little_endian
made = refl

signature_value-encode_example :
    signature_value little_endian (KeyType.ec 3) (
      encode 0x30 (
        encode integer_tag (encode_unsigned (1 ∷ []))
        ++ encode integer_tag (encode_unsigned (0x80 ∷ 5 ∷ []))))
    ≡ ok (0 ∷ 0 ∷ 1 ∷ 0 ∷ 0x80 ∷ 5 ∷ [])
unfolding encode encode_unsigned encode_length
signature_value-encode_example =
    signature_value-encode little_endian (1 ∷ []) (0x80 ∷ 5 ∷ []) (omega arith) (omega arith)
      (omega arith) 3 (omega arith) (omega arith)

object_matches_iff_example :
    (object_matches standard macos (key ec_key) ((0x102, 9 ∷ []) ∷ (3, 65 ∷ []) ∷ []) ≡ true)
    ↔ All
        (λ (attr : ℕ × Bytes).
          object_get_attribute standard macos (key ec_key) attr.0 ≡ some attr.1)
        ((0x102, 9 ∷ []) ∷ (3, 65 ∷ []) ∷ [])
object_matches_iff_example =
    object_matches_iff macos (key ec_key) ((0x102, 9 ∷ []) ∷ (3, 65 ∷ []) ∷ []) (λ e. cc)

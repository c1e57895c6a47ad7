-- ===== src/Tests/Parsing.antt =====
-- The DER reader, the mechanism parser and the integer layout at concrete inputs.
use osclientcerts.Prelude.{
  ℕ, ◌≡◌, ◌<◌, ◌↔◌, refl, [], ◌∷◌, ◌++◌, some, ok, err, Bytes, length, arith,
}
use osclientcerts.ByteOrder.{little_endian}
use osclientcerts.Cryptoki.{ckr_mechanism_invalid, standard, CkMechanism}
use osclientcerts.Util.{serialize_uint, length-serialize_uint}
use osclientcerts.Util.Der.{
  read, integer_tag, read_length, sequence_new, read_unsigned_integer, strip_leading_zero,
  read_rsa_modulus,
}
use osclientcerts.Util.Der.Encode.{encode, encode_length, encode_unsigned}
use osclientcerts.Util.Der.Exact.{read_iff}
use osclientcerts.Mechanism.{
  RsaCipherMechanism, oaep, parse_rsa_cipher_mechanism, parse_oaep, expected_mgf, oaep_label,
}
use osclientcerts.Mechanism.Accepts.{Accepts, HasDistinctMechanisms}
use osclientcerts.Mechanism.Exact.{parse_iff}

length-serialize_uint_example :
    (bs : Bytes) × (serialize_uint little_endian 4 0x01020304 ≡ ok bs) × (length bs ≡ 4)
length-serialize_uint_example =
    length-serialize_uint little_endian 4 0x01020304 (omega arith) (omega arith) (omega arith)

read_iff_example :
    (read little_endian 2 (2 ∷ 1 ∷ 7 ∷ 9 ∷ []) ≡ ok (7 ∷ [], 9 ∷ []))
    ↔ ((length {A = ℕ} (7 ∷ []) < 65536) × (2 ∷ 1 ∷ 7 ∷ 9 ∷ [] ≡ encode 2 (7 ∷ []) ++ 9 ∷ []))
read_iff_example = read_iff little_endian 2 (2 ∷ 1 ∷ 7 ∷ 9 ∷ []) (7 ∷ []) (9 ∷ []) (omega arith)

abbrev modulus : Bytes
modulus = 0xC1 ∷ 5 ∷ []

abbrev exponent : Bytes
exponent = 1 ∷ 0 ∷ 1 ∷ []

two_short :
    length (
      encode integer_tag (encode_unsigned modulus) ++ encode integer_tag (encode_unsigned exponent))
    < 65536
unfolding encode encode_length encode_unsigned
two_short = omega arith

-- SEQUENCE { INTEGER 0xC105, INTEGER 3 }
abbrev small_key : Bytes
small_key = 0x30 ∷ 8 ∷ 2 ∷ 3 ∷ 0 ∷ 0xC1 ∷ 5 ∷ 2 ∷ 1 ∷ 3 ∷ []

small_key_modulus : read_rsa_modulus little_endian small_key ≡ ok (0xC1 ∷ 5 ∷ [])
unfolding read_rsa_modulus sequence_new read_unsigned_integer strip_leading_zero read read_length
small_key_modulus = refl

distinct : HasDistinctMechanisms standard
distinct = omega arith

abbrev oaep_mechanism : ℕ → CkMechanism
oaep_mechanism mgf = record {
  mechanism = 9;
  parameter = some (record {
    oaep = record {
      hash_alg = 0x250;
      mgf = mgf;
      source = 1;
      source_data = some (84 ∷ 76 ∷ 83 ∷ 99 ∷ []);
      source_data_len = 3;
    };
    pss = record { hash_alg = 0; mgf = 0; salt_len = 0 };
  });
  parameter_len = 20;
}

abbrev parsed : RsaCipherMechanism
parsed = oaep 0x250 (84 ∷ 76 ∷ 83 ∷ [])

oaep_mechanism_parses : parse_rsa_cipher_mechanism standard (oaep_mechanism 2) ≡ ok parsed
unfolding parse_rsa_cipher_mechanism parse_oaep expected_mgf oaep_label
oaep_mechanism_parses = refl

-- SHA-256 with MGF1 over SHA-1.
oaep_mechanism_mismatched :
    parse_rsa_cipher_mechanism standard (oaep_mechanism 1) ≡ err ckr_mechanism_invalid
unfolding parse_rsa_cipher_mechanism parse_oaep expected_mgf oaep_label
oaep_mechanism_mismatched = refl

parse_iff_example :
    (parse_rsa_cipher_mechanism standard (oaep_mechanism 2) ≡ ok parsed)
    ↔ Accepts standard (oaep_mechanism 2) parsed
parse_iff_example = parse_iff standard (oaep_mechanism 2) parsed distinct

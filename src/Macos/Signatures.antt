-- ===== src/Macos/Signatures.antt =====
-- src/backend_macos.rs: the signatures of `Key::sign`, against the two numbers that Security.framework
-- encodes.
use osclientcerts.Prelude.{
  ℕ, ◌≤◌, ◌<◌, ◌*◌, ◌+◌, ◌-◌, replicate, ◌/◌, ◌≡◌, ◌++◌, refl, ok, err, Result, Bytes, length,
  arith, length-append, length-replicate, Option, none, some, ◌⊎◌, subst, >>=-eq-ok,
}
use osclientcerts.ByteOrder.{ByteOrder}
use osclientcerts.Cryptoki.{Cryptoki, PssParams}
use osclientcerts.Util.Errors.{CryptoError, invalid_data, invalid_key, operation_failed}
use osclientcerts.Util.Der.{integer_tag, read_ec_sig_point}
use osclientcerts.Util.Der.Encode.{encode, encode_unsigned}
use osclientcerts.Util.Der.Keys.{IsPositive, read_ec_sig_point-encode}
use osclientcerts.Macos.Api.{MacosApi}
use osclientcerts.Macos.Objects.{
  Key, KeyType, oid_bytes_secp256r1, oid_bytes_secp384r1, oid_bytes_secp521r1, curve, key_kind,
  key_new,
}
use osclientcerts.Macos.Sign.{
  joined, or_error, sign_algorithm, padded, signature_value, sign, get_signature_length,
}

length-padded :
    (coordinate_width : ℕ) (r : Bytes)
    → length r ≤ coordinate_width
    → length (padded coordinate_width r) ≡ coordinate_width
unfolding padded
length-padded n r le = omega (arith, length-append {0}, length-replicate {A = ℕ})

joined-length :
    (coordinate_width : ℕ) (r s value : Bytes)
    → joined coordinate_width r s ≡ ok value
    → length value ≡ 2 * coordinate_width
unfolding joined
joined-length n r s value h =
    ground (arith, length-append (padded n r) (padded n s), length-padded n r, length-padded n s)

module _ (o : ByteOrder) where
  signature_value-length :
      (coordinate_width : ℕ) (signature value : Bytes)
      → signature_value o (KeyType.ec coordinate_width) signature ≡ ok value
      → length value ≡ 2 * coordinate_width
  unfolding signature_value
  signature_value-length n signature value h =
      elim (read_ec_sig_point o signature)
          as (λ p.
            elim p as (λ _. Result Bytes CryptoError) [
              | err _ ↦ err invalid_data
              | ok (r, s) ↦ joined n r s
            ]
              ≡ ok value
            → length value ≡ 2 * n) [
              | err _ ↦ λ e. ground arith
              | ok (r, s) ↦ λ e. joined-length n r s value e
            ]
        h

  module _ (r s : Bytes) (r_positive : IsPositive r) (s_positive : IsPositive s)
      (short : length
          (encode integer_tag (encode_unsigned r) ++ encode integer_tag (encode_unsigned s))
        < 65536) where
    -- For two positive numbers of at most `n` bytes each, whose two encodings have less than 64 KiB
    -- together, the ECDSA signature that encodes them is returned, for a key whose coordinates have
    -- `n` bytes, as the two numbers, each behind zeros to `n` bytes.
    pub signature_value-encode :
        (n : ℕ)
        → length r ≤ n
        → length s ≤ n
        → signature_value o (KeyType.ec n) (
            encode 0x30
              (encode integer_tag (encode_unsigned r) ++ encode integer_tag (encode_unsigned s)))
          ≡ ok ((replicate (n - length r) 0 ++ r) ++ (replicate (n - length s) 0 ++ s))
    unfolding signature_value joined padded
    signature_value-encode n le_r le_s =
        rw (signature_value, read_ec_sig_point-encode o r s r_positive s_positive short)
          (ground arith)

-- The key type that a pair of attributes stands for.
abbrev pub IsCurve : KeyType → Option Bytes → Type 0
IsCurve KeyType.rsa ec_params = ec_params ≡ none
IsCurve (KeyType.ec n) ec_params =
    ((n ≡ 32) × (ec_params ≡ some oid_bytes_secp256r1))
    ⊎ ((n ≡ 48) × (ec_params ≡ some oid_bytes_secp384r1))
    ⊎ ((n ≡ 66) × (ec_params ≡ some oid_bytes_secp521r1))

curve-IsCurve :
    (bits : ℕ) (ec_params : Bytes)
    → curve bits ≡ ok ec_params
    → IsCurve (KeyType.ec ((bits + 7) / 8)) (some ec_params)
unfolding curve
curve-IsCurve bits ec_params h = ground arith

module _ (k : Cryptoki) (o : ByteOrder) (w : MacosApi) (os : w.Os) where
  get_signature_length-sign :
      (c : Key w) (input : Bytes) (params : Option PssParams) (value : Bytes)
      → sign k o w os c input params ≡ ok value
      → get_signature_length k o w os c input params ≡ ok (length value)
  unfolding get_signature_length
  get_signature_length-sign c input params value h = rw (get_signature_length, h) refl

  -- A signature with an elliptic curve key whose coordinates have `n` bytes has `2 * n` bytes, as the
  -- length query for the same input and parameters answers.
  pub sign-length :
      (c : Key w) (n : ℕ) (input : Bytes) (params : Option PssParams) (value : Bytes)
      → c.key_type_enum ≡ KeyType.ec n
      → sign k o w os c input params ≡ ok value
      → (length value ≡ 2 * n) × (get_signature_length k o w os c input params ≡ ok (2 * n))
  unfolding sign
  sign-length c n input params value is_ec h =
      let (sec_key, _, h1) =
        >>=-eq-ok (or_error invalid_key (w.identity_copy_private_key os c.identity)) _ h in
      let (algorithm, _, h2) =
        >>=-eq-ok
          (or_error operation_failed (sign_algorithm k o w c.key_type_enum (length input) params)) _
          h1 in
      let (signature, _, h3) =
        >>=-eq-ok (or_error operation_failed (w.create_signature os sec_key algorithm input)) _
          h2 in
      let len =
        signature_value-length o n signature value
          (subst (λ t. signature_value o t signature ≡ ok value) is_ec h3) in
      (len, cc (get_signature_length-sign c input params value h, len))

module _ (k : Cryptoki) (o : ByteOrder) (w : MacosApi) where
  key_kind-IsCurve :
      (sec_key : w.SecKey) (key_type : Bytes) (key_size_in_bits : Option ℕ) (ec : Bytes)
      (kind : KeyType × ℕ × Option Bytes × Option Bytes)
      → key_kind k o w sec_key key_type key_size_in_bits ec ≡ ok kind
      → IsCurve kind.0 kind.3
  unfolding key_kind curve
  key_kind-IsCurve sec_key key_type key_size_in_bits ec kind h = ground arith

  -- A key that is made of an identity has the type and the parameters of RSA, or the coordinate width and
  -- the parameters of one of the three curves.
  pub key_new-IsCurve :
      (identity : w.SecIdentity) (c : Key w)
      → key_new k o w identity ≡ ok c
      → IsCurve c.key_type_enum c.ec_params
  unfolding key_new
  key_new-IsCurve identity c h = grind (arith, key_kind-IsCurve)

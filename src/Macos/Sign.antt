-- ===== src/Macos/Sign.antt =====
-- src/backend_macos.rs: `SignParams` and `Key::sign`.
use osclientcerts.Prelude.{
  ℕ, ◌-◌, Option, none, some, ◌++◌, Result, ok, err, ◌>>=◌, Bytes, length, replicate, ltb, ◌==◌,
  ◌||◌, if◌then◌else◌,
}
use osclientcerts.ByteOrder.{ByteOrder}
use osclientcerts.Cryptoki.{Cryptoki, PssParams}
use osclientcerts.Util.Der.{read_ec_sig_point}
use osclientcerts.Util.Errors.{CryptoError, operation_failed, invalid_key, invalid_data}
use osclientcerts.Macos.Api.{
  MacosApi, SecStringConstant, ecdsa_sha1, ecdsa_sha256, ecdsa_sha384, ecdsa_sha512,
  rsa_pkcs1v15_raw, rsa_pss_sha1, rsa_pss_sha256, rsa_pss_sha384, rsa_pss_sha512,
}
use osclientcerts.Macos.Objects.{Key, KeyType}

-- The algorithm for a hash of that many bytes.
unfoldable pub ec_algorithm_id : ℕ → Result SecStringConstant Unit
ec_algorithm_id data_len =
    if data_len == 20
    then ok ecdsa_sha1
    else if data_len == 32
    then ok ecdsa_sha256
    else if data_len == 48
    then ok ecdsa_sha384
    else if data_len == 64
    then ok ecdsa_sha512
    else err tt

-- `map_err`
abbrev pub or_error : {A : Type 0} → CryptoError → Result A Unit → Result A CryptoError
or_error e (ok a) = ok a
or_error e (err _) = err e

-- A coordinate behind zeros, so that it has that many bytes.
unfoldable pub padded : ℕ → Bytes → Bytes
padded coordinate_width r = replicate (coordinate_width - length r) 0 ++ r

module _ (k : Cryptoki) where
  -- The algorithm for the parameters of PSS.
  unfoldable pub pss_algorithm_id : ℕ → Result SecStringConstant Unit
  pss_algorithm_id hash_alg =
      if hash_alg == k.ckm_sha_1
      then ok rsa_pss_sha1
      else if hash_alg == k.ckm_sha256
      then ok rsa_pss_sha256
      else if hash_alg == k.ckm_sha384
      then ok rsa_pss_sha384
      else if hash_alg == k.ckm_sha512
      then ok rsa_pss_sha512
      else err tt

  -- The constant's name, before it is looked up.
  unfoldable pub algorithm_id : KeyType → ℕ → Option PssParams → Result SecStringConstant Unit
  algorithm_id (KeyType.ec _) data_len params = ec_algorithm_id data_len
  algorithm_id KeyType.rsa data_len none = ok rsa_pkcs1v15_raw
  algorithm_id KeyType.rsa data_len (some params) = pss_algorithm_id params.hash_alg

-- The two coordinates in a row, unless one has too many bytes.
unfoldable pub joined : ℕ → Bytes → Bytes → Result Bytes CryptoError
joined coordinate_width r s =
    if ltb coordinate_width (length r) || ltb coordinate_width (length s)
    then err invalid_data
    else ok (padded coordinate_width r ++ padded coordinate_width s)

-- What is returned of the signature that was created.
unfoldable pub signature_value : ByteOrder → KeyType → Bytes → Result Bytes CryptoError
signature_value o KeyType.rsa signature = ok signature
signature_value o (KeyType.ec coordinate_width) signature = elim (read_ec_sig_point o signature) [
  | err _ ↦ err invalid_data
  | ok (r, s) ↦ joined coordinate_width r s
]

module _ (k : Cryptoki) (o : ByteOrder) (w : MacosApi) where
  -- `SignParams::new` and its algorithm.
  unfoldable pub sign_algorithm : KeyType → ℕ → Option PssParams → Result Bytes Unit
  sign_algorithm key_type data_len params = do
    id ← algorithm_id k key_type data_len params
    w.string_constant id

  -- `Key::sign`
  unfoldable pub sign : w.Os → Key w → Bytes → Option PssParams → Result Bytes CryptoError
  sign os c input params = do
    sec_key ← or_error invalid_key (w.identity_copy_private_key os c.identity)
    algorithm ← or_error operation_failed (sign_algorithm c.key_type_enum (length input) params)
    signature ← or_error operation_failed (w.create_signature os sec_key algorithm input)
    signature_value o c.key_type_enum signature

  -- `Key::get_signature_length`, which signs.
  unfoldable pub get_signature_length :
      w.Os → Key w → Bytes → Option PssParams → Result ℕ CryptoError
  get_signature_length os c input params = elim (sign os c input params) [
    | err e ↦ err e
    | ok signature ↦ ok (length signature)
  ]

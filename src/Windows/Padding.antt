-- ===== src/Windows/Padding.antt =====
-- src/backend_windows.rs: `SignParams` and `CipherPaddingInfo`, from which CNG takes the padding.
use osclientcerts.Prelude.{
  ℕ, ◌%◌, ◌^◌, Option, none, some, List, [], ◌∷◌, Result, ok, err, ◌>>=◌, Bytes, length, ◌==◌,
  if◌then◌else◌,
}
use osclientcerts.Cryptoki.{Cryptoki, PssParams}
use osclientcerts.Mechanism.{
  RsaCipherMechanism, pkcs1v15, oaep, hash_algorithm_string, sha1_algorithm_string,
  sha256_algorithm_string, sha384_algorithm_string, sha512_algorithm_string,
}
use osclientcerts.Windows.Api.{PaddingParams, Padding, WindowsApi}
use osclientcerts.Windows.Objects.{KeyType}

pub data SignParams : Type 0 where
  ec : SignParams
  rsa_pkcs1 : SignParams
  rsa_pss : List ℕ → ℕ → SignParams

pub data CipherPaddingInfo : Type 0 where
  pkcs1 : CipherPaddingInfo
  -- The label's pointer is null if it is empty; its length is a 32-bit number.
  oaep_info : List ℕ → Option Bytes → ℕ → CipherPaddingInfo

-- `pbLabel`
unfoldable pub label_pointer : Bytes → Option Bytes
label_pointer [] = none
label_pointer (x ∷ xs) = some (x ∷ xs)

module _ (k : Cryptoki) where
  -- The `match pss_params.hashAlg`.
  unfoldable pub pss_algorithm_string : ℕ → Result (List ℕ) Unit
  pss_algorithm_string hash_alg =
      if hash_alg == k.ckm_sha_1
      then ok sha1_algorithm_string
      else if hash_alg == k.ckm_sha256
      then ok sha256_algorithm_string
      else if hash_alg == k.ckm_sha384
      then ok sha384_algorithm_string
      else if hash_alg == k.ckm_sha512
      then ok sha512_algorithm_string
      else err tt

  -- `SignParams::new`
  unfoldable pub sign_params_new : KeyType → Option PssParams → Result SignParams Unit
  sign_params_new KeyType.ec params = ok SignParams.ec
  sign_params_new KeyType.rsa none = ok SignParams.rsa_pkcs1
  sign_params_new KeyType.rsa (some params) = do
    algorithm_string ← pss_algorithm_string params.hash_alg
    ok (SignParams.rsa_pss algorithm_string params.salt_len)

  -- `CipherPaddingInfo::new`
  unfoldable pub cipher_padding_info_new : RsaCipherMechanism → Result CipherPaddingInfo Unit
  cipher_padding_info_new pkcs1v15 = ok CipherPaddingInfo.pkcs1
  cipher_padding_info_new (oaep hash_alg label) = do
    algorithm_string ← hash_algorithm_string k hash_alg
    ok (CipherPaddingInfo.oaep_info algorithm_string (label_pointer label) (length label % 2 ^ 32))

module _ (w : WindowsApi) where
  -- `params_ptr` and `flags` of `SignParams`.
  unfoldable pub sign_padding : SignParams → Padding
  sign_padding SignParams.ec = record { params = PaddingParams.null; flags = 0 }
  sign_padding SignParams.rsa_pkcs1 = record {
    params = PaddingParams.pkcs1;
    flags = w.pad_pkcs1_flag;
  }
  sign_padding (SignParams.rsa_pss algorithm salt_len) = record {
    params = PaddingParams.pss algorithm salt_len;
    flags = w.pad_pss_flag;
  }

  -- `params_ptr` and `flags` of `CipherPaddingInfo`.
  unfoldable pub cipher_padding : CipherPaddingInfo → Padding
  cipher_padding CipherPaddingInfo.pkcs1 = record {
    params = PaddingParams.pkcs1;
    flags = w.pad_pkcs1_flag;
  }
  cipher_padding (CipherPaddingInfo.oaep_info algorithm label label_len) = record {
    params = PaddingParams.oaep algorithm label label_len;
    flags = w.pad_oaep_flag;
  }

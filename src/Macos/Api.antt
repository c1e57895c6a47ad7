-- ===== src/Macos/Api.antt =====
-- What src/backend_macos.rs calls of Security.framework, by its wrappers of these functions, and of the
-- hash crate: parameters of the model. A call that fails, or whose function could not be loaded, is an
-- error.
use osclientcerts.Prelude.{ℕ, Bool, Option, List, Bytes, Result}

-- `enum SecStringConstant`
pub data SecStringConstant : Type 0 where
  ecdsa_sha1 : SecStringConstant
  ecdsa_sha256 : SecStringConstant
  ecdsa_sha384 : SecStringConstant
  ecdsa_sha512 : SecStringConstant
  rsa_pkcs1v15_raw : SecStringConstant
  rsa_pss_sha1 : SecStringConstant
  rsa_pss_sha256 : SecStringConstant
  rsa_pss_sha384 : SecStringConstant
  rsa_pss_sha512 : SecStringConstant
  key_type_ec : SecStringConstant

pub record MacosApi : Type 1 where
  pub Os : Type 0
  pub SecIdentity : Type 0
  pub SecCertificate : Type 0
  pub SecKey : Type 0
  -- `SecItemCopyMatching` for all identities; `none` if it fails or finds nothing.
  pub identities : Os → Option (List SecIdentity)
  pub identity_copy_certificate : SecIdentity → Result SecCertificate Unit
  pub identity_copy_private_key : Os → SecIdentity → Result SecKey Unit
  pub copy_subject_summary : SecCertificate → Result Bytes Unit
  pub copy_data : SecCertificate → Result Bytes Unit
  pub copy_normalized_issuer_sequence : SecCertificate → Result Bytes Unit
  pub copy_normalized_subject_sequence : SecCertificate → Result Bytes Unit
  pub copy_serial_number_data : SecCertificate → Result Bytes Unit
  pub copy_key : SecCertificate → Result SecKey Unit
  pub copy_external_representation : SecKey → Result Bytes Unit
  -- The attributes `kSecAttrKeyType` and `kSecAttrKeySizeInBits`, the latter `none` if it is no
  -- 64-bit number; and whether the former is the constant `kSecAttrKeyTypeRSA` itself.
  pub key_type : SecKey → Result Bytes Unit
  pub is_rsa : Bytes → Bool
  pub key_size_in_bits : SecKey → Result (Option ℕ) Unit
  pub string_constant : SecStringConstant → Result Bytes Unit
  pub create_signature : Os → SecKey → Bytes → Bytes → Result Bytes Unit
  pub sha256 : Bytes → Bytes

-- ===== src/Cryptoki.antt =====
-- What the program takes from the `pkcs11` crate, which is not part of the repository: the codes
-- that the functions return, by name, and the constants whose values the code compares, as a
-- record that every definition that reads one takes. `standard` holds the values of the published
-- PKCS #11 headers; it serves the tests and the examples.
use osclientcerts.Prelude.{ℕ, ◌^◌, Bool, true, false, Option, none, some, Bytes}

-- The codes are told apart by name; the program only ever compares one with `CKR_OK`.
pub data Rv : Type 0 where
  ckr_ok : Rv
  ckr_arguments_bad : Rv
  ckr_buffer_too_small : Rv
  ckr_cryptoki_already_initialized : Rv
  ckr_cryptoki_not_initialized : Rv
  ckr_data_len_range : Rv
  ckr_device_error : Rv
  ckr_encrypted_data_invalid : Rv
  ckr_function_failed : Rv
  ckr_function_not_supported : Rv
  ckr_key_handle_invalid : Rv
  ckr_mechanism_invalid : Rv
  ckr_session_handle_invalid : Rv
  ckr_slot_id_invalid : Rv

pub record Cryptoki : Type 0 where
  -- The number of values of `CK_ULONG`: 2 ^ 32 on Windows, 2 ^ 64 on the other hosts.
  pub ulong_mod : ℕ
  pub ckm_rsa_pkcs : ℕ
  pub ckm_rsa_pkcs_oaep : ℕ
  pub ckm_rsa_pkcs_pss : ℕ
  pub ckm_ecdsa : ℕ
  pub ckm_sha_1 : ℕ
  pub ckm_sha256 : ℕ
  pub ckm_sha384 : ℕ
  pub ckm_sha512 : ℕ
  pub ckg_mgf1_sha1 : ℕ
  pub ckg_mgf1_sha256 : ℕ
  pub ckg_mgf1_sha384 : ℕ
  pub ckg_mgf1_sha512 : ℕ
  pub ckz_data_specified : ℕ
  -- `size_of` the two parameter structs.
  pub oaep_params_size : ℕ
  pub pss_params_size : ℕ
  -- `size_of::<CK_ULONG>()`
  pub ulong_size : ℕ
  pub cka_class : ℕ
  pub cka_token : ℕ
  pub cka_label : ℕ
  pub cka_id : ℕ
  pub cka_value : ℕ
  pub cka_issuer : ℕ
  pub cka_serial_number : ℕ
  pub cka_subject : ℕ
  pub cka_private : ℕ
  pub cka_key_type : ℕ
  pub cka_modulus : ℕ
  pub cka_ec_params : ℕ
  pub cka_sign : ℕ
  pub cka_decrypt : ℕ
  pub cka_sensitive : ℕ
  pub cka_extractable : ℕ
  pub cka_always_authenticate : ℕ
  pub cka_local : ℕ
  pub cko_certificate : ℕ
  pub cko_private_key : ℕ
  pub ckk_rsa : ℕ
  pub ckk_ec : ℕ
  -- The first bit of what vendors define, of attribute types and of object classes.
  pub cka_vendor_defined : ℕ
  pub cko_vendor_defined : ℕ
  -- Flags, each one bit, and session states.
  pub ckf_serial_session : ℕ
  pub ckf_rw_session : ℕ
  pub ckf_token_present : ℕ
  pub ckf_sign : ℕ
  pub ckf_encrypt : ℕ
  pub ckf_decrypt : ℕ
  pub cks_rw_public_session : ℕ
  pub cks_ro_public_session : ℕ

abbrev pub standard : Cryptoki
standard = record {
  ulong_mod = 2 ^ 32;
  ckm_rsa_pkcs = 1;
  ckm_rsa_pkcs_oaep = 9;
  ckm_rsa_pkcs_pss = 13;
  ckm_ecdsa = 0x1041;
  ckm_sha_1 = 0x220;
  ckm_sha256 = 0x250;
  ckm_sha384 = 0x260;
  ckm_sha512 = 0x270;
  ckg_mgf1_sha1 = 1;
  ckg_mgf1_sha256 = 2;
  ckg_mgf1_sha384 = 3;
  ckg_mgf1_sha512 = 4;
  ckz_data_specified = 1;
  oaep_params_size = 20;
  pss_params_size = 12;
  ulong_size = 4;
  cka_class = 0x0;
  cka_token = 0x1;
  cka_label = 0x3;
  cka_id = 0x102;
  cka_value = 0x11;
  cka_issuer = 0x81;
  cka_serial_number = 0x82;
  cka_subject = 0x101;
  cka_private = 0x2;
  cka_key_type = 0x100;
  cka_modulus = 0x120;
  cka_ec_params = 0x180;
  cka_sign = 0x108;
  cka_decrypt = 0x105;
  cka_sensitive = 0x103;
  cka_extractable = 0x162;
  cka_always_authenticate = 0x202;
  cka_local = 0x163;
  cko_certificate = 1;
  cko_private_key = 3;
  ckk_rsa = 0;
  ckk_ec = 3;
  cka_vendor_defined = 0x8000_0000;
  cko_vendor_defined = 0x8000_0000;
  ckf_serial_session = 4;
  ckf_rw_session = 2;
  ckf_token_present = 1;
  ckf_sign = 0x800;
  ckf_encrypt = 0x100;
  ckf_decrypt = 0x200;
  cks_rw_public_session = 2;
  cks_ro_public_session = 0;
}

-- `CK_RSA_PKCS_OAEP_PARAMS`. A pointer is `none` if it is null, and else what it points to.
pub record OaepParams : Type 0 where
  pub hash_alg : ℕ
  pub mgf : ℕ
  pub source : ℕ
  pub source_data : Option Bytes
  pub source_data_len : ℕ

-- `CK_RSA_PKCS_PSS_PARAMS`
pub record PssParams : Type 0 where
  pub hash_alg : ℕ
  pub mgf : ℕ
  pub salt_len : ℕ

-- The memory behind `pParameter`, as it reads at either struct: which one it is meant to be is
-- decided by the code, from the mechanism's type.
pub record Parameter : Type 0 where
  pub oaep : OaepParams
  pub pss : PssParams

-- `CK_MECHANISM`
pub record CkMechanism : Type 0 where
  pub mechanism : ℕ
  pub parameter : Option Parameter
  pub parameter_len : ℕ

-- `is_null`
unfoldable pub is_null {ℓ} : {A : Type ℓ} → Option A → Bool
is_null none = true
is_null (some a) = false

-- `CK_TRUE as u8` and `CK_FALSE as u8`.
abbrev pub ck_true : ℕ
ck_true = 1

abbrev pub ck_false : ℕ
ck_false = 0

-- ===== src/Windows/Api.antt =====
-- What src/backend_windows.rs calls of Windows (CryptoAPI, CNG) and of the hash crates, as a record:
-- the functions are parameters of the model. A call that fails answers `none`, the last error, or a
-- status that is not 0; the state of the system at the time of a call is an argument. Handles are
-- freed when they go out of scope, which is not modelled.
use osclientcerts.Prelude.{ℕ, ◌≡◌, Bool, Option, List, Bytes, Result, length}

-- What `params_ptr` points to: a null pointer, or one of the padding structs with the name of its
-- hash algorithm.
pub data PaddingParams : Type 0 where
  null : PaddingParams
  pkcs1 : PaddingParams
  pss : List ℕ → ℕ → PaddingParams
  oaep : List ℕ → Option Bytes → ℕ → PaddingParams

-- The two arguments of an operation of CNG that select the padding.
pub record Padding : Type 0 where
  pub params : PaddingParams
  pub flags : ℕ

-- The certificate stores that are opened.
pub data Store : Type 0 where
  my : Store
  ca : Store
  root : Store
  collection : Store

pub record WindowsApi : Type 1 where
  pub Os : Type 0
  -- A certificate context: what `PCCERT_CONTEXT` points to.
  pub CertContext : Type 0
  -- `NCRYPT_KEY_HANDLE` and `BCRYPT_KEY_HANDLE`.
  pub NcryptKey : Type 0
  pub BcryptKey : Type 0
  pub now : Os → ℕ
  -- `pbCertEncoded`, and fields of `pCertInfo`; the serial number has its low byte first.
  pub der : CertContext → Bytes
  pub issuer : CertContext → Bytes
  pub serial_number : CertContext → Bytes
  pub subject : CertContext → Bytes
  -- `CertNameToStrA` on the subject: without a buffer the length, and with one of a length the
  -- length and the buffer afterwards.
  pub name_length : CertContext → ℕ
  pub name_to_str : CertContext → ℕ → ℕ × Bytes
  -- `SubjectPublicKeyInfo`; the identifier of the algorithm is `none` if it is not UTF-8.
  pub algorithm_oid : CertContext → Option Bytes
  pub oid_rsa_rsa : Bytes
  pub oid_ecc_public_key : Bytes
  pub unused_bits : CertContext → ℕ
  pub public_key : CertContext → Bytes
  pub algorithm_parameters : CertContext → Bytes
  pub sha256 : Bytes → Bytes
  pub sha1 : Bytes → Bytes
  -- `CertCreateCertificateContext`, or the last error.
  pub create_context : Os → Bytes → Result CertContext ℕ
  -- The certificates with a private key in the user's "My" store, if it can be opened.
  pub my_certs : Os → Option (List CertContext)
  -- `CertOpenStore` of a system store or of the collection succeeds.
  pub opens : Os → Store → Bool
  -- `CertGetIssuerCertificateFromStore` on the collection.
  pub issuer_certificate : Os → CertContext → Option CertContext
  -- `CertFindCertificateInStore` with `CERT_FIND_EXISTING` on the "ROOT" store.
  pub exists_in_root : Os → CertContext → Bool
  -- `CertGetEnhancedKeyUsage` without a buffer, and with one: the identifiers with their final
  -- zero, of which a pointer may be null.
  pub usage_length : Os → CertContext → Option ℕ
  pub usage : Os → CertContext → Option (List (Option Bytes))
  pub pad_pkcs1_flag : ℕ
  pub pad_oaep_flag : ℕ
  pub pad_pss_flag : ℕ
  -- `CryptAcquireCertificatePrivateKey`: the handle, whether it is one of NCrypt, whether the
  -- caller must free it; or the last error.
  pub acquire_key : Os → CertContext → Result (NcryptKey × Bool × Bool) ℕ
  -- `CryptImportPublicKeyInfoEx2`, or the last error.
  pub import_public_key : Os → CertContext → Result BcryptKey ℕ
  -- `NCryptSignHash`, `NCryptDecrypt` and `BCryptEncrypt` without an output buffer: the status and
  -- the length.
  pub sign_hash_length : Os → NcryptKey → Padding → Bytes → ℕ × ℕ
  pub decrypt_output_length : Os → NcryptKey → Padding → Bytes → ℕ × ℕ
  pub encrypt_output_length : Os → BcryptKey → Padding → Bytes → ℕ × ℕ
  -- The same with an output buffer: the status, the length and the buffer afterwards.
  pub sign_hash : Os → NcryptKey → Padding → Bytes → Bytes → ℕ × ℕ × Bytes
  pub decrypt_output : Os → NcryptKey → Padding → Bytes → Bytes → ℕ × ℕ × Bytes
  pub encrypt_output : Os → BcryptKey → Padding → Bytes → Bytes → ℕ × ℕ × Bytes

-- An operation writes to the buffer that it is given, which is as long afterwards.
pub record KeepsBuffers (w : WindowsApi) : Type 0 where
  pub length-sign_hash :
      (os : w.Os) (key : w.NcryptKey) (padding : Padding) (input buffer : Bytes)
      → length (w.sign_hash os key padding input buffer).2 ≡ length buffer
  pub length-decrypt_output :
      (os : w.Os) (key : w.NcryptKey) (padding : Padding) (input buffer : Bytes)
      → length (w.decrypt_output os key padding input buffer).2 ≡ length buffer
  pub length-encrypt_output :
      (os : w.Os) (key : w.BcryptKey) (padding : Padding) (input buffer : Bytes)
      → length (w.encrypt_output os key padding input buffer).2 ≡ length buffer

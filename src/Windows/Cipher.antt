-- ===== src/Windows/Cipher.antt =====
-- src/backend_windows.rs: signing, decrypting and encrypting. What each asks of the system is asked
-- in one state of it, in which the two calls of an operation may still answer differently.
use osclientcerts.Prelude.{
  ℕ, ◌^◌, Bool, not, Option, Result, ok, err, ◌>>=◌, Bytes, length, take, replicate, leb, ◌!=◌,
  if◌then◌else◌,
}
use osclientcerts.Cryptoki.{Cryptoki, PssParams}
use osclientcerts.Mechanism.{RsaCipherMechanism}
use osclientcerts.Util.Errors.{CryptoError, operation_failed, invalid_key, windows}
use osclientcerts.Windows.Api.{WindowsApi, Padding}
use osclientcerts.Windows.Objects.{Cert, Key, KeyType}
use osclientcerts.Windows.Padding.{
  sign_params_new, cipher_padding_info_new, sign_padding, cipher_padding,
}

-- `.map_err(|_| e)`
abbrev pub map_err : {A E F : Type 0} → F → Result A E → Result A F
map_err f (ok a) = ok a
map_err f (err _) = err f

-- A length is that of the output that would be.
abbrev pub output_len : {E : Type 0} → Result Bytes E → Result ℕ E
output_len (ok output) = ok (length output)
output_len (err e) = err e

module _ (w : WindowsApi) where
  -- `NCryptKeyHandle::from_cert`
  unfoldable pub ncrypt_from_cert : w.Os → w.CertContext → Result w.NcryptKey CryptoError
  ncrypt_from_cert os c = elim (w.acquire_key os c) [
    | err last_error ↦ err (windows last_error)
    | ok (handle, is_ncrypt, must_free) ↦
        if not is_ncrypt
        then err operation_failed
        else if not must_free
        then err operation_failed
        else ok handle
  ]

  -- `BCryptPublicKeyHandle::from_cert`
  unfoldable pub bcrypt_from_cert : w.Os → w.CertContext → Result w.BcryptKey CryptoError
  bcrypt_from_cert os c = elim (w.import_public_key os c) [
    | err last_error ↦ err (windows last_error)
    | ok handle ↦ ok handle
  ]

  -- `Cert::context`
  unfoldable pub context : w.Os → Cert → Result w.CertContext CryptoError
  context os c =
      if leb (2 ^ 32) (length c.value)
      then err operation_failed
      else elim (w.create_context os c.value) [
        | err last_error ↦ err (windows last_error)
        | ok created ↦ ok created
      ]

  -- The two calls of `NCryptSignHash`: the first asks for the length of the output.
  unfoldable pub run_sign : w.Os → w.NcryptKey → Padding → Bytes → Bool → Result Bytes CryptoError
  run_sign os handle padding input perform =
      if leb (2 ^ 32) (length input)
      then err operation_failed
      else let (status, len) = w.sign_hash_length os handle padding input in
        if status != 0
        then err (windows status)
        else if not perform
        then ok (replicate len 0)
        else let (status, final_len, buffer) =
            w.sign_hash os handle padding input (replicate len 0) in
          if status != 0
          then err (windows status)
          else if final_len != len
          then err operation_failed
          else ok buffer

  -- The two calls of `NCryptDecrypt`: the first asks for the length of the output.
  unfoldable pub run_decrypt :
      w.Os → w.NcryptKey → Padding → Bytes → Bool → Result Bytes CryptoError
  run_decrypt os handle padding input perform =
      if leb (2 ^ 32) (length input)
      then err operation_failed
      else let (status, len) = w.decrypt_output_length os handle padding input in
        if status != 0
        then err (windows status)
        else if not perform
        then ok (replicate len 0)
        else let (status, final_len, buffer) =
            w.decrypt_output os handle padding input (replicate len 0) in
          if status != 0 then err (windows status) else ok (take final_len buffer)

  -- The two calls of `BCryptEncrypt`: the first asks for the length of the output.
  unfoldable pub run_encrypt :
      w.Os → w.BcryptKey → Padding → Bytes → Bool → Result Bytes CryptoError
  run_encrypt os handle padding input perform =
      if leb (2 ^ 32) (length input)
      then err operation_failed
      else let (status, len) = w.encrypt_output_length os handle padding input in
        if status != 0
        then err (windows status)
        else if not perform
        then ok (replicate len 0)
        else let (status, final_len, buffer) =
            w.encrypt_output os handle padding input (replicate len 0) in
          if status != 0
          then err (windows status)
          else if final_len != len
          then err operation_failed
          else ok buffer

module _ (k : Cryptoki) (w : WindowsApi) where
  unfoldable pub sign_internal :
      w.Os → Key w → Bytes → Option PssParams → Bool → Result Bytes CryptoError
  sign_internal os c input params do_signature = do
    handle ← ncrypt_from_cert w os c.cert
    sign_params ← map_err operation_failed (sign_params_new k c.key_type_enum params)
    run_sign w os handle (sign_padding w sign_params) input do_signature

  unfoldable pub decrypt_internal :
      w.Os → Key w → Bytes → Bool → RsaCipherMechanism → Result Bytes CryptoError
  decrypt_internal os c input do_decrypt mechanism = elim c.key_type_enum [
    | KeyType.ec ↦ err invalid_key
    | KeyType.rsa ↦ do
      padding_info ← map_err invalid_key (cipher_padding_info_new k mechanism)
      handle ← ncrypt_from_cert w os c.cert
      run_decrypt w os handle (cipher_padding w padding_info) input do_decrypt
  ]

  unfoldable pub encrypt_internal :
      w.Os → w.CertContext → Bytes → Bool → RsaCipherMechanism → Result Bytes CryptoError
  encrypt_internal os c input do_encrypt mechanism = do
    handle ← bcrypt_from_cert w os c
    padding_info ← map_err invalid_key (cipher_padding_info_new k mechanism)
    run_encrypt w os handle (cipher_padding w padding_info) input do_encrypt

  -- `Cert::encrypt`, and `Cert::encrypt_length` without encrypting.
  unfoldable pub cert_encrypt_internal :
      w.Os → Cert → Bytes → Bool → RsaCipherMechanism → Result Bytes CryptoError
  cert_encrypt_internal os c input do_encrypt mechanism = do
    created ← context w os c
    encrypt_internal os created input do_encrypt mechanism

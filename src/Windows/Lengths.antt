-- ===== src/Windows/Lengths.antt =====
-- What the operations of CNG return, against what the length queries answer.
use osclientcerts.Prelude.{
  ℕ, ◌≤◌, ◌≡◌, refl, true, false, Option, Result, ok, Bytes, length, replicate, arith, length-take,
  length-replicate, bind_follows,
}
use osclientcerts.ByteOrder.{ByteOrder}
use osclientcerts.Backend.Lengths.{AnnouncesLengths, announces, bounds}
use osclientcerts.Windows.Listing.{windows_backend}
use osclientcerts.Cryptoki.{Cryptoki, PssParams}
use osclientcerts.Mechanism.{RsaCipherMechanism}
use osclientcerts.Util.Errors.{CryptoError, operation_failed, invalid_key}
use osclientcerts.Windows.Api.{WindowsApi, Padding, KeepsBuffers}
use osclientcerts.Windows.Objects.{Cert, Key, KeyType}
use osclientcerts.Windows.Padding.{
  sign_params_new, cipher_padding_info_new, sign_padding, cipher_padding,
}
use osclientcerts.Windows.Cipher.{
  map_err, output_len, ncrypt_from_cert, bcrypt_from_cert, context, run_sign, run_decrypt,
  run_encrypt, sign_internal, decrypt_internal, encrypt_internal, cert_encrypt_internal,
}

-- The query of a length, where an operation gave an output of that length.
abbrev Announced : Bytes → Result Bytes CryptoError → Type 0
Announced output query = query ≡ ok (replicate (length output) 0)

-- The query of a length, where an operation gave an output of at most that length.
abbrev Bounded : Bytes → Result Bytes CryptoError → Type 0
Bounded output query = (n : ℕ) × (query ≡ ok (replicate n 0)) × (length output ≤ n)

output_len-Bounded :
    (output : Bytes) (query : Result Bytes CryptoError)
    → Bounded output query
    → (n : ℕ) × (output_len query ≡ ok n) × (length output ≤ n)
output_len-Bounded output query (n, e, le) = (n, rw (e, length-replicate {A = ℕ} n 0) refl, le)

output_len-Announced :
    (output : Bytes) (query : Result Bytes CryptoError)
    → Announced output query
    → output_len query ≡ ok (length output)
output_len-Announced output query e = rw (e, length-replicate {A = ℕ} (length output) 0) refl

module _ (w : WindowsApi) (keeps : KeepsBuffers w) (os : w.Os) where
  run_sign-length :
      (handle : w.NcryptKey) (padding : Padding) (input output : Bytes)
      → run_sign w os handle padding input true ≡ ok output
      → Announced output (run_sign w os handle padding input false)
  unfolding run_sign
  run_sign-length handle padding input output h =
      let len = (w.sign_hash_length os handle padding input).1 in
      ground (
        arith,
        keeps.length-sign_hash os handle padding input (replicate len 0),
        length-replicate {A = ℕ} len 0,
      )

  run_encrypt-length :
      (handle : w.BcryptKey) (padding : Padding) (input output : Bytes)
      → run_encrypt w os handle padding input true ≡ ok output
      → Announced output (run_encrypt w os handle padding input false)
  unfolding run_encrypt
  run_encrypt-length handle padding input output h =
      let len = (w.encrypt_output_length os handle padding input).1 in
      ground (
        arith,
        keeps.length-encrypt_output os handle padding input (replicate len 0),
        length-replicate {A = ℕ} len 0,
      )

  run_decrypt-length :
      (handle : w.NcryptKey) (padding : Padding) (input output : Bytes)
      → run_decrypt w os handle padding input true ≡ ok output
      → Bounded output (run_decrypt w os handle padding input false)
  unfolding run_decrypt
  run_decrypt-length handle padding input output h =
      let (status, len) = w.decrypt_output_length os handle padding input in
      let (last_status, final_len, buffer) =
        w.decrypt_output os handle padding input (replicate len 0) in
      (
        len,
        ground arith,
        ground (
          arith,
          keeps.length-decrypt_output os handle padding input (replicate len 0),
          length-replicate {A = ℕ} len 0,
          length-take final_len buffer,
        ),
      )

  module _ (k : Cryptoki) where
    sign_internal-length :
        (c : Key w) (input : Bytes) (params : Option PssParams) (output : Bytes)
        → sign_internal k w os c input params true ≡ ok output
        → Announced output (sign_internal k w os c input params false)
    unfolding sign_internal
    sign_internal-length c input params output h =
        bind_follows (ncrypt_from_cert w os c.cert) _ _ (Announced output)
          (λ handle.
            bind_follows (map_err operation_failed (sign_params_new k c.key_type_enum params)) _ _
              (Announced output)
              (λ sign_params. run_sign-length handle (sign_padding w sign_params) input output))
          h

    encrypt_internal-length :
        (c : w.CertContext) (input : Bytes) (mechanism : RsaCipherMechanism) (output : Bytes)
        → encrypt_internal k w os c input true mechanism ≡ ok output
        → Announced output (encrypt_internal k w os c input false mechanism)
    unfolding encrypt_internal
    encrypt_internal-length c input mechanism output h =
        bind_follows (bcrypt_from_cert w os c) _ _ (Announced output)
          (λ handle.
            bind_follows (map_err invalid_key (cipher_padding_info_new k mechanism)) _ _
              (Announced output)
              (λ padding_info.
                run_encrypt-length handle (cipher_padding w padding_info) input output))
          h

    cert_encrypt_internal-length :
        (c : Cert) (input : Bytes) (mechanism : RsaCipherMechanism) (output : Bytes)
        → cert_encrypt_internal k w os c input true mechanism ≡ ok output
        → Announced output (cert_encrypt_internal k w os c input false mechanism)
    unfolding cert_encrypt_internal
    cert_encrypt_internal-length c input mechanism output h =
        bind_follows (context w os c) _ _ (Announced output)
          (λ created. encrypt_internal-length created input mechanism output) h

    with_key_type :
        (kind : KeyType) (c : Key w) (input : Bytes) (mechanism : RsaCipherMechanism)
        (output : Bytes)
        → c.key_type_enum ≡ kind
        → decrypt_internal k w os c input true mechanism ≡ ok output
        → Bounded output (decrypt_internal k w os c input false mechanism)
    unfolding decrypt_internal
    with_key_type KeyType.ec c input mechanism output e h = ground arith
    with_key_type KeyType.rsa c input mechanism output e h =
        let opened = rw e at h in
        rw e (
          bind_follows (map_err invalid_key (cipher_padding_info_new k mechanism)) _ _
            (Bounded output)
            (λ padding_info.
              bind_follows (ncrypt_from_cert w os c.cert) _ _ (Bounded output)
                (λ handle. run_decrypt-length handle (cipher_padding w padding_info) input output))
            opened)

    decrypt_internal-length :
        (c : Key w) (input : Bytes) (mechanism : RsaCipherMechanism) (output : Bytes)
        → decrypt_internal k w os c input true mechanism ≡ ok output
        → Bounded output (decrypt_internal k w os c input false mechanism)
    decrypt_internal-length c input mechanism output =
        with_key_type c.key_type_enum c input mechanism output refl

-- Where a buffer that CNG writes to keeps its length, on Windows a length query of signing or of
-- encrypting answers the length of what the operation then returns in the same state of the system,
-- and one of decrypting answers no less than the length of the plaintext.
pub windows_backend-AnnouncesLengths :
    (k : Cryptoki) (o : ByteOrder) (w : WindowsApi)
    → KeepsBuffers w
    → AnnouncesLengths (windows_backend k o w)
unfolding windows_backend
windows_backend-AnnouncesLengths k o w keeps = record {
  sign = λ os c input params. announces _ _ (λ output h.
      output_len-Announced output _ (sign_internal-length w keeps os k c input params output h));
  decrypt = λ os c input mechanism. bounds _ _ (λ output h.
      output_len-Bounded output _
        (decrypt_internal-length w keeps os k c input mechanism output h));
  cert_encrypt = λ os c input mechanism. announces _ _ (λ output h.
      output_len-Announced output _
        (cert_encrypt_internal-length w keeps os k c input mechanism output h));
  key_encrypt = λ os c input mechanism. announces _ _ (λ output h.
      output_len-Announced output _
        (encrypt_internal-length w keeps os k c.cert input mechanism output h));
}

-- ===== src/Windows/Listing.antt =====
-- src/backend_windows.rs: the objects that are exposed, and the whole as a backend.
use osclientcerts.Prelude.{ℕ, true, false, none, some, List, [], ◌∷◌, ◌++◌, ok, err, Bytes}
use osclientcerts.ByteOrder.{ByteOrder}
use osclientcerts.Cryptoki.{Cryptoki}
use osclientcerts.Backend.{Backend, Object, cert, key, trust}
use osclientcerts.Windows.Api.{WindowsApi}
use osclientcerts.Windows.Objects.{Cert, Key, Trust, trust_id, cert_new, key_new}
use osclientcerts.Windows.Attributes.{object_matches, object_get_attribute}
use osclientcerts.Windows.Cipher.{
  output_len, sign_internal, decrypt_internal, encrypt_internal, cert_encrypt_internal,
}
use osclientcerts.Windows.Chain.{list_root_trust_objects}

module _ (k : Cryptoki) where
  -- `SUPPORTED_ATTRIBUTES`
  abbrev pub supported_attributes : List ℕ
  supported_attributes =
      k.cka_class ∷ k.cka_token ∷ k.cka_label ∷ k.cka_id ∷ k.cka_value ∷ k.cka_issuer
      ∷ k.cka_serial_number ∷ k.cka_subject ∷ k.cka_private ∷ k.cka_key_type ∷ k.cka_modulus
      ∷ k.cka_ec_params ∷ k.cka_sign ∷ k.cka_decrypt ∷ k.cka_sensitive ∷ k.cka_extractable
      ∷ k.cka_always_authenticate ∷ k.cka_local ∷ []

module _ (k : Cryptoki) (o : ByteOrder) (w : WindowsApi) where
  -- The certificate and the key of one context, or neither.
  unfoldable pub pair : w.CertContext → List (Object Cert (Key w) Trust)
  pair c = elim (cert_new k o w c) [
    | err _ ↦ []
    | ok new_cert ↦ elim (key_new k o w c) [
      | err _ ↦ []
      | ok new_key ↦ cert new_cert ∷ key new_key ∷ []
    ]
  ]

  -- The loop over the store.
  unfoldable pub pairs : List w.CertContext → List (Object Cert (Key w) Trust)
  pairs [] = []
  pairs (c ∷ cs) = pair c ++ pairs cs

  -- The values of the certificates among the objects.
  unfoldable pub cert_values : List (Object Cert (Key w) Trust) → List Bytes
  cert_values [] = []
  cert_values (cert c ∷ rest) = c.value ∷ cert_values rest
  cert_values (key _ ∷ rest) = cert_values rest
  cert_values (trust _ ∷ rest) = cert_values rest

  unfoldable pub list_objects : w.Os → List (Object Cert (Key w) Trust)
  list_objects os = elim (w.my_certs os) [
    | none ↦ []
    | some cs ↦ pairs cs ++ list_root_trust_objects k o w os (cert_values (pairs cs))
  ]

  -- The backend of a build for Windows.
  unfoldable pub windows_backend : Backend
  windows_backend = record {
    cryptoki = k;
    on_windows = true;
    Os = w.Os;
    Cert = Cert;
    Key = Key w;
    Trust = Trust;
    supported_attributes = supported_attributes k;
    now = w.now;
    list_objects = list_objects;
    cert_id = λ c. c.id;
    key_id = λ c. c.id;
    trust_id = trust_id;
    matches = object_matches k w;
    get_attribute = object_get_attribute k w;
    get_signature_length =
        λ os c input params. output_len (sign_internal k w os c input params false);
    sign = λ os c input params. sign_internal k w os c input params true;
    decrypt_length =
        λ os c input mechanism. output_len (decrypt_internal k w os c input false mechanism);
    decrypt = λ os c input mechanism. decrypt_internal k w os c input true mechanism;
    cert_encrypt_length =
        λ os c input mechanism. output_len (cert_encrypt_internal k w os c input false mechanism);
    cert_encrypt = λ os c input mechanism. cert_encrypt_internal k w os c input true mechanism;
    key_encrypt_length =
        λ os c input mechanism. output_len (encrypt_internal k w os c.cert input false mechanism);
    key_encrypt = λ os c input mechanism. encrypt_internal k w os c.cert input true mechanism;
  }

-- ===== src/Tests/Windows.antt =====
-- A Windows with one certificate of the user's, whose issuer is a root that the system trusts.
use osclientcerts.Prelude.{
  ◌*◌, ◌≤◌, ◌↔◌, ◌⊎◌, arith, ◌≡◌, refl, true, false, none, some, [], ◌∷◌, ok, Bytes, bytes_eq,
  length, All,
}
use osclientcerts.ByteOrder.{little_endian}
use osclientcerts.Cryptoki.{standard}
use osclientcerts.Util.{serialize_uint}
use osclientcerts.Backend.{Backend, Attributes}
use osclientcerts.Backend.Lengths.{AnnouncesLengths, Announces, Bounds}
use osclientcerts.Manager.State.{Manager}
use osclientcerts.Manager.Scan.{new, contains}
use osclientcerts.Manager.Search.{supports, all_supported, matching_handles}
use osclientcerts.Manager.Sign.{
  start_sign, sign, get_signature_length, sign_final, get_final_signature_length,
}
use osclientcerts.Manager.Decrypt.{
  decrypt, get_decrypted_length, decrypt_final, get_final_decrypted_length,
}
use osclientcerts.Manager.Encrypt.{
  encrypt, get_encrypted_length, encrypt_final, get_final_encrypted_length,
}
use osclientcerts.Manager.Lengths.{lengths-agree}
use osclientcerts.Util.Der.{integer_tag}
use osclientcerts.Util.Der.Encode.{encode}
use osclientcerts.Windows.Api.{WindowsApi, KeepsBuffers}
use osclientcerts.Windows.Objects.{cert_new, key_new, key_kind, trust_new, get_cert_subject_dn}
use osclientcerts.Windows.Attributes.{serial_number_matches}
use osclientcerts.Windows.Chain.{
  oid_email_protection, no_identifiers, names_email, list_root_trust_objects, climb_all, climb,
  visit, issuer_cert, issuer_trust, eku_permits_email_protection, cert_is_self_signed,
}
use osclientcerts.Windows.Listing.{
  supported_attributes, pair, cert_values, pairs, list_objects, windows_backend,
}
use osclientcerts.Windows.Lengths.{windows_backend-AnnouncesLengths}
use osclientcerts.Windows.Supported.{matching_handles-unsupported}
use osclientcerts.Windows.Granted.{IsJustified, list_objects-IsGranted}
use osclientcerts.Windows.Findable.{finds, list_objects-finds}
use osclientcerts.Windows.Serial.{serial_number_matches-encode}
use osclientcerts.Windows.Bounds.{list_root_trust_objects-length}

abbrev user : Bytes
user = 0x30 ∷ 1 ∷ []

abbrev root : Bytes
root = 0x30 ∷ 2 ∷ []

-- A certificate and its subject are the same bytes. A signature has 4 bytes, as a ciphertext has;
-- a plaintext has 2.
abbrev windows : WindowsApi
windows = record {
  Os = Unit;
  CertContext = Bytes;
  NcryptKey = Bytes;
  BcryptKey = Bytes;
  now = λ _. 0;
  der = λ c. c;
  issuer = λ _. root;
  serial_number = λ _. 1 ∷ 2 ∷ [];
  subject = λ c. c;
  name_length = λ c. length c;
  name_to_str = λ c n. (length c, c);
  algorithm_oid = λ _. some (0x45 ∷ []);
  oid_rsa_rsa = 0x52 ∷ [];
  oid_ecc_public_key = 0x45 ∷ [];
  unused_bits = λ _. 0;
  public_key = λ _. [];
  algorithm_parameters = λ _. 6 ∷ [];
  sha256 = λ bytes. bytes;
  sha1 = λ bytes. bytes;
  create_context = λ _ bytes. ok bytes;
  my_certs = λ _. some (user ∷ []);
  opens = λ _ _. true;
  issuer_certificate = λ _ _. some root;
  exists_in_root = λ _ c. bytes_eq c root;
  usage_length = λ _ _. some 32;
  usage = λ _ _. some (none ∷ some oid_email_protection ∷ []);
  pad_pkcs1_flag = 2;
  pad_oaep_flag = 4;
  pad_pss_flag = 8;
  acquire_key = λ _ c. ok (c, true, true);
  import_public_key = λ _ c. ok c;
  sign_hash_length = λ _ _ _ _. (0, 4);
  decrypt_output_length = λ _ _ _ _. (0, 4);
  encrypt_output_length = λ _ _ _ _. (0, 4);
  sign_hash = λ _ _ _ _ buffer. (0, 4, buffer);
  decrypt_output = λ _ _ _ _ buffer. (0, 2, buffer);
  encrypt_output = λ _ _ _ _ buffer. (0, 4, buffer);
}

keeps : KeepsBuffers windows
keeps = record {
  length-sign_hash = λ _ _ _ _ _. refl;
  length-decrypt_output = λ _ _ _ _ _. refl;
  length-encrypt_output = λ _ _ _ _ _. refl;
}

id_supported : supports (supported_attributes standard) 0x102 ≡ true
unfolding supports
id_supported = refl

abbrev template : Attributes
template = (0x999, []) ∷ []

unsupported : all_supported (supported_attributes standard) template ≡ false
unfolding all_supported supports
unsupported = refl

abbrev W : Backend
W = windows_backend standard little_endian windows

laws : AnnouncesLengths W
laws = windows_backend-AnnouncesLengths standard little_endian windows keeps

windows_backend-AnnouncesLengths_example : AnnouncesLengths W
windows_backend-AnnouncesLengths_example =
    windows_backend-AnnouncesLengths standard little_endian windows keeps

abbrev host : W.Os
unfolding windows_backend
host = tt

-- The key has handle 2.
signing : Manager W
signing = (start_sign W 1 2 none (new W host)).1

lengths-agree_example :
    Announces (get_signature_length W host 1 user signing).0 (sign W host 1 user signing).0
    × Announces (get_final_signature_length W host 1 signing).0 (sign_final W host 1 signing).0
    × Announces (get_encrypted_length W host 1 user signing).0 (encrypt W host 1 user signing).0
    × Announces (get_final_encrypted_length W host 1 signing).0 (encrypt_final W host 1 signing).0
    × Bounds (get_decrypted_length W host 1 user signing).0 (decrypt W host 1 user signing).0
    × Bounds (get_final_decrypted_length W host 1 signing).0 (decrypt_final W host 1 signing).0
lengths-agree_example = lengths-agree W laws host 1 signing user

list_objects-IsGranted_example :
    All
      (IsJustified standard little_endian windows tt (
        cert_values standard little_endian windows
          (pairs standard little_endian windows (user ∷ []))))
      (list_objects standard little_endian windows tt)
list_objects-IsGranted_example =
    list_objects-IsGranted standard little_endian windows tt (user ∷ []) refl

list_objects-finds_example :
    All
      (λ object. finds standard windows object 0x102 ≡ true)
      (list_objects standard little_endian windows tt)
list_objects-finds_example = list_objects-finds little_endian windows 0x102 id_supported tt

abbrev stored : Bytes
stored = 2 ∷ 1 ∷ []

abbrev requested : Bytes
requested = 2 ∷ 2 ∷ 2 ∷ 1 ∷ []

serial_number_matches-encode_example :
    (serial_number_matches stored requested ≡ true)
    ↔ ((requested ≡ stored) ⊎ (requested ≡ encode integer_tag stored))
serial_number_matches-encode_example = serial_number_matches-encode stored requested (omega arith)

list_root_trust_objects-length_example :
    length (list_root_trust_objects standard little_endian windows tt (user ∷ []))
    ≤ 16 * length {A = Bytes} (user ∷ [])
list_root_trust_objects-length_example =
    list_root_trust_objects-length standard little_endian windows tt (user ∷ [])

matching_handles-unsupported_example :
    matching_handles (windows_backend standard little_endian windows) (new W host).objects template
    ≡ []
matching_handles-unsupported_example =
    matching_handles-unsupported standard windows template unsupported little_endian
      (new W host).objects

-- The certificate, its key, the root's certificate, the trust in it.
listed : length (list_objects standard little_endian windows tt) ≡ 4
unfolding list_objects pairs pair cert_new get_cert_subject_dn serialize_uint little_endian key_new
    key_kind cert_values list_root_trust_objects climb_all climb visit contains issuer_cert
    issuer_trust eku_permits_email_protection no_identifiers names_email trust_new
    cert_is_self_signed bytes_eq
listed = refl

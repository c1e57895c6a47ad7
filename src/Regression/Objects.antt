-- ===== src/Regression/Objects.antt =====
-- src/backend_other.rs, `nss_regression::list_objects`. A panic is `none`.
use osclientcerts.Prelude.{
  ℕ, ◌+◌, ◌/◌, ◌%◌, Option, none, some, List, [], ◌∷◌, ◌++◌, Result, ok, err, Bytes, bytes_eq, ltb,
  if◌then◌else◌,
}
use osclientcerts.ByteOrder.{ByteOrder}
use osclientcerts.Cryptoki.{Cryptoki, ck_true, ck_false}
use osclientcerts.Text.{Text}
use osclientcerts.Util.{serialize_uint}
use osclientcerts.Util.Nss.{
  cko_nss_trust, cka_nss_trust_server_auth, cka_nss_trust_client_auth, cka_nss_trust_code_signing,
  cka_nss_trust_email_protection, cka_nss_trust_step_up_approved, cka_nss_cert_sha1_hash,
  ckt_nss_trusted_delegator, ckt_nss_trust_unknown,
}
use osclientcerts.Backend.{Object, cert, trust, Attributes}
use osclientcerts.Backend.Stub.{Attrs}
use osclientcerts.Regression.Manifest.{Block, ◌>>=◌, parse_manifest, get}

-- `std::env::var`, `std::fs::read_to_string` and `std::fs::read`, and the paths.
pub record Files : Type 1 where
  pub Os : Type 0
  pub PathBuf : Type 0
  pub var : Os → Text → Option Text
  pub path_new : Text → PathBuf
  pub join : PathBuf → Text → PathBuf
  pub read_to_string : Os → PathBuf → Option Text
  pub read : Os → PathBuf → Option Bytes

-- The bytes of a character in UTF-8, and those of a string.
unfoldable pub utf8 : ℕ → Bytes
utf8 c =
    if ltb c 0x80
    then c ∷ []
    else if ltb c 0x800
    then (0xC0 + c / 0x40) ∷ (0x80 + c % 0x40) ∷ []
    else if ltb c 0x10000
    then (0xE0 + c / 0x1000) ∷ (0x80 + c / 0x40 % 0x40) ∷ (0x80 + c % 0x40) ∷ []
    else (0xF0 + c / 0x40000)
      ∷ (0x80 + c / 0x1000 % 0x40)
      ∷ (0x80 + c / 0x40 % 0x40)
      ∷ (0x80 + c % 0x40)
      ∷ []

unfoldable pub as_bytes : Text → Bytes
as_bytes [] = []
as_bytes (c ∷ cs) = utf8 c ++ as_bytes cs

-- `Result::unwrap`
abbrev pub unwrap : Result Bytes (Unit {0}) → Option Bytes
unwrap (err _) = none
unwrap (ok bytes) = some bytes

-- The names of the variable, of the file, and of the keys and kinds in it.
abbrev pub dir_env_var : Text
dir_env_var =
    b'O' ∷ b'S' ∷ b'C' ∷ b'L' ∷ b'I' ∷ b'E' ∷ b'N' ∷ b'T' ∷ b'C' ∷ b'E' ∷ b'R' ∷ b'T' ∷ b'S' ∷ b'_'
    ∷ b'N' ∷ b'S' ∷ b'S' ∷ b'_' ∷ b'R' ∷ b'E' ∷ b'G' ∷ b'R' ∷ b'E' ∷ b'S' ∷ b'S' ∷ b'I' ∷ b'O'
    ∷ b'N' ∷ b'_' ∷ b'D' ∷ b'I' ∷ b'R' ∷ []

abbrev pub manifest_txt : Text
manifest_txt =
    b'm' ∷ b'a' ∷ b'n' ∷ b'i' ∷ b'f' ∷ b'e' ∷ b's' ∷ b't' ∷ b'.' ∷ b't' ∷ b'x' ∷ b't' ∷ []

abbrev pub kind : Text
kind = b'k' ∷ b'i' ∷ b'n' ∷ b'd' ∷ []

abbrev pub label : Text
label = b'l' ∷ b'a' ∷ b'b' ∷ b'e' ∷ b'l' ∷ []

abbrev pub id : Text
id = b'i' ∷ b'd' ∷ []

abbrev pub der : Text
der = b'd' ∷ b'e' ∷ b'r' ∷ []

abbrev pub issuer : Text
issuer = b'i' ∷ b's' ∷ b's' ∷ b'u' ∷ b'e' ∷ b'r' ∷ []

abbrev pub serial : Text
serial = b's' ∷ b'e' ∷ b'r' ∷ b'i' ∷ b'a' ∷ b'l' ∷ []

abbrev pub subject : Text
subject = b's' ∷ b'u' ∷ b'b' ∷ b'j' ∷ b'e' ∷ b'c' ∷ b't' ∷ []

abbrev pub email_protection : Text
email_protection =
    b'e' ∷ b'm' ∷ b'a' ∷ b'i' ∷ b'l' ∷ b'_' ∷ b'p' ∷ b'r' ∷ b'o' ∷ b't' ∷ b'e' ∷ b'c' ∷ b't' ∷ b'i'
    ∷ b'o' ∷ b'n' ∷ []

abbrev pub sha1 : Text
sha1 = b's' ∷ b'h' ∷ b'a' ∷ b'1' ∷ []

abbrev pub cert_kind : Text
cert_kind = b'c' ∷ b'e' ∷ b'r' ∷ b't' ∷ []

abbrev pub trust_kind : Text
trust_kind = b't' ∷ b'r' ∷ b'u' ∷ b's' ∷ b't' ∷ []

abbrev pub unknown : Text
unknown = b'u' ∷ b'n' ∷ b'k' ∷ b'n' ∷ b'o' ∷ b'w' ∷ b'n' ∷ []

module _ (k : Cryptoki) (o : ByteOrder) (f : Files) where
  -- `read_file(dir, block.require(key))`
  unfoldable pub read_required : f.Os → f.PathBuf → Block → Text → Option Bytes
  read_required os dir block key = do name ← get block key; f.read os (f.join dir name)

  unfoldable pub number : ℕ → ℕ → Option Bytes
  number size value = unwrap (serialize_uint o size value)

  unfoldable pub cert_attrs : f.Os → f.PathBuf → Block → Option Attributes
  cert_attrs os dir block = do
    class_bytes ← number k.ulong_size k.cko_certificate
    label_text ← get block label
    id_text ← get block id
    value_bytes ← read_required os dir block der
    issuer_bytes ← read_required os dir block issuer
    serial_bytes ← read_required os dir block serial
    subject_bytes ← read_required os dir block subject
    some (
        (k.cka_class, class_bytes)
        ∷ (k.cka_token, ck_true ∷ [])
        ∷ (k.cka_label, as_bytes label_text)
        ∷ (k.cka_id, as_bytes id_text)
        ∷ (k.cka_value, value_bytes)
        ∷ (k.cka_issuer, issuer_bytes)
        ∷ (k.cka_serial_number, serial_bytes)
        ∷ (k.cka_subject, subject_bytes)
        ∷ [])

  -- Whether `block.get("email_protection")` is "unknown".
  unfoldable pub email_trust : Option Text → ℕ
  email_trust none = ckt_nss_trusted_delegator
  email_trust (some value) =
      if bytes_eq value unknown then ckt_nss_trust_unknown else ckt_nss_trusted_delegator

  -- The hash, if the block names its file.
  unfoldable pub sha1_attrs : f.Os → f.PathBuf → Option Text → Option Attributes
  sha1_attrs os dir none = some []
  sha1_attrs os dir (some sha1_file) = do
    hash ← f.read os (f.join dir sha1_file)
    some ((cka_nss_cert_sha1_hash k, hash) ∷ [])

  unfoldable pub trust_attrs : f.Os → f.PathBuf → Block → Option Attributes
  trust_attrs os dir block = do
    class_bytes ← number k.ulong_size (cko_nss_trust k)
    issuer_bytes ← read_required os dir block issuer
    serial_bytes ← read_required os dir block serial
    server_auth ← number k.ulong_size ckt_nss_trust_unknown
    client_auth ← number k.ulong_size ckt_nss_trust_unknown
    code_signing ← number k.ulong_size ckt_nss_trust_unknown
    email_bytes ← number k.ulong_size (email_trust (get block email_protection))
    hash ← sha1_attrs os dir (get block sha1)
    some (
        ((k.cka_class, class_bytes)
          ∷ (k.cka_token, ck_true ∷ [])
          ∷ (k.cka_issuer, issuer_bytes)
          ∷ (k.cka_serial_number, serial_bytes)
          ∷ (cka_nss_trust_server_auth k, server_auth)
          ∷ (cka_nss_trust_client_auth k, client_auth)
          ∷ (cka_nss_trust_code_signing k, code_signing)
          ∷ (cka_nss_trust_email_protection k, email_bytes)
          ∷ (cka_nss_trust_step_up_approved k, ck_false ∷ [])
          ∷ [])
        ++ hash)

  unfoldable pub block_object : f.Os → f.PathBuf → Block → Option (Object Attrs Attrs Attrs)
  block_object os dir block = do
    name ← get block kind
    if bytes_eq name cert_kind
        then (do attrs ← cert_attrs os dir block; some (cert (record { attrs = attrs })))
        else if bytes_eq name trust_kind
        then (do attrs ← trust_attrs os dir block; some (trust (record { attrs = attrs })))
        else none

  unfoldable pub block_objects :
      f.Os → f.PathBuf → List Block → Option (List (Object Attrs Attrs Attrs))
  block_objects os dir [] = some []
  block_objects os dir (block ∷ blocks) = do
    object ← block_object os dir block
    objects ← block_objects os dir blocks
    some (object ∷ objects)

  unfoldable pub list_objects : f.Os → Option (List (Object Attrs Attrs Attrs))
  list_objects os = do
    dir_text ← f.var os dir_env_var
    let dir = f.path_new dir_text
    manifest_text ← f.read_to_string os (f.join dir manifest_txt)
    blocks ← parse_manifest manifest_text
    block_objects os dir blocks
